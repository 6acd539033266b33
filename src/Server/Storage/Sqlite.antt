-- ===== src/Server/Storage/Sqlite.antt =====
-- What the storage relies on: the documented behaviour of SQLite on the three tables, for a
-- connection on which no statement fails.
use Prim.Native.Nat.{max}
use scalable_key_value_store.Prelude.{
  ℕ, suc, ◌≡◌, ◌&&◌, Option, none, some, List, [], ◌∷◌, ◌++◌, ◌==◌, leb, ltb, if◌then◌else◌,
}
use scalable_key_value_store.Server.Sql.{text_eq, Text, LogEntry, done, Engine}

-- The rows of `logs` in the order of their keys, the row of `state`, and the table `kv_store`.
pub record Tables : Type 0 where
  pub logs : List (ℕ × LogEntry)
  pub commit_index : ℕ
  pub last_applied : ℕ
  pub key_values : Text → Option Text

abbrev pub max_rowid : List (ℕ × LogEntry) → ℕ
max_rowid [] = 0
max_rowid ((id, entry) ∷ rows) = max id (max_rowid rows)

-- MAX over no row is NULL
abbrev pub max_index : List (ℕ × LogEntry) → Option ℕ
max_index [] = none
max_index (row ∷ rows) = some (max_rowid (row ∷ rows))

abbrev pub find_row : ℕ → List (ℕ × LogEntry) → Option LogEntry
find_row n [] = none
find_row n ((id, entry) ∷ rows) = if id == n then some entry else find_row n rows

abbrev pub rows_below : ℕ → List (ℕ × LogEntry) → List (ℕ × LogEntry)
rows_below n [] = []
rows_below n ((id, entry) ∷ rows) =
    let rest = rows_below n rows in if ltb id n then (id, entry) ∷ rest else rest

abbrev pub rows_between : ℕ → ℕ → List (ℕ × LogEntry) → List LogEntry
rows_between low high [] = []
rows_between low high ((id, entry) ∷ rows) =
    let rest = rows_between low high rows in
    if leb low id && leb id high then entry ∷ rest else rest

abbrev pub set_value : Text → Text → (Text → Option Text) → Text → Option Text
set_value key value old k = if text_eq key k then some value else old k

-- A key that is not given is one more than the largest. The rows of a range come in the order of
-- their keys, as a scan of the primary key gives them: the statement itself asks for no order.
pub record IsSqlite {D : Type 0} (sql : Engine D) (tables : D → Tables) : Type 0 where
  pub insert_gives :
      (e : LogEntry) (d : D)
      → (sql.insert_log e d).0 ≡ done (some (suc (max_rowid (tables d).logs)))
  pub insert_leaves :
      (e : LogEntry) (d : D)
      → tables (sql.insert_log e d).1
        ≡ record (tables d) { logs = (tables d).logs ++ (suc (max_rowid (tables d).logs), e) ∷ [] }
  pub select_logs_gives :
      (low high : ℕ) (d : D)
      → (sql.select_logs low high d).0 ≡ done (rows_between low high (tables d).logs)
  pub select_logs_leaves : (low high : ℕ) (d : D) → tables (sql.select_logs low high d).1 ≡ tables d
  pub select_log_gives :
      (n : ℕ) (d : D) → (sql.select_log n d).0 ≡ done (find_row n (tables d).logs)
  pub select_log_leaves : (n : ℕ) (d : D) → tables (sql.select_log n d).1 ≡ tables d
  pub max_gives : (d : D) → (sql.select_max_index d).0 ≡ done (some (max_index (tables d).logs))
  pub max_leaves : (d : D) → tables (sql.select_max_index d).1 ≡ tables d
  pub delete_gives : (n : ℕ) (d : D) → (sql.delete_logs n d).0 ≡ done tt
  pub delete_leaves :
      (n : ℕ) (d : D)
      → tables (sql.delete_logs n d).1 ≡ record (tables d) { logs = rows_below n (tables d).logs }
  pub commit_gives : (d : D) → (sql.select_commit_index d).0 ≡ done (some (tables d).commit_index)
  pub commit_leaves : (d : D) → tables (sql.select_commit_index d).1 ≡ tables d
  pub set_commit_gives : (n : ℕ) (d : D) → (sql.update_commit_index n d).0 ≡ done tt
  pub set_commit_leaves :
      (n : ℕ) (d : D)
      → tables (sql.update_commit_index n d).1 ≡ record (tables d) { commit_index = n }
  pub applied_gives : (d : D) → (sql.select_last_applied d).0 ≡ done (some (tables d).last_applied)
  pub applied_leaves : (d : D) → tables (sql.select_last_applied d).1 ≡ tables d
  pub set_applied_gives : (n : ℕ) (d : D) → (sql.update_last_applied n d).0 ≡ done tt
  pub set_applied_leaves :
      (n : ℕ) (d : D)
      → tables (sql.update_last_applied n d).1 ≡ record (tables d) { last_applied = n }
  pub replace_gives : (k v : Text) (d : D) → (sql.replace_key_value k v d).0 ≡ done tt
  pub replace_leaves :
      (k v : Text) (d : D)
      → tables (sql.replace_key_value k v d).1
        ≡ record (tables d) { key_values = set_value k v (tables d).key_values }
  pub value_gives : (k : Text) (d : D) → (sql.select_value k d).0 ≡ done ((tables d).key_values k)
  pub value_leaves : (k : Text) (d : D) → tables (sql.select_value k d).1 ≡ tables d
