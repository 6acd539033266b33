-- ===== src/Server/Sql.antt =====
-- What the server takes from JDBC and SQLite: one operation for each statement that
-- storage/SQLiteStorage.java prepares, over a connection of an unknown type.
use mathlib.Core.Path.{ap₂}
use scalable_key_value_store.Prelude.{
  arith, ◌≡◌, refl, ==_refl, ℕ, Bool, true, false, ◌&&◌, Option, List, [], ◌∷◌, ◌==◌,
}

-- The text of a `String`, as its characters.
abbrev pub Text : Type 0
Text = List ℕ

-- `String.equals`
unfoldable pub text_eq : Text → Text → Bool
text_eq [] [] = true
text_eq [] (d ∷ b) = false
text_eq (c ∷ a) [] = false
text_eq (c ∷ a) (d ∷ b) = (c == d) && text_eq a b

pub text_eq_refl : (t : Text) → text_eq t t ≡ true
unfolding text_eq
text_eq_refl [] = refl
text_eq_refl (c ∷ t) = rw (==_refl c) (text_eq_refl t)

pub text_eq→eq : (a b : Text) → text_eq a b ≡ true → a ≡ b
unfolding text_eq
text_eq→eq [] [] h = refl
text_eq→eq [] (d ∷ b) h = absurd (cc)
text_eq→eq (c ∷ a) [] h = absurd (cc)
text_eq→eq (c ∷ a) (d ∷ b) h =
    let head : c ≡ d = ground arith in
    let tail : text_eq a b ≡ true = ground arith in ap₂ ◌∷◌ head (text_eq→eq a b tail)

-- the fields of the message `LogEntry` of raft.proto that the server sets; `term` is a 64-bit word
pub record LogEntry : Type 0 where
  pub term : ℕ
  pub key : Text
  pub value : Text

-- what a statement gives, or a `SQLException`
pub data Sql (A : Type 0) : Type 0 where
  done : A → Sql A
  sql_exception : Sql A

-- `Option` is whether `next()` finds a row. `MAX(index)` may be NULL in the row that it gives.
pub record Engine (D : Type 0) : Type 0 where
  -- CREATE TABLE IF NOT EXISTS kv_store (key TEXT PRIMARY KEY, value TEXT)
  pub create_kv_store : D → Sql (Unit {0}) × D
  -- CREATE TABLE IF NOT EXISTS logs (index INTEGER PRIMARY KEY, term INTEGER, ...)
  pub create_logs : D → Sql (Unit {0}) × D
  -- CREATE TABLE IF NOT EXISTS state (lastApplied INTEGER, commitIndex INTEGER, ...)
  pub create_state : D → Sql (Unit {0}) × D
  -- INSERT OR IGNORE INTO state (...) VALUES (0, 0, 0, NULL)
  pub insert_state : D → Sql (Unit {0}) × D
  -- INSERT INTO logs (term, key, value) VALUES (?, ?, ?), with the generated key
  pub insert_log : LogEntry → D → Sql (Option ℕ) × D
  -- SELECT term, key, value FROM logs WHERE index >= ? AND index <= ?
  pub select_logs : ℕ → ℕ → D → Sql (List LogEntry) × D
  -- SELECT term, key, value FROM logs WHERE index = ?
  pub select_log : ℕ → D → Sql (Option LogEntry) × D
  -- SELECT MAX(index) FROM logs
  pub select_max_index : D → Sql (Option (Option ℕ)) × D
  -- DELETE FROM logs WHERE index >= ?
  pub delete_logs : ℕ → D → Sql (Unit {0}) × D
  -- SELECT commitIndex FROM state; UPDATE state SET commitIndex = ?
  pub select_commit_index : D → Sql (Option ℕ) × D
  pub update_commit_index : ℕ → D → Sql (Unit {0}) × D
  -- SELECT lastApplied FROM state; UPDATE state SET lastApplied = ?
  pub select_last_applied : D → Sql (Option ℕ) × D
  pub update_last_applied : ℕ → D → Sql (Unit {0}) × D
  -- INSERT OR REPLACE INTO kv_store (key, value) VALUES (?, ?)
  pub replace_key_value : Text → Text → D → Sql (Unit {0}) × D
  -- SELECT value FROM kv_store WHERE key = ?
  pub select_value : Text → D → Sql (Option Text) × D
  pub close_connection : D → Sql (Unit {0}) × D
