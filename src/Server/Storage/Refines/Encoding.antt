-- ===== src/Server/Storage/Refines/Encoding.antt =====
-- What a node keeps, and the tables that hold it.
use scalable_key_value_store.Prelude.{sym, ℕ, ◌≡◌, ap, ◌∙◌, Option, List}
use scalable_key_value_store.Server.Java.Laws.{Ends}
use scalable_key_value_store.Server.Sql.{Text, LogEntry, Sql, done}
use scalable_key_value_store.Server.Storage.Sqlite.{Tables}
use scalable_key_value_store.Server.Storage.Rows.{unnumber, unnumber-number, number}
use scalable_key_value_store.Server.Storage.{checked, tolerant}

-- what a node keeps, with the entry of index `n + 1` at position `n`
pub record Store : Type 0 where
  pub log : List LogEntry
  pub commit_index : ℕ
  pub last_applied : ℕ
  pub key_values : Text → Option Text

abbrev pub encode : Store → Tables
encode a = record {
  logs = number 1 a.log;
  commit_index = a.commit_index;
  last_applied = a.last_applied;
  key_values = a.key_values;
}

abbrev decode : Tables → Store
decode t = record {
  log = unnumber t.logs;
  commit_index = t.commit_index;
  last_applied = t.last_applied;
  key_values = t.key_values;
}

-- The tables tell what is stored.
pub encode_inj : (a b : Store) → encode a ≡ encode b → a ≡ b
encode_inj a b h = sym (decode-encode a) ∙ ap decode h ∙ decode-encode b
  where
    decode-encode : (c : Store) → decode (encode c) ≡ c
    decode-encode c = ap (λ l. record c { log = l }) (unnumber-number 1 c.log)

module _ {D : Type 0} (tables : D → Tables) where
  -- The connection holds that store.
  abbrev pub Holds : Store → D → Type 0
  Holds a d = tables d ≡ encode a

module _ {D A : Type 0} where
  pub checked-Ends :
      (m : D → Sql A × D) (d : D) (a : A) (Q : A → D → Type 0)
      → (m d).0 ≡ done a
      → Q a (m d).1
      → Ends (checked m) d Q
  unfolding checked
  checked-Ends m d a Q e q = record { result = a; state = (m d).1; runs = rw e; holds = q }

  pub tolerant-Ends :
      (b : A) (m : D → Sql A × D) (d : D) (a : A) (Q : A → D → Type 0)
      → (m d).0 ≡ done a
      → Q a (m d).1
      → Ends (tolerant b m) d Q
  unfolding tolerant
  tolerant-Ends b m d a Q e q = record { result = a; state = (m d).1; runs = rw e; holds = q }
