-- ===== src/Server/Examples/Turns.antt =====
-- Threads that take turns on a leader without peers.
use scalable_key_value_store.Prelude.{◌≡◌, refl, none, true, [], ◌∷◌, arith}
use scalable_key_value_store.Server.Java.{◌>>=◌}
use scalable_key_value_store.Server.Java.Laws.{Ends}
use scalable_key_value_store.Server.RaftState.{is_leader, leader}
use scalable_key_value_store.Server.Raft.{RaftNode}
use scalable_key_value_store.Server.Storage.Sqlite.{Tables}
use scalable_key_value_store.Server.Storage.Refines.{Store, encode}
use scalable_key_value_store.Server.Replication.Spec.{IsConsistent, apply_entries, empty_values}
use scalable_key_value_store.Server.Service
use scalable_key_value_store.Server.Turns.{get_applied, turns, rest}
use scalable_key_value_store.Server.Turns.Race.{overtaken, overtaken-Ends}
use scalable_key_value_store.Server.Examples.Database.{
  database, contents, database-IsSqlite, key_a, key_b, entry, sample_log, sample_node,
}

-- The last entry is committed and not applied.
abbrev applying_store : Store
applying_store = record {
  log = sample_log;
  commit_index = 3;
  last_applied = 2;
  key_values = apply_entries (entry 1 key_a ∷ entry 1 key_b ∷ []) empty_values;
}

applying_store-IsConsistent : IsConsistent applying_store
applying_store-IsConsistent = record {
  applied = omega arith;
  committed = omega arith;
  replayed = refl;
}

abbrev applying_node : RaftNode Tables
applying_node = record sample_node {
  peers = [];
  storage = encode applying_store;
  state = record { current_role = leader; current_term = 2; voted_for = none };
}

applying_leads : is_leader applying_node.state ≡ true
unfolding is_leader
applying_leads = refl

overtaken-Ends_example :
    Ends
      (turns database 3 get_applied >>= λ p. Service.put database (λ id. 7) key_a key_b >>= λ _.
        rest database p >>= λ _. Service.get database key_a)
      applying_node
      (λ r u.
        (r ≡ record { value = b'x' ∷ key_a; found = true })
        × (contents u.storage
            ≡ encode (
                overtaken applying_store
                  (entry 2 key_a)
                  (record { term = 2; key = key_a; value = key_b }))))
overtaken-Ends_example =
    overtaken-Ends database contents database-IsSqlite applying_node applying_store
      (entry 1 key_a ∷ entry 1 key_b ∷ []) (entry 2 key_a) refl refl refl (λ id. 7) key_b refl
      applying_leads refl applying_store-IsConsistent
