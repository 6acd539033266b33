-- ===== src/Server/Examples/Database.antt =====
-- A database that behaves as SQLite is documented to, and a node with a short log on it.
use scalable_key_value_store.Prelude.{ℕ, suc, refl, none, some, List, [], ◌∷◌, ◌++◌, arith}
use scalable_key_value_store.Server.Sql.{Text, LogEntry, done, Engine}
use scalable_key_value_store.Server.RaftState.{follower}
use scalable_key_value_store.Server.Raft.{localhost, RaftNode}
use scalable_key_value_store.Server.Storage.Sqlite.{
  Tables, IsSqlite, max_rowid, max_index, find_row, rows_below, rows_between, set_value,
}
use scalable_key_value_store.Server.Storage.Refines.{Store, encode}
use scalable_key_value_store.Server.Replication.Spec.{IsConsistent, apply_entries, empty_values}

abbrev pub database : Engine Tables
database = record {
  create_kv_store = λ d. (done tt, d);
  create_logs = λ d. (done tt, d);
  create_state = λ d. (done tt, d);
  insert_state = λ d. (done tt, d);
  insert_log = λ e d. (
    done (some (suc (max_rowid d.logs))),
    record d { logs = d.logs ++ (suc (max_rowid d.logs), e) ∷ [] },
  );
  select_logs = λ low high d. (done (rows_between low high d.logs), d);
  select_log = λ n d. (done (find_row n d.logs), d);
  select_max_index = λ d. (done (some (max_index d.logs)), d);
  delete_logs = λ n d. (done tt, record d { logs = rows_below n d.logs });
  select_commit_index = λ d. (done (some d.commit_index), d);
  update_commit_index = λ n d. (done tt, record d { commit_index = n });
  select_last_applied = λ d. (done (some d.last_applied), d);
  update_last_applied = λ n d. (done tt, record d { last_applied = n });
  replace_key_value = λ k v d. (done tt, record d { key_values = set_value k v d.key_values });
  select_value = λ k d. (done (d.key_values k), d);
  close_connection = λ d. (done tt, d);
}

abbrev pub contents : Tables → Tables
contents d = d

pub database-IsSqlite : IsSqlite database contents
database-IsSqlite = record {
  insert_gives = λ e d. refl;
  insert_leaves = λ e d. refl;
  select_logs_gives = λ low high d. refl;
  select_logs_leaves = λ low high d. refl;
  select_log_gives = λ n d. refl;
  select_log_leaves = λ n d. refl;
  max_gives = λ d. refl;
  max_leaves = λ d. refl;
  delete_gives = λ n d. refl;
  delete_leaves = λ n d. refl;
  commit_gives = λ d. refl;
  commit_leaves = λ d. refl;
  set_commit_gives = λ n d. refl;
  set_commit_leaves = λ n d. refl;
  applied_gives = λ d. refl;
  applied_leaves = λ d. refl;
  set_applied_gives = λ n d. refl;
  set_applied_leaves = λ n d. refl;
  replace_gives = λ k v d. refl;
  replace_leaves = λ k v d. refl;
  value_gives = λ k d. refl;
  value_leaves = λ k d. refl;
}

abbrev pub key_a : Text
key_a = b'a' ∷ []

abbrev pub key_b : Text
key_b = b'b' ∷ []

abbrev pub entry : ℕ → Text → LogEntry
entry term key = record { term = term; key = key; value = b'x' ∷ key }

-- Three entries, of which one is committed and applied.
abbrev pub sample_log : List LogEntry
sample_log = entry 1 key_a ∷ entry 1 key_b ∷ entry 2 key_a ∷ []

abbrev pub sample_store : Store
sample_store = record {
  log = sample_log;
  commit_index = 1;
  last_applied = 1;
  key_values = apply_entries (entry 1 key_a ∷ []) empty_values;
}

pub sample_store-IsConsistent : IsConsistent sample_store
sample_store-IsConsistent = record {
  applied = omega arith;
  committed = omega arith;
  replayed = refl;
}

abbrev pub sample_node : RaftNode Tables
sample_node = record {
  node_id = key_a;
  peers = (key_b, record { id = key_b; host = localhost; port = 50051 }) ∷ [];
  storage = encode sample_store;
  state = record { current_role = follower; current_term = 2; voted_for = none };
  next_index = [];
  match_index = [];
  voted_for = none;
  election_timer = none;
}

-- The second entry agrees with the node's, the third does not.
abbrev pub sent : List LogEntry
sent = entry 1 key_b ∷ entry 3 key_b ∷ entry 3 key_a ∷ []
