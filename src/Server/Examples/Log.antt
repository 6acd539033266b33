-- ===== src/Server/Examples/Log.antt =====
-- The log of a node, on the sample database.

use scalable_key_value_store.Server.Raft.{localhost, get_or_default, NodeInfo}
use scalable_key_value_store.Server.Replication.{update_commit_index, send_append_entries}
use scalable_key_value_store.Server.Replication.Quorum.{IsSettled, update_commit_index-IsSettled}
use scalable_key_value_store.Server.Replication.Sending.{IsCounted, send_append_entries-IsCounted}
use scalable_key_value_store.Prelude.{
  take, length, ◌+◌, ◌≡◌, refl, true, false, [], ◌∷◌, ◌++◌, arith,
}
use scalable_key_value_store.Server.Java.Laws.{Ends}
use scalable_key_value_store.Server.Long.{signed_lt}
use scalable_key_value_store.Server.Raft.{RaftNode}
use scalable_key_value_store.Server.Storage.Sqlite.{Tables}
use scalable_key_value_store.Server.Storage.Refines.{Store, encode}
use scalable_key_value_store.Server.Replication.{
  append_entries, apply_committed_entries, store_entries,
}
use scalable_key_value_store.Server.Replication.Spec.{
  apply_entries, catch_up, empty_values, is_match, reconcile, appended, follow, KeepsCommitted,
  terms,
}
use scalable_key_value_store.Server.Replication.Frame.{IsAt, IsAt-self}
use scalable_key_value_store.Server.Replication.Apply.{apply_committed-Ends}
use scalable_key_value_store.Server.Replication.Entries.{store_entries-Ends}
use scalable_key_value_store.Server.Replication.Append.{
  heard, append_entries-accepts, append_entries-rejects, append_entries-terms,
}
use scalable_key_value_store.Server.Examples.Database.{
  database, contents, database-IsSqlite, key_a, key_b, entry, sample_log, sample_store,
  sample_store-IsConsistent, sample_node, sent,
}

fresh_term : signed_lt 3 2 ≡ false
unfolding signed_lt
fresh_term = refl

sample_match : is_match sample_log 1 1 ≡ true
unfolding is_match
sample_match = refl

sample_mismatch : is_match sample_log 2 7 ≡ false
unfolding is_match
sample_mismatch = refl

sent-KeepsCommitted : KeepsCommitted sample_store 1 sent
unfolding reconcile
sent-KeepsCommitted = refl

-- the log that the node has then
appended_test : follow 3 (appended sample_store 1 sent) ≡ record {
  log = entry 1 key_a ∷ entry 1 key_b ∷ entry 3 key_b ∷ entry 3 key_a ∷ [];
  commit_index = 3;
  last_applied = 3;
  key_values = apply_entries (entry 1 key_a ∷ entry 1 key_b ∷ entry 3 key_b ∷ []) empty_values;
}
unfolding reconcile follow
appended_test = refl

append_entries-accepts_example :
    Ends (append_entries database 7 key_b 3 1 1 sent 3) sample_node (λ r u.
      (r ≡ true)
      × IsAt contents (heard 7 3 sample_node) (follow 3 (appended sample_store 1 sent)) u)
append_entries-accepts_example =
    append_entries-accepts database contents database-IsSqlite 7 key_b 3 1 1 sent 3 sample_node
      sample_store refl sample_store-IsConsistent fresh_term sample_match sent-KeepsCommitted

append_entries-terms_example :
    Ends (append_entries database 7 key_b 3 1 1 sent 3) sample_node (λ _ u.
      (b : Store) × (contents u.storage ≡ encode b)
      × (terms (take (1 + length sent) b.log) ≡ terms (take 1 sample_log) ++ terms sent))
append_entries-terms_example =
    append_entries-terms database contents database-IsSqlite 7 key_b 3 1 1 sent 3 sample_node
      sample_store refl sample_store-IsConsistent fresh_term sample_match sent-KeepsCommitted

append_entries-rejects_example :
    Ends
      (append_entries database 7 key_b 3 2 7 sent 3)
      sample_node
      (λ r u. (r ≡ false) × IsAt contents (heard 7 3 sample_node) sample_store u)
append_entries-rejects_example =
    append_entries-rejects database contents database-IsSqlite 7 key_b 3 2 7 sent 3 sample_node
      sample_store refl fresh_term sample_mismatch

-- A node that has not applied two of its committed entries.
abbrev lagging_store : Store
lagging_store = record sample_store { commit_index = 3 }

abbrev lagging_node : RaftNode Tables
lagging_node = record sample_node { storage = encode lagging_store }

apply_committed-Ends_example :
    Ends
      (apply_committed_entries database)
      lagging_node
      (λ _ u. IsAt contents lagging_node (catch_up lagging_store) u)
apply_committed-Ends_example =
    apply_committed-Ends database contents database-IsSqlite lagging_node lagging_node lagging_store
      (IsAt-self contents lagging_node lagging_store refl)
      (record { applied = omega arith; committed = omega arith; replayed = refl })

store_entries-Ends_example :
    Ends
      (store_entries database 2 sent)
      sample_node
      (λ _ u. IsAt contents sample_node (appended sample_store 1 sent) u)
store_entries-Ends_example =
    store_entries-Ends database contents database-IsSqlite sent sample_node sample_node sample_store
      1 (IsAt-self contents sample_node sample_store refl) (omega arith)

abbrev sample_peer : NodeInfo
sample_peer = record { id = key_b; host = localhost; port = 50051 }

send_append_entries-IsCounted_example :
    Ends
      (send_append_entries database 7 sample_peer)
      sample_node
      (λ _ u. IsCounted sample_peer sample_log u)
unfolding get_or_default
send_append_entries-IsCounted_example =
    send_append_entries-IsCounted database contents database-IsSqlite 7 sample_peer sample_node
      sample_store 0 refl sample_store-IsConsistent (omega arith) refl

-- The one peer has the first two entries, and the node alone is half of the two servers.
abbrev behind_peer : RaftNode Tables
behind_peer = record sample_node { match_index = (key_b, 2) ∷ [] }

update_commit_index-IsSettled_example :
    Ends
      (update_commit_index database)
      behind_peer
      (λ _ u. (b : Store) × IsAt contents behind_peer b u × IsSettled behind_peer sample_store b 3)
update_commit_index-IsSettled_example =
    update_commit_index-IsSettled database contents database-IsSqlite behind_peer sample_store
      behind_peer (IsAt-self contents behind_peer sample_store refl) sample_store-IsConsistent
