-- ===== src/Server/Threads/Perform.antt =====
-- What an access does to the node, and a thread that runs alone.

use scalable_key_value_store.Prelude.{ℕ, zero, suc, some}
use scalable_key_value_store.Server.Java.{
  Outcome, returns, throws, Exec, pure, throw, gets, modify, ◌>>=◌,
}
use scalable_key_value_store.Server.Sql.{Engine}
use scalable_key_value_store.Server.Storage
use scalable_key_value_store.Server.RaftState
use scalable_key_value_store.Server.RaftState.{Role}
use scalable_key_value_store.Server.Raft.{RaftNode, on_storage, term_of}
use scalable_key_value_store.Server.Replication.{replicated, send_append_entries}
use scalable_key_value_store.Server.Election.{lead_peers}
use scalable_key_value_store.Server.Threads.Calls.{
  Call, Answer, Prog, ended, failed, call, read_leads, read_term, read_peers, read_replicated,
  write_role, write_term, write_vote, write_indices, send, get_last_log_index, get_log_entry,
  append_log_entry, get_commit_index, set_commit_index, get_last_applied, set_last_applied,
  update_key_value, get_value,
}

module _ {D : Type 0} where
  unfoldable pub set_role : Role → RaftNode D → RaftNode D
  set_role role s = record s { state = record s.state { current_role = role } }

  unfoldable pub set_term : ℕ → RaftNode D → RaftNode D
  set_term term s = record s { state = record s.state { current_term = term } }

  unfoldable pub set_vote : RaftNode D → RaftNode D
  set_vote s = record s { voted_for = some s.node_id }

-- the thread behind an access that returned or threw
abbrev pub resume : {X A : Type 0} → Outcome X → (X → Prog A) → Prog A
resume (returns x) k = k x
resume (throws e) k = failed e

module _ {D : Type 0} (sql : Engine D) where
  unfoldable pub perform : (c : Call) → Exec (RaftNode D) (Answer c)
  perform read_leads = gets (λ s. RaftState.is_leader s.state)
  perform read_term = gets term_of
  perform read_peers = gets (λ s. s.peers)
  perform (read_replicated n) = gets (replicated n)
  perform (write_role role) = modify (set_role role)
  perform (write_term term) = modify (set_term term)
  perform write_vote = modify set_vote
  perform (write_indices last) = modify (λ s. lead_peers last s.peers s)
  perform (send delay peer) = send_append_entries sql delay peer
  perform get_last_log_index = on_storage (Storage.get_last_log_index sql)
  perform (get_log_entry n) = on_storage (Storage.get_log_entry sql n)
  perform (append_log_entry e) = on_storage (Storage.append_log_entry sql e)
  perform get_commit_index = on_storage (Storage.get_commit_index sql)
  perform (set_commit_index n) = on_storage (Storage.set_commit_index sql n)
  perform get_last_applied = on_storage (Storage.get_last_applied sql)
  perform (set_last_applied n) = on_storage (Storage.set_last_applied sql n)
  perform (update_key_value k v) = on_storage (Storage.update_key_value sql k v)
  perform (get_value k) = on_storage (Storage.get sql k)

  module _ {A : Type 0} where
    -- no other thread in between
    unfoldable pub alone : Prog A → Exec (RaftNode D) A
    alone (ended a) = pure a
    alone (failed e) = throw e
    alone (call c k) = perform c >>= λ x. alone (k x)

    -- one access of a thread
    unfoldable pub advance : Prog A → RaftNode D → Prog A × RaftNode D
    advance (ended a) s = (ended a, s)
    advance (failed e) s = (failed e, s)
    advance (call c k) s = let (r, s') = perform c s in (resume r k, s')

    -- so many accesses of a thread, and what it has left
    unfoldable pub goes : ℕ → Prog A → Exec (RaftNode D) (Prog A)
    goes zero p = pure p
    goes (suc n) p = (λ s. let (q, t) = advance p s in (returns q, t)) >>= goes n
