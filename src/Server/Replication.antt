-- ===== src/Server/Replication.antt =====
pub mod Spec
pub mod Frame
pub mod Apply
pub mod Entries
pub mod Append
pub mod Commit
pub mod Quorum
pub mod Stable
pub mod Sending
pub mod Sound
-- raft/RaftNode.java: the log of a node, from a proposal to the key-value table.
use Prim.Native.Nat.{min, max}
use scalable_key_value_store.Prelude.{
  ℕ, zero, suc, ◌+◌, ◌-◌, ◌/◌, Bool, true, false, ◌&&◌, Option, none, some, List, [], ◌∷◌, ◌==◌,
  ltb, leb, length, if◌then◌else◌,
}
use scalable_key_value_store.Server.Java.{Exec, pure, gets, non_null, modify, ◌>>=◌, ◌>>◌}
use scalable_key_value_store.Server.Long.{signed_lt}
use scalable_key_value_store.Server.Sql.{Text, LogEntry, Engine}
use scalable_key_value_store.Server.Storage
use scalable_key_value_store.Server.RaftState.{is_leader}
use scalable_key_value_store.Server.Raft.{
  NodeInfo, Dict, dict_put, get_or_default, RaftNode, on_storage, term_of, step_down,
  reset_election_timer,
}

-- the replicas whose match index is at least `n`
unfoldable pub count_from : ℕ → Dict ℕ → ℕ
count_from n [] = 0
count_from n ((id, match_idx) ∷ m) =
    let rest = count_from n m in if leb n match_idx then suc rest else rest

module _ {D : Type 0} where
  unfoldable pub observe_term : ℕ → RaftNode D → RaftNode D
  observe_term term s = if signed_lt (term_of s) term then step_down term s else s

  unfoldable pub note_match : Text → ℕ → ℕ → RaftNode D → RaftNode D
  note_match id next_last match_last s = record s {
    next_index = dict_put id (suc next_last) s.next_index;
    match_index = dict_put id match_last s.match_index;
  }

  unfoldable pub step_back : Text → RaftNode D → RaftNode D
  step_back id s = record s {
    next_index = dict_put id (max 1 (get_or_default id 1 s.next_index - 1)) s.next_index;
  }

  -- whether more than half of the peers count, the node itself included
  unfoldable pub replicated : ℕ → RaftNode D → Bool
  replicated n s = ltb (length s.peers / 2) (1 + count_from n s.match_index)

module _ {D : Type 0} (sql : Engine D) where
  -- `storage.getLogEntry(index).getTerm()`
  unfoldable pub term_at : ℕ → Exec (RaftNode D) ℕ
  term_at index = do
    found ← on_storage (Storage.get_log_entry sql index)
    entry ← non_null found
    pure entry.term

  unfoldable pub apply_to_state_machine : LogEntry → Exec (RaftNode D) (Unit {0})
  apply_to_state_machine entry = on_storage (Storage.update_key_value sql entry.key entry.value)

  -- the loop of `applyCommittedEntries`: so many rounds are left
  unfoldable pub apply_loop : ℕ → ℕ → Exec (RaftNode D) ℕ
  apply_loop zero last_applied = pure last_applied
  apply_loop (suc rounds) last_applied = do
    found ← on_storage (Storage.get_log_entry sql (suc last_applied))
    entry ← non_null found
    apply_to_state_machine entry
    apply_loop rounds (suc last_applied)

  unfoldable pub apply_committed_entries : Exec (RaftNode D) (Unit {0})
  apply_committed_entries = do
    last_applied ← on_storage (Storage.get_last_applied sql)
    commit_index ← on_storage (Storage.get_commit_index sql)
    applied ← apply_loop (commit_index - last_applied) last_applied
    on_storage (Storage.set_last_applied sql applied)

  -- An entry at an index that the log has is kept if the terms agree; else it and all that follow
  -- are deleted, and the new entry is appended.
  unfoldable pub replace_entry : ℕ → LogEntry → ℕ → Exec (RaftNode D) (Unit {0})
  replace_entry index entry term =
      if term == entry.term
      then pure tt
      else (on_storage (Storage.delete_log_entries_from sql index)
          >> (on_storage (Storage.append_log_entry sql entry) >> pure tt))

  unfoldable pub store_entry : ℕ → LogEntry → ℕ → Exec (RaftNode D) (Unit {0})
  store_entry index entry last_index =
      if leb index last_index
      then (term_at index >>= replace_entry index entry)
      else (on_storage (Storage.append_log_entry sql entry) >> pure tt)

  -- the loop over the entries, `index` being `prevLogIndex + 1 + i`
  unfoldable pub store_entries : ℕ → List LogEntry → Exec (RaftNode D) (Unit {0})
  store_entries index [] = pure tt
  store_entries index (entry ∷ entries) = do
    last_index ← on_storage (Storage.get_last_log_index sql)
    store_entry index entry last_index
    store_entries (suc index) entries

  unfoldable pub previous_term : ℕ → Exec (RaftNode D) ℕ
  previous_term zero = pure 0
  previous_term (suc prev) = term_at (suc prev)

  -- whether the log holds the entry in front of the new ones
  unfoldable pub previous_matches : ℕ → ℕ → Exec (RaftNode D) Bool
  previous_matches zero prev_log_term = pure true
  previous_matches (suc prev) prev_log_term = do
    term ← term_at (suc prev)
    pure (term == prev_log_term)

  unfoldable pub log_matches : ℕ → ℕ → Exec (RaftNode D) Bool
  log_matches prev_log_index prev_log_term = do
    last_index ← on_storage (Storage.get_last_log_index sql)
    if ltb last_index prev_log_index
        then pure false
        else previous_matches prev_log_index prev_log_term

  unfoldable pub commit_up_to : ℕ → ℕ → Exec (RaftNode D) (Unit {0})
  commit_up_to leader_commit last_index = do
    on_storage (Storage.set_commit_index sql (min leader_commit last_index))
    apply_committed_entries

  unfoldable pub advance_commit : ℕ → ℕ → Exec (RaftNode D) (Unit {0})
  advance_commit leader_commit commit_index =
      if ltb commit_index leader_commit
      then (on_storage (Storage.get_last_log_index sql) >>= commit_up_to leader_commit)
      else pure tt

  unfoldable pub append_matching : ℕ → List LogEntry → ℕ → Bool → Exec (RaftNode D) Bool
  append_matching prev_log_index entries leader_commit false = pure false
  append_matching prev_log_index entries leader_commit true = do
    store_entries (suc prev_log_index) entries
    commit_index ← on_storage (Storage.get_commit_index sql)
    advance_commit leader_commit commit_index
    pure true

  -- what `appendEntries` does for a term that is not stale
  unfoldable pub append_current :
      (delay : ℕ) → ℕ → ℕ → ℕ → List LogEntry → ℕ → Exec (RaftNode D) Bool
  append_current delay term prev_log_index prev_log_term entries leader_commit = do
    modify (observe_term term)
    reset_election_timer delay
    matches ← log_matches prev_log_index prev_log_term
    append_matching prev_log_index entries leader_commit matches

  -- `appendEntries`; `delay` is the random number that `resetElectionTimer` draws. `leaderId` is
  -- not used.
  unfoldable pub append_entries :
      (delay : ℕ) → Text → ℕ → ℕ → ℕ → List LogEntry → ℕ → Exec (RaftNode D) Bool
  append_entries delay leader_id term prev_log_index prev_log_term entries leader_commit = do
    current_term ← gets term_of
    if signed_lt term current_term
        then pure false
        else append_current delay term prev_log_index prev_log_term entries leader_commit

  -- one round of the loop of `updateCommitIndex`
  unfoldable pub commit_entry : ℕ → ℕ → Exec (RaftNode D) (Unit {0})
  commit_entry n term = do
    current_term ← gets term_of
    enough ← gets (replicated n)
    if (term == current_term) && enough
        then (on_storage (Storage.set_commit_index sql n) >> apply_committed_entries)
        else pure tt

  unfoldable pub commit_loop : ℕ → ℕ → Exec (RaftNode D) (Unit {0})
  commit_loop zero n = pure tt
  commit_loop (suc rounds) n = do term ← term_at n; commit_entry n term; commit_loop rounds (suc n)

  unfoldable pub update_commit_index : Exec (RaftNode D) (Unit {0})
  update_commit_index = do
    last_index ← on_storage (Storage.get_last_log_index sql)
    commit_index ← on_storage (Storage.get_commit_index sql)
    commit_loop (last_index - commit_index) (suc commit_index)

  unfoldable pub after_append : Text → Bool → Exec (RaftNode D) (Unit {0})
  after_append id true = do
    next_last ← on_storage (Storage.get_last_log_index sql)
    match_last ← on_storage (Storage.get_last_log_index sql)
    modify (note_match id next_last match_last)
    update_commit_index
  after_append id false = modify (step_back id)

  -- `sendAppendEntries`: the call of `appendEntries` is a call of the node's own method
  unfoldable pub send_append_entries : (delay : ℕ) → NodeInfo → Exec (RaftNode D) (Unit {0})
  send_append_entries delay peer = do
    next_idx ← gets (λ s. get_or_default peer.id 1 s.next_index)
    last_index ← on_storage (Storage.get_last_log_index sql)
    entries ← on_storage (Storage.get_log_entries sql next_idx last_index)
    prev_log_term ← previous_term (next_idx - 1)
    term ← gets term_of
    commit_index ← on_storage (Storage.get_commit_index sql)
    success ← append_entries delay peer.id term (next_idx - 1) prev_log_term entries commit_index
    after_append peer.id success

  -- `random` gives the number that is drawn in the call for each peer.
  unfoldable pub send_all : (random : Text → ℕ) → Dict NodeInfo → Exec (RaftNode D) (Unit {0})
  send_all random [] = pure tt
  send_all random ((id, peer) ∷ peers) = do
    send_append_entries (random id) peer
    send_all random peers

  unfoldable pub replicate_entry : (random : Text → ℕ) → ℕ → Exec (RaftNode D) Bool
  replicate_entry random index = do
    peers ← gets (λ s. s.peers)
    send_all random peers
    update_commit_index
    pure true

  unfoldable pub append_proposal : Text → Text → Exec (RaftNode D) ℕ
  append_proposal key value = do
    term ← gets term_of
    on_storage (Storage.append_log_entry sql (record { term = term; key = key; value = value }))
    on_storage (Storage.get_last_log_index sql)

  unfoldable pub propose_entry : (random : Text → ℕ) → Text → Text → Exec (RaftNode D) Bool
  propose_entry random key value = do
    leading ← gets (λ s. is_leader s.state)
    if leading then (append_proposal key value >>= replicate_entry random) else pure false
