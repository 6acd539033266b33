-- ===== src/Server/Replication/Stable.antt =====
-- Predicates on a node that its replication methods keep, if they are kept by what these methods
-- write.
use scalable_key_value_store.Prelude.{ℕ, zero, suc, ◌+◌, Bool, true, false, some, List, [], ◌∷◌}
use scalable_key_value_store.Server.Java.{Exec, modify}
use scalable_key_value_store.Server.Java.Laws.{Keeps, Keeps-modify, keeps_rules}
use scalable_key_value_store.Server.Sql.{Text, LogEntry, Engine}
use scalable_key_value_store.Server.Raft.{
  NodeInfo, Dict, RaftNode, on_storage, reset_election_timer,
}
use scalable_key_value_store.Server.Replication.{
  term_at, apply_to_state_machine, apply_loop, apply_committed_entries, replace_entry, store_entry,
  store_entries, previous_term, previous_matches, log_matches, commit_up_to, advance_commit,
  append_matching, observe_term, append_current, append_entries, commit_entry, commit_loop,
  update_commit_index, note_match, step_back, after_append, send_append_entries, send_all,
  replicate_entry, append_proposal, propose_entry,
}

-- kept by every write of the methods
pub record IsStable {D : Type 0} (I : RaftNode D → Type 0) : Type 0 where
  pub stores : (s : RaftNode D) (d : D) → I s → I (record s { storage = d })
  pub observes : (term : ℕ) (s : RaftNode D) → I s → I (observe_term term s)
  pub resets : (n : ℕ) (s : RaftNode D) → I s → I (record s { election_timer = some n })
  pub notes : (id : Text) (m n : ℕ) (s : RaftNode D) → I s → I (note_match id m n s)
  pub backs : (id : Text) (s : RaftNode D) → I s → I (step_back id s)

module _ {D : Type 0} {I : RaftNode D → Type 0} where
  pub on_storage-Keeps : {A : Type 0} → IsStable I → (m : Exec D A) → Keeps I (on_storage m)
  unfolding on_storage
  on_storage-Keeps stable m = record { at = λ s h. stable.stores s _ h }

  observe-Keeps : IsStable I → (term : ℕ) → Keeps I (modify (observe_term term))
  observe-Keeps stable term = Keeps-modify _ (stable.observes term)

  note-Keeps : IsStable I → (id : Text) (m n : ℕ) → Keeps I (modify (note_match id m n))
  note-Keeps stable id m n = Keeps-modify _ (stable.notes id m n)

  back-Keeps : IsStable I → (id : Text) → Keeps I (modify (step_back id))
  back-Keeps stable id = Keeps-modify _ (stable.backs id)

  reset-Keeps : IsStable I → (delay : ℕ) → Keeps I (reset_election_timer delay)
  unfolding reset_election_timer
  reset-Keeps stable delay = Keeps-modify _ (stable.resets (150 + delay))

pub ruleset stable_rules = (keeps_rules, on_storage-Keeps)

module _ {D : Type 0} (sql : Engine D) {I : RaftNode D → Type 0} (stable : IsStable I) where
  term_at-Keeps : (n : ℕ) → Keeps I (term_at sql n)
  unfolding term_at
  term_at-Keeps n = search stable_rules depth 8

  apply_loop-Keeps : (rounds n : ℕ) → Keeps I (apply_loop sql rounds n)
  unfolding apply_loop apply_to_state_machine
  apply_loop-Keeps zero n = search stable_rules
  apply_loop-Keeps (suc rounds) n =
      let ih = apply_loop-Keeps rounds (suc n) in search stable_rules depth 8

  apply-Keeps : Keeps I (apply_committed_entries sql)
  unfolding apply_committed_entries
  apply-Keeps = search (stable_rules, apply_loop-Keeps) depth 8

  store_entry-Keeps : (index : ℕ) (e : LogEntry) (last : ℕ) → Keeps I (store_entry sql index e last)
  unfolding store_entry replace_entry
  store_entry-Keeps index e last = search (stable_rules, term_at-Keeps) depth 9

  store_entries-Keeps :
      (index : ℕ) (entries : List LogEntry) → Keeps I (store_entries sql index entries)
  unfolding store_entries
  store_entries-Keeps index [] = search stable_rules
  store_entries-Keeps index (e ∷ entries) =
      let ih = store_entries-Keeps (suc index) entries in
      search (stable_rules, store_entry-Keeps) depth 8

  previous_matches-Keeps : (prev term : ℕ) → Keeps I (previous_matches sql prev term)
  unfolding previous_matches
  previous_matches-Keeps zero term = search stable_rules
  previous_matches-Keeps (suc prev) term = search (stable_rules, term_at-Keeps) depth 8

  previous_term-Keeps : (prev : ℕ) → Keeps I (previous_term sql prev)
  unfolding previous_term
  previous_term-Keeps zero = search stable_rules
  previous_term-Keeps (suc prev) = search term_at-Keeps

  append_matching-Keeps :
      (prev : ℕ) (entries : List LogEntry) (commit : ℕ) (b : Bool)
      → Keeps I (append_matching sql prev entries commit b)
  unfolding append_matching advance_commit commit_up_to
  append_matching-Keeps prev entries commit false = search stable_rules
  append_matching-Keeps prev entries commit true =
      search (stable_rules, store_entries-Keeps, apply-Keeps) depth 12

  pub append_entries-Keeps :
      (delay : ℕ) (id : Text) (term prev prev_term : ℕ) (entries : List LogEntry) (commit : ℕ)
      → Keeps I (append_entries sql delay id term prev prev_term entries commit)
  unfolding append_entries append_current log_matches
  append_entries-Keeps delay id term prev prev_term entries commit =
      search
        (stable_rules, observe-Keeps, reset-Keeps, previous_matches-Keeps, append_matching-Keeps)
        depth 12

  commit_loop-Keeps : (rounds n : ℕ) → Keeps I (commit_loop sql rounds n)
  unfolding commit_loop commit_entry
  commit_loop-Keeps zero n = search stable_rules
  commit_loop-Keeps (suc rounds) n =
      let ih = commit_loop-Keeps rounds (suc n) in
      search (stable_rules, term_at-Keeps, apply-Keeps) depth 12

  update-Keeps : Keeps I (update_commit_index sql)
  unfolding update_commit_index
  update-Keeps = search (stable_rules, commit_loop-Keeps) depth 8

  after_append-Keeps : (id : Text) (b : Bool) → Keeps I (after_append sql id b)
  unfolding after_append
  after_append-Keeps id true = search (stable_rules, note-Keeps, update-Keeps) depth 10
  after_append-Keeps id false = search (stable_rules, back-Keeps)

  pub send-Keeps : (delay : ℕ) (peer : NodeInfo) → Keeps I (send_append_entries sql delay peer)
  unfolding send_append_entries
  send-Keeps delay peer =
      search (stable_rules, previous_term-Keeps, append_entries-Keeps, after_append-Keeps) depth 14

  send_all-Keeps : (random : Text → ℕ) (peers : Dict NodeInfo) → Keeps I (send_all sql random peers)
  unfolding send_all
  send_all-Keeps random [] = search stable_rules
  send_all-Keeps random ((id, peer) ∷ peers) =
      let ih = send_all-Keeps random peers in search (stable_rules, send-Keeps) depth 8

  pub propose-Keeps :
      (random : Text → ℕ) (key value : Text) → Keeps I (propose_entry sql random key value)
  unfolding propose_entry append_proposal replicate_entry
  propose-Keeps random key value = search (stable_rules, send_all-Keeps, update-Keeps) depth 14
