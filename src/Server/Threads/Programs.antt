-- ===== src/Server/Threads/Programs.antt =====
-- The methods as programs: proposals, the commit index, the state machine, elections.
use scalable_key_value_store.Prelude.{
  ℕ, zero, suc, ◌+◌, ◌-◌, ◌/◌, Bool, true, false, Option, none, some, List, [], ◌∷◌, ◌==◌, ltb,
  length, map, if◌then◌else◌,
}
use scalable_key_value_store.Server.Java.{null_pointer_exception, class_cast_exception}
use scalable_key_value_store.Server.Sql.{Text}
use scalable_key_value_store.Server.Long.{increment}
use scalable_key_value_store.Server.RaftState.{candidate, leader}
use scalable_key_value_store.Server.Raft.{NodeInfo, Dict}
use scalable_key_value_store.Server.Election.{
  Joined, boxed_boolean, completable_future, joined_vote,
}
use scalable_key_value_store.Server.Service.{GetResponse, PutResponse, get_response, put_response}
use scalable_key_value_store.Server.Storage.{term_or_zero}
use scalable_key_value_store.Server.Threads.Calls.{
  Prog, ended, failed, ask, ◌>>=◌, ◌>>◌, read_leads, read_term, read_peers, read_replicated,
  write_role, write_term, write_vote, write_indices, send, get_last_log_index, get_log_entry,
  append_log_entry, get_commit_index, set_commit_index, get_last_applied, set_last_applied,
  update_key_value, get_value,
}

unfoldable pub non_null : {A : Type 0} → Option A → Prog A
non_null none = failed null_pointer_exception
non_null (some a) = ended a

unfoldable pub apply_loop : ℕ → ℕ → Prog ℕ
apply_loop zero last_applied = ended last_applied
apply_loop (suc rounds) last_applied = do
  found ← ask (get_log_entry (suc last_applied))
  entry ← non_null found
  ask (update_key_value entry.key entry.value)
  apply_loop rounds (suc last_applied)

unfoldable pub apply_committed_entries : Prog (Unit {0})
apply_committed_entries = do
  last_applied ← ask get_last_applied
  commit_index ← ask get_commit_index
  applied ← apply_loop (commit_index - last_applied) last_applied
  ask (set_last_applied applied)

-- `&&` reads what is right of it only if what is left of it holds, so the count is not read for an
-- entry of another term.
unfoldable pub commit_if : ℕ → Bool → Prog (Unit {0})
commit_if n false = ended tt
commit_if n true = do
  enough ← ask (read_replicated n)
  if enough then (ask (set_commit_index n) >> apply_committed_entries) else ended tt

unfoldable pub term_at : ℕ → Prog ℕ
term_at n = do found ← ask (get_log_entry n); entry ← non_null found; ended entry.term

unfoldable pub commit_entry : ℕ → ℕ → Prog (Unit {0})
commit_entry n term = do current_term ← ask read_term; commit_if n (term == current_term)

unfoldable pub commit_loop : ℕ → ℕ → Prog (Unit {0})
commit_loop zero n = ended tt
commit_loop (suc rounds) n = do term ← term_at n; commit_entry n term; commit_loop rounds (suc n)

unfoldable pub update_commit_index : Prog (Unit {0})
update_commit_index = do
  last_index ← ask get_last_log_index
  commit_index ← ask get_commit_index
  commit_loop (last_index - commit_index) (suc commit_index)

unfoldable pub send_all : (random : Text → ℕ) → Dict NodeInfo → Prog (Unit {0})
send_all random [] = ended tt
send_all random ((id, peer) ∷ peers) = ask (send (random id) peer) >> send_all random peers

unfoldable pub replicate_entry : (random : Text → ℕ) → Prog Bool
replicate_entry random = do
  peers ← ask read_peers
  send_all random peers
  update_commit_index
  ended true

unfoldable pub append_proposal : Text → Text → Prog ℕ
append_proposal key value = do
  term ← ask read_term
  ask (append_log_entry (record { term = term; key = key; value = value }))
  ask get_last_log_index

unfoldable pub propose_entry : (random : Text → ℕ) → Text → Text → Prog Bool
propose_entry random key value = do
  leading ← ask read_leads
  if leading then (append_proposal key value >> replicate_entry random) else ended false

unfoldable pub put : (random : Text → ℕ) → Text → Text → Prog PutResponse
put random key value = do success ← propose_entry random key value; ended (put_response success)

unfoldable pub get : Text → Prog GetResponse
get key = do value ← ask (get_value key); ended (get_response value)

unfoldable pub term_below : ℕ → Prog ℕ
term_below zero = ended 0
term_below (suc n) = do entry ← ask (get_log_entry (suc n)); ended (term_or_zero entry)

-- `getLastLogTerm`
unfoldable pub get_last_log_term : Prog ℕ
get_last_log_term = do last_index ← ask get_last_log_index; term_below last_index

unfoldable pub start_election : Prog (ℕ × ℕ)
start_election = do
  ask (write_role candidate)
  term ← ask read_term
  ask (write_term (increment term))
  ask write_vote
  last_log_index ← ask get_last_log_index
  last_log_term ← get_last_log_term
  ended (last_log_index, last_log_term)

unfoldable pub count_votes : List Joined → Prog ℕ
count_votes [] = ended 0
count_votes (completable_future ∷ votes) = failed class_cast_exception
count_votes (boxed_boolean vote ∷ votes) = do
  n ← count_votes votes
  ended (if vote then suc n else n)

unfoldable pub become_leader : Prog (Unit {0})
become_leader = do
  ask (write_role leader)
  last_index ← ask get_last_log_index
  ask (write_indices last_index)

unfoldable pub decide : ℕ → Prog (Unit {0})
decide vote_count = do
  peers ← ask read_peers
  if ltb (length peers / 2) vote_count then become_leader else ended tt

unfoldable pub tally : Prog (Unit {0})
tally = do peers ← ask read_peers; votes ← count_votes (map joined_vote peers); decide (votes + 1)

-- The election task; without peers all futures are complete at once, so that the vote is counted
-- on the same thread.
unfoldable pub leader_election_task : Prog (Unit {0})
leader_election_task = do
  leading ← ask read_leads
  if leading then ended tt else (start_election >> tally)
