-- ===== src/Server/Threads/Election.antt =====
-- The election task, when no other thread comes between.
use scalable_key_value_store.Prelude.{
  ℕ, zero, suc, ◌+◌, ◌/◌, ◌≡◌, refl, sym, ltb, length, List, [], ◌∷◌, map, if◌then◌else◌,
}
use scalable_key_value_store.Server.Java.{
  Exec, pure, gets, modify, ◌>>=◌, ◌>>◌, continue, Outcome, returns, throws,
}
use scalable_key_value_store.Server.Sql.{Engine}
use scalable_key_value_store.Server.Storage
use scalable_key_value_store.Server.Storage.{term_or_zero}
use scalable_key_value_store.Server.RaftState
use scalable_key_value_store.Server.RaftState.{candidate, leader}
use scalable_key_value_store.Server.Long.{increment}
use scalable_key_value_store.Server.Raft.{RaftNode, on_storage}
use scalable_key_value_store.Server.Election
use scalable_key_value_store.Server.Election.{
  Joined, boxed_boolean, completable_future, joined_vote,
}
use scalable_key_value_store.Server.Threads.Calls.{
  read_leads, read_term, read_peers, write_role, write_term, write_vote, write_indices,
  get_last_log_index, get_log_entry,
}
use scalable_key_value_store.Server.Threads.Programs
use scalable_key_value_store.Server.Threads.Perform.{perform, set_role, set_term, set_vote}
use scalable_key_value_store.Server.Threads.Alone.{
  Runs, Runs-ended, Runs-failed, Runs-call, Runs-ask, Runs-bind, Runs-eq, Runs-if,
}

module _ {D A B : Type 0} where
  on_continue :
      (r : Outcome A) (d : D) (f : A → Exec D B) (s : RaftNode D)
      → on_storage (λ _. continue r f d) s
        ≡ continue r (λ a. on_storage (f a)) (record s { storage = d })
  unfolding on_storage
  on_continue (returns a) d f s = refl
  on_continue (throws e) d f s = refl

  -- Two methods of the storage are two accesses.
  on_storage-bind :
      (m : Exec D A) (f : A → Exec D B) (s : RaftNode D)
      → on_storage (m >>= f) s ≡ (on_storage m >>= λ a. on_storage (f a)) s
  unfolding on_storage ◌>>=◌
  on_storage-bind m f s = on_continue (m s.storage).0 (m s.storage).1 f s

on_storage-pure : {D A : Type 0} (a : A) (s : RaftNode D) → pure a s ≡ on_storage (pure a) s
unfolding on_storage pure
on_storage-pure a s = refl

module _ {D : Type 0} (sql : Engine D) where
  term_below-Runs :
      (n : ℕ) → Runs sql (Programs.term_below n) (on_storage (Storage.last_term_at sql n))
  unfolding Programs.term_below Storage.last_term_at perform
  term_below-Runs zero = Runs-eq sql (Runs-ended sql 0) (on_storage-pure 0)
  term_below-Runs (suc n) =
      Runs-eq sql
        (Runs-call sql (get_log_entry (suc n))
          λ o. Runs-eq sql (Runs-ended sql (term_or_zero o)) (on_storage-pure (term_or_zero o)))
        λ s. sym (on_storage-bind _ _ s)

  last_term-Runs : Runs sql Programs.get_last_log_term (on_storage (Storage.get_last_log_term sql))
  unfolding Programs.get_last_log_term Storage.get_last_log_term perform
  last_term-Runs =
      Runs-eq sql (Runs-call sql get_last_log_index term_below-Runs)
        λ s. sym (on_storage-bind _ _ s)

  start-Runs : Runs sql Programs.start_election (Election.start_election sql)
  unfolding Programs.start_election Election.start_election Election.stand perform set_role set_term
      set_vote RaftState.become_candidate modify gets ◌>>=◌
  start-Runs =
      Runs-eq sql
        (Runs-call sql (write_role candidate) λ _. Runs-call sql read_term λ term.
          Runs-call sql (write_term (increment term)) λ _. Runs-call sql write_vote λ _.
            Runs-call sql get_last_log_index
              λ n. Runs-bind sql last_term-Runs λ t. Runs-ended sql (n, t))
        λ s. refl

  count-Runs :
      (votes : List Joined) → Runs sql (Programs.count_votes votes) (Election.count_votes votes)
  unfolding Programs.count_votes Election.count_votes
  count-Runs [] = Runs-ended sql 0
  count-Runs (completable_future ∷ votes) = Runs-failed sql _
  count-Runs (boxed_boolean vote ∷ votes) = Runs-bind sql (count-Runs votes) λ n. Runs-ended sql _

  become_leader-Runs : Runs sql Programs.become_leader (Election.become_leader sql)
  unfolding Programs.become_leader Election.become_leader Election.take_lead perform set_role
      RaftState.become_leader
  become_leader-Runs =
      Runs-call sql (write_role leader)
        λ _. Runs-call sql get_last_log_index λ n. Runs-ask sql (write_indices n)

  decide-Runs : (n : ℕ) → Runs sql (Programs.decide n) (Election.decide sql n)
  unfolding Programs.decide Election.decide perform
  decide-Runs n =
      Runs-call sql read_peers
        λ peers. Runs-if sql (ltb (length peers / 2) n) become_leader-Runs (Runs-ended sql tt)

  tally-Runs : Runs sql Programs.tally (Election.tally sql)
  unfolding Programs.tally Election.tally perform
  tally-Runs =
      Runs-call sql read_peers
        λ peers. Runs-bind sql (count-Runs (map joined_vote peers)) λ n. decide-Runs (n + 1)

  pub task-Runs : Runs sql Programs.leader_election_task (
      gets (λ s. RaftState.is_leader s.state) >>= λ leading.
      if leading then pure tt else (Election.start_election sql >> Election.tally sql))
  unfolding Programs.leader_election_task perform
  task-Runs =
      Runs-call sql read_leads λ leading.
        Runs-if sql leading (Runs-ended sql tt) (Runs-bind sql start-Runs λ _. tally-Runs)
