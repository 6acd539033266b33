-- ===== src/Server/Threads/Task.antt =====
-- The election task asks only for what a thread may ask for.
use scalable_key_value_store.Prelude.{
  ℕ, zero, suc, ◌+◌, ◌/◌, ◌≡◌, sym, subst, [], ltb, length, map, arith,
}
use scalable_key_value_store.Server.Raft.{NodeInfo, Dict}
use scalable_key_value_store.Server.Election.{joined_vote}
use scalable_key_value_store.Server.Threads.Programs.{
  term_below, get_last_log_term, start_election, count_votes, become_leader, decide, tally,
  leader_election_task,
}
use scalable_key_value_store.Server.Threads.Guard.{Log, IsSafe, IsSafe-bind}
use scalable_key_value_store.Server.Threads.Safe.{Any, if-IsSafe}

term_below-IsSafe : (n : ℕ) (l : Log) → IsSafe Any (term_below n) l
unfolding term_below IsSafe
term_below-IsSafe zero l = tt
term_below-IsSafe (suc n) l = λ now e. (omega arith, λ o after e' told. tt)

start-IsSafe : (l : Log) → IsSafe Any start_election l
unfolding start_election get_last_log_term IsSafe
start-IsSafe l now e = (
  tt,
  λ _ l1 e1 _ l2 e2. (
    tt,
    λ term l3 e3 _ l4 e4. (
      tt,
      λ _ l5 e5 _ l6 e6. (
        tt,
        λ _ l7 e7 _ l8 e8. (
          tt,
          λ last l9 e9 _.
              IsSafe-bind Any Any get_last_log_term _ l9
                (λ l10 e10. (tt, λ n l11 e11 _. term_below-IsSafe n l11)) λ t l12 e12 _. tt,
        ),
      ),
    ),
  ),
)

no_votes-IsSafe :
    (peers : Dict NodeInfo) (l : Log)
    → peers ≡ []
    → IsSafe Any (count_votes (map joined_vote peers)) l
unfolding count_votes
no_votes-IsSafe peers l none_there =
    subst (λ ps. IsSafe Any (count_votes (map joined_vote ps)) l) (sym none_there)
      (unfold IsSafe in tt)

decide-IsSafe : (n : ℕ) (l : Log) → IsSafe Any (decide n) l
unfolding decide become_leader IsSafe
decide-IsSafe n l now e = (
  tt,
  λ peers l1 e1 _.
      if-IsSafe Any (ltb (length peers / 2) n) _ _ l1
        (λ l2 e2. (tt, λ _ l3 e3 _ l4 e4. (tt, λ last l5 e5 _ l6 e6. (tt, λ _ l7 e7 _. tt)))) tt,
)

tally-IsSafe : (l : Log) → IsSafe Any tally l
unfolding tally IsSafe
tally-IsSafe l now e = (
  tt,
  λ peers l1 e1 none_there.
      IsSafe-bind Any Any (count_votes (map joined_vote peers)) _ l1
        (no_votes-IsSafe peers l1 none_there) λ n l2 e2 _. decide-IsSafe (n + 1) l2,
)

pub task-IsSafe : (l : Log) → IsSafe Any leader_election_task l
unfolding leader_election_task
task-IsSafe l =
    unfold IsSafe in
    λ now e. (
      tt,
      λ leading l1 e1 _.
          if-IsSafe Any leading _ _ l1 tt (
            IsSafe-bind Any Any start_election _ l1 (start-IsSafe l1) λ _ l2 e2 _. tally-IsSafe l2),
    )
