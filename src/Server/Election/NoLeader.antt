-- ===== src/Server/Election/NoLeader.antt =====
-- Whether a node can win an election.
use scalable_key_value_store.Prelude.{
  ℕ, ◌+◌, ◌≡◌, refl, Bool, true, false, Option, none, some, List, [], ◌∷◌, arith, map,
}
use scalable_key_value_store.Server.Java.{class_cast_exception, returns, throws, ◌>>=◌}
use scalable_key_value_store.Server.Java.Laws.{Keeps}
use scalable_key_value_store.Server.Sql.{Text, Engine}
use scalable_key_value_store.Server.RaftState
use scalable_key_value_store.Server.RaftState.{Role, leader, is_leader}
use scalable_key_value_store.Server.Raft.{NodeInfo, Dict, RaftNode, step_down}
use scalable_key_value_store.Server.Replication.{observe_term, note_match, step_back, propose_entry}
use scalable_key_value_store.Server.Replication.Stable.{IsStable, stable_rules}
use scalable_key_value_store.Server.Election.{
  joined_vote, count_votes, receive_vote, RequestVoteResponse, start_election, tally, decide, stand,
  leader_election_task,
}

abbrev pub is_empty : {A : Type 0} → List A → Bool
is_empty [] = true
is_empty (x ∷ xs) = false

-- A node that does not lead, and that has a peer.
pub record IsPassive {D : Type 0} (s : RaftNode D) : Type 0 where
  pub not_leader : is_leader s.state ≡ false
  pub has_peer : is_empty s.peers ≡ false

module _ {D : Type 0} where
  observe_term-IsPassive :
      (term : ℕ) (s : RaftNode D) → IsPassive s → IsPassive (observe_term term s)
  unfolding observe_term step_down RaftState.become_follower is_leader
  observe_term-IsPassive term s h = ground arith

  step_down-IsPassive : (term : ℕ) (s : RaftNode D) → IsPassive s → IsPassive (step_down term s)
  unfolding step_down RaftState.become_follower is_leader
  step_down-IsPassive term s h = ground arith

  stand-IsPassive : (s : RaftNode D) → IsPassive s → IsPassive (stand s)
  unfolding stand RaftState.become_candidate is_leader
  stand-IsPassive s h = ground arith

  step_back-IsPassive : (id : Text) (s : RaftNode D) → IsPassive s → IsPassive (step_back id s)
  unfolding step_back
  step_back-IsPassive id s h = ground arith

  note_match-IsPassive :
      (id : Text) (m n : ℕ) (s : RaftNode D) → IsPassive s → IsPassive (note_match id m n s)
  unfolding note_match
  note_match-IsPassive id m n s h = ground arith

  pub IsPassive-IsStable : IsStable {D = D} IsPassive
  IsPassive-IsStable = record {
    stores = λ s d h. record { not_leader = h.not_leader; has_peer = h.has_peer };
    observes = observe_term-IsPassive;
    resets = λ n s h. record { not_leader = h.not_leader; has_peer = h.has_peer };
    notes = note_match-IsPassive;
    backs = step_back-IsPassive;
  }

module _ {D : Type 0} (sql : Engine D) where
  pub start_election-IsPassive : Keeps IsPassive (start_election sql)
  unfolding start_election
  start_election-IsPassive = search (stable_rules, IsPassive-IsStable, stand-IsPassive) depth 10

  pub election_task-IsPassive : Keeps IsPassive (leader_election_task sql)
  unfolding leader_election_task
  election_task-IsPassive = search (stable_rules, start_election-IsPassive) depth 10

  pub receive_vote-IsPassive :
      (r : Option RequestVoteResponse) → Keeps {P = RaftNode D} IsPassive (receive_vote r)
  unfolding receive_vote
  receive_vote-IsPassive none = search (stable_rules)
  receive_vote-IsPassive (some r) = search (stable_rules, step_down-IsPassive) depth 10

  -- With a peer the cast of the first vote throws, and the stage does nothing.
  tally_peers :
      (peers : Dict NodeInfo) (s : RaftNode D)
      → is_empty peers ≡ false
      → (count_votes (map joined_vote peers) >>= λ votes. decide sql (votes + 1)) s
        ≡ (throws class_cast_exception, s)
  unfolding count_votes ◌>>=◌
  tally_peers [] s h = absurd (cc)
  tally_peers ((id, peer) ∷ peers) s h = refl

  pub tally_throws : (s : RaftNode D) → IsPassive s → tally sql s ≡ (throws class_cast_exception, s)
  unfolding tally ◌>>=◌
  tally_throws s h = tally_peers s.peers s h.has_peer

  pub propose_passive :
      (random : Text → ℕ) (key value : Text) (s : RaftNode D)
      → IsPassive s
      → propose_entry sql random key value s ≡ (returns false, s)
  unfolding propose_entry ◌>>=◌
  propose_passive random key value s h = rw (h.not_leader, propose_entry)
