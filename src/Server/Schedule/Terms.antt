-- ===== src/Server/Schedule/Terms.antt =====
-- How the term of a node changes.
use scalable_key_value_store.Prelude.{
  ℕ, ◌-◌, ◌<◌, ◌^◌, ◌≡◌, ◌≢◌, refl, sym, subst, true, false, Option, none, some, List, [], ◌∷◌,
  arith, Bool-cases, inl, inr,
}
use scalable_key_value_store.Server.Java.{
  Outcome, throws, continue, ◌>>◌, Exec, pure, returns, ◌>>=◌,
}
use scalable_key_value_store.Server.Java.Laws.{Keeps, keeps_rules}
use scalable_key_value_store.Server.Long.{signed_lt, increment}
use scalable_key_value_store.Server.Sql.{Engine}
use scalable_key_value_store.Server.Storage
use scalable_key_value_store.Server.RaftState
use scalable_key_value_store.Server.RaftState.{is_leader}
use scalable_key_value_store.Server.Raft.{NodeInfo, Dict, RaftNode, on_storage, term_of, step_down}
use scalable_key_value_store.Server.Replication.{observe_term, note_match, step_back}
use scalable_key_value_store.Server.Replication.Stable.{
  IsStable, stable_rules, append_entries-Keeps, send-Keeps, propose-Keeps,
}
use scalable_key_value_store.Server.Election.{
  RequestVoteResponse, Joined, boxed_boolean, completable_future, count_votes, receive_vote, stand,
  start_election, decide, become_leader, take_lead, lead_peers, tally, leader_election_task,
}
use scalable_key_value_store.Server.Schedule.{
  Event, election_task, election_timeout, all_votes, vote, heartbeat, append, propose, step,
}

-- The term of the node is not below that one.
pub record IsFrom {D : Type 0} (low : ℕ) (s : RaftNode D) : Type 0 where
  pub not_below : signed_lt (term_of s) low ≡ false

lt_trans : (a b c : ℕ) → signed_lt a c ≡ false → signed_lt a b ≡ true → signed_lt b c ≡ false
unfolding signed_lt
lt_trans a b c h k = ground arith

lt_irrefl : (a : ℕ) → signed_lt a a ≡ false
unfolding signed_lt
lt_irrefl a = ground arith

next_term : (a : ℕ) → a < 2 ^ 64 → a ≢ 2 ^ 63 - 1 → signed_lt (increment a) a ≡ false
unfolding signed_lt increment
next_term a small other = ground arith

module _ {P A : Type 0} where
  drop_result : (r : Outcome A) (t : P) → (continue r (λ _. pure tt) t).1 ≡ t
  unfolding pure
  drop_result (returns a) t = refl
  drop_result (throws e) t = refl

  state_behind : (m : Exec P A) (s : P) → ((m >> pure tt) s).1 ≡ (m s).1
  unfolding ◌>>=◌
  state_behind m s = drop_result (m s).0 (m s).1

-- the rest of `startElection` behind its writes of the role, the term and the vote
abbrev ask_for : {D : Type 0} → Engine D → Exec (RaftNode D) (ℕ × ℕ)
ask_for sql = do
  last_log_index ← on_storage (Storage.get_last_log_index sql)
  last_log_term ← on_storage (Storage.get_last_log_term sql)
  pure (last_log_index, last_log_term)

module _ {D : Type 0} (low : ℕ) where
  observe-IsFrom : (term : ℕ) (s : RaftNode D) → IsFrom low s → IsFrom low (observe_term term s)
  unfolding observe_term step_down RaftState.become_follower
  observe-IsFrom term s h = elim (Bool-cases (signed_lt (term_of s) term)) [
    | inl newer ↦ rw newer (record { not_below = lt_trans (term_of s) term low h.not_below newer })
    | inr same ↦ rw same h
  ]

  IsFrom-IsStable : IsStable {D = D} (IsFrom low)
  unfolding note_match step_back
  IsFrom-IsStable = record {
    stores = λ s d h. record { not_below = h.not_below };
    observes = observe-IsFrom;
    resets = λ n s h. record { not_below = h.not_below };
    notes = λ id m n s h. record { not_below = h.not_below };
    backs = λ id s h. record { not_below = h.not_below };
  }

  take_lead-IsFrom : (s : RaftNode D) → IsFrom low s → IsFrom low (take_lead s)
  unfolding take_lead RaftState.become_leader
  take_lead-IsFrom s h = record { not_below = h.not_below }

  lead_peers-IsFrom :
      (last : ℕ) (peers : Dict NodeInfo) (s : RaftNode D)
      → IsFrom low s
      → IsFrom low (lead_peers last peers s)
  unfolding lead_peers
  lead_peers-IsFrom last [] s h = h
  lead_peers-IsFrom last ((id, peer) ∷ peers) s h =
      lead_peers-IsFrom last peers _ (record { not_below = h.not_below })

  count-IsFrom : (votes : List Joined) → Keeps {P = RaftNode D} (IsFrom low) (count_votes votes)
  unfolding count_votes
  count-IsFrom [] = search keeps_rules
  count-IsFrom (completable_future ∷ votes) = search keeps_rules
  count-IsFrom (boxed_boolean granted ∷ votes) =
      let ih = count-IsFrom votes in search keeps_rules depth 8

  reply-IsFrom :
      (r : Option RequestVoteResponse) (s : RaftNode D)
      → IsFrom low s
      → IsFrom low (receive_vote r s).1
  unfolding receive_vote ◌>>=◌ step_down RaftState.become_follower
  reply-IsFrom none s h = h
  reply-IsFrom (some r) s h = elim (Bool-cases (signed_lt (term_of s) r.term)) [
    | inl newer ↦
        rw newer (record { not_below = lt_trans (term_of s) r.term low h.not_below newer })
    | inr same ↦ rw same h
  ]

  module _ (sql : Engine D) where
    tally-IsFrom : Keeps (IsFrom low) (tally sql)
    unfolding tally decide become_leader
    tally-IsFrom =
        search (stable_rules, IsFrom-IsStable, take_lead-IsFrom, lead_peers-IsFrom, count-IsFrom)
          depth 14

    asks-IsFrom : Keeps (IsFrom low) (ask_for sql)
    asks-IsFrom = search (stable_rules, IsFrom-IsStable) depth 8

    stands-IsFrom :
        (s : RaftNode D)
        → signed_lt (increment (term_of s)) low ≡ false
        → IsFrom low (start_election sql s).1
    unfolding start_election stand RaftState.become_candidate ◌>>=◌
    stands-IsFrom s h = asks-IsFrom.at (stand s) (record { not_below = h })

    task-IsFrom :
        (s : RaftNode D)
        → IsFrom low s
        → signed_lt (increment (term_of s)) low ≡ false
        → IsFrom low (leader_election_task sql s).1
    unfolding leader_election_task ◌>>=◌
    task-IsFrom s h k = elim (Bool-cases (is_leader s.state)) [
      | inl leads ↦ rw leads h
      | inr follows ↦
          rw follows
            (subst (IsFrom low) (sym (state_behind (start_election sql) s)) (stands-IsFrom s k))
    ]

module _ {D : Type 0} (sql : Engine D) where
  -- No event makes the term of a node, a 64-bit word, smaller in the signed order, unless the term
  -- is the largest signed word, which the next election wraps around.
  pub step_term :
      (e : Event) (s : RaftNode D)
      → term_of s < 2 ^ 64
      → term_of s ≢ 2 ^ 63 - 1
      → signed_lt (term_of (step sql e s)) (term_of s) ≡ false
  unfolding step
  step_term e s word other = (grows e).not_below
    where
      low : ℕ
      low = term_of s

      here : IsFrom low s
      here = record { not_below = lt_irrefl low }

      grows : (f : Event) → IsFrom low (step sql f s)
      grows election_task = task-IsFrom low sql s here (next_term low word other)
      grows election_timeout = stands-IsFrom low sql s (next_term low word other)
      grows all_votes = (tally-IsFrom low sql).at s here
      grows (vote reply) = reply-IsFrom low reply s here
      grows (heartbeat delay peer) = (send-Keeps sql (IsFrom-IsStable low) delay peer).at s here
      grows (append delay id term prev prev_term entries commit) =
          (append_entries-Keeps sql (IsFrom-IsStable low) delay id term prev prev_term entries
              commit).at
            s here
      grows (propose random key value) =
          (propose-Keeps sql (IsFrom-IsStable low) random key value).at s here
