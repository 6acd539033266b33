-- ===== src/Server/Schedule/Leadership.antt =====
-- Which nodes become leaders.
use scalable_key_value_store.Prelude.{
  ℕ, ◌≡◌, refl, sym, ◌∙◌, true, false, List, [], ◌∷◌, arith, Bool-cases, inl, inr,
}
use scalable_key_value_store.Server.Java.{returns, ◌>>=◌}
use scalable_key_value_store.Server.Sql.{Text, Engine}
use scalable_key_value_store.Server.RaftState.{is_leader}
use scalable_key_value_store.Server.Raft.{
  NodeInfo, Dict, dict_put, add_peers, RaftNode, new_node, on_storage,
}
use scalable_key_value_store.Server.Replication.{propose_entry}
use scalable_key_value_store.Server.Election.{
  tally, count_votes, decide, become_leader, take_lead, lead_peers,
}
use scalable_key_value_store.Server.RaftState
use scalable_key_value_store.Server.Replication.Stable.{append_entries-Keeps, send-Keeps}
use scalable_key_value_store.Server.Election.NoLeader.{
  IsPassive, is_empty, IsPassive-IsStable, start_election-IsPassive, election_task-IsPassive,
  receive_vote-IsPassive, tally_throws, propose_passive,
}
use scalable_key_value_store.Server.Schedule.{
  Event, election_task, election_timeout, all_votes, vote, heartbeat, append, propose, step, run,
}

dict_put-is_empty : {V : Type 0} (k : Text) (v : V) (m : Dict V) → is_empty (dict_put k v m) ≡ false
unfolding dict_put
dict_put-is_empty k v [] = refl
dict_put-is_empty k v ((j, w) ∷ m) = ground arith

add_peers-is_empty :
    (ids : List Text) (m : Dict NodeInfo) → is_empty m ≡ false → is_empty (add_peers ids m) ≡ false
unfolding add_peers
add_peers-is_empty [] m h = h
add_peers-is_empty (id ∷ ids) m h = add_peers-is_empty ids _ (dict_put-is_empty id _ m)

module _ {D : Type 0} (sql : Engine D) where
  step-IsPassive : (e : Event) (s : RaftNode D) → IsPassive s → IsPassive (step sql e s)
  unfolding step
  step-IsPassive election_task s h = (election_task-IsPassive sql).at s h
  step-IsPassive election_timeout s h = (start_election-IsPassive sql).at s h
  step-IsPassive all_votes s h = rw (tally_throws sql s h, step) h
  step-IsPassive (vote reply) s h = (receive_vote-IsPassive sql reply).at s h
  step-IsPassive (heartbeat delay peer) s h = (send-Keeps sql IsPassive-IsStable delay peer).at s h
  step-IsPassive (append delay id term prev prev_term entries commit) s h =
      (append_entries-Keeps sql IsPassive-IsStable delay id term prev prev_term entries commit).at s
        h
  step-IsPassive (propose random key value) s h =
      rw (propose_passive sql random key value s h, step) h

  run-IsPassive : (es : List Event) (s : RaftNode D) → IsPassive s → IsPassive (run sql es s)
  unfolding run
  run-IsPassive [] s h = h
  run-IsPassive (e ∷ es) s h = run-IsPassive es (step sql e s) (step-IsPassive e s h)

  new_node-IsPassive :
      (node_id id : Text) (ids : List Text) (storage : D)
      → IsPassive (new_node node_id (id ∷ ids) storage)
  unfolding new_node add_peers is_leader
  new_node-IsPassive node_id id ids storage = record {
    not_leader = refl;
    has_peer = add_peers-is_empty ids _ (dict_put-is_empty id _ []);
  }

  lead_alone :
      (peers : Dict NodeInfo) (s : RaftNode D)
      → s.peers ≡ peers
      → is_empty peers ≡ true
      → is_leader (tally sql s).1.state ≡ true
  unfolding tally count_votes decide become_leader take_lead RaftState.become_leader is_leader
      lead_peers on_storage ◌>>=◌
  lead_alone [] s e h = ground arith
  lead_alone (p ∷ ps) s e h = absurd (cc)

  -- Of nodes that do not lead, the vote count makes those leaders that have no peer, and no other.
  tally_leads :
      (s : RaftNode D)
      → is_leader s.state ≡ false
      → is_leader (tally sql s).1.state ≡ is_empty s.peers
  tally_leads s h = elim (Bool-cases (is_empty s.peers)) [
    | inl alone ↦ lead_alone s.peers s refl alone ∙ sym alone
    | inr peered ↦
        rw (tally_throws sql s (record { not_leader = h; has_peer = peered })) (h ∙ sym peered)
  ]

  -- A node that is configured with a peer never becomes the leader, whatever happens to it and in
  -- whatever order: the votes are cast to a type that they do not have. So it refuses every
  -- proposal, and a proposal changes nothing.
  pub never_leads :
      (node_id id : Text) (ids : List Text) (storage : D) (events : List Event) (random : Text → ℕ)
      (key value : Text)
      → let s = run sql events (new_node node_id (id ∷ ids) storage) in
        (is_leader s.state ≡ false) × (propose_entry sql random key value s ≡ (returns false, s))
  never_leads node_id id ids storage events random key value =
      let h = run-IsPassive events _ (new_node-IsPassive node_id id ids storage) in
      (h.not_leader, propose_passive sql random key value _ h)
