-- ===== src/Server/Schedule/Sound.antt =====
-- The storage of a node over all events, on a connection on which no statement fails.
use scalable_key_value_store.Prelude.{ℕ, ◌≡◌, Option, none, some, List, [], ◌∷◌, length}
use scalable_key_value_store.Server.Java.{modify}
use scalable_key_value_store.Server.Java.Laws.{Keeps, Keeps-modify, keeps_rules}
use scalable_key_value_store.Server.Java.Leaves.{Leaves-either}
use scalable_key_value_store.Server.Sql.{Engine}
use scalable_key_value_store.Server.Raft.{NodeInfo, Dict, RaftNode, on_storage, step_down}
use scalable_key_value_store.Server.Storage
use scalable_key_value_store.Server.Storage.Sqlite.{Tables, IsSqlite}
use scalable_key_value_store.Server.Storage.Refines.{
  Store, encode, get_last_log_index-Ends, get_last_log_term-Ends,
}
use scalable_key_value_store.Server.Replication.Spec.{KeepsCommitted}
use scalable_key_value_store.Server.Replication.Sound.{
  IsSound, reads-IsSound, append_entries-Leaves, send-IsSound, propose-IsSound,
}
use scalable_key_value_store.Server.Election.{
  RequestVoteResponse, Joined, boxed_boolean, completable_future, count_votes, receive_vote, stand,
  start_election, decide, become_leader, take_lead, lead_peers, tally, leader_election_task,
}
use scalable_key_value_store.Server.Schedule.{
  Event, election_task, election_timeout, all_votes, vote, heartbeat, append, propose, step,
}

module _ {D : Type 0} (sql : Engine D) (tables : D → Tables) (laws : IsSqlite sql tables) where
  abbrev Sound : RaftNode D → Type 0
  Sound = IsSound sql tables laws

  last_index-Sound : Keeps Sound (on_storage (Storage.get_last_log_index sql))
  last_index-Sound =
      reads-IsSound sql tables laws {R = λ a n. n ≡ length a.log} _
        (get_last_log_index-Ends sql tables laws)

  last_term-Sound : Keeps Sound (on_storage (Storage.get_last_log_term sql))
  last_term-Sound =
      reads-IsSound sql tables laws {R = λ a n. Unit {0}} _ (get_last_log_term-Ends sql tables laws)

  stand-Sound : Keeps Sound (modify stand)
  unfolding stand
  stand-Sound =
      Keeps-modify _ λ s h. record { store = h.store; held = h.held; consistent = h.consistent }

  take_lead-Sound : Keeps Sound (modify take_lead)
  unfolding take_lead
  take_lead-Sound =
      Keeps-modify _ λ s h. record { store = h.store; held = h.held; consistent = h.consistent }

  step_down-Sound : (term : ℕ) → Keeps Sound (modify (step_down term))
  unfolding step_down
  step_down-Sound term =
      Keeps-modify _ λ s h. record { store = h.store; held = h.held; consistent = h.consistent }

  lead_peers-Sound :
      (last : ℕ) (peers : Dict NodeInfo) (s : RaftNode D)
      → Sound s
      → Sound (lead_peers last peers s)
  unfolding lead_peers
  lead_peers-Sound last [] s h = h
  lead_peers-Sound last ((id, peer) ∷ peers) s h =
      lead_peers-Sound last peers _
        (record { store = h.store; held = h.held; consistent = h.consistent })

  count-Sound : (votes : List Joined) → Keeps Sound (count_votes votes)
  unfolding count_votes
  count-Sound [] = search keeps_rules
  count-Sound (completable_future ∷ votes) = search keeps_rules
  count-Sound (boxed_boolean granted ∷ votes) =
      let ih = count-Sound votes in search keeps_rules depth 8

  election-Sound : Keeps Sound (start_election sql)
  unfolding start_election
  election-Sound = search (keeps_rules, stand-Sound, last_index-Sound, last_term-Sound) depth 8

  task-Sound : Keeps Sound (leader_election_task sql)
  unfolding leader_election_task
  task-Sound = search (keeps_rules, election-Sound) depth 8

  tally-Sound : Keeps Sound (tally sql)
  unfolding tally decide become_leader
  tally-Sound =
      search (keeps_rules, count-Sound, take_lead-Sound, last_index-Sound, lead_peers-Sound) depth
        14

  vote-Sound : (r : Option RequestVoteResponse) → Keeps Sound (receive_vote r)
  unfolding receive_vote
  vote-Sound none = search keeps_rules
  vote-Sound (some r) = search (keeps_rules, step_down-Sound) depth 8

  -- An RPC from elsewhere leaves the committed entries of the node in place.
  abbrev pub IsHarmless : Event → RaftNode D → Type 0
  IsHarmless (append delay id term prev prev_term es commit) s =
      (a : Store) → tables s.storage ≡ encode a → KeepsCommitted a prev es
  IsHarmless e s = Unit {0}

  -- No event breaks the storage, whether its method returns or throws.
  step-IsSound : (e : Event) (s : RaftNode D) → IsHarmless e s → Sound s → Sound (step sql e s)
  unfolding step
  step-IsSound election_task s safe h = task-Sound.at s h
  step-IsSound election_timeout s safe h = election-Sound.at s h
  step-IsSound all_votes s safe h = tally-Sound.at s h
  step-IsSound (vote reply) s safe h = (vote-Sound reply).at s h
  step-IsSound (heartbeat delay peer) s safe h = (send-IsSound sql tables laws delay peer).at s h
  step-IsSound (append delay id term prev prev_term es commit) s safe h = Leaves-either (
      append_entries-Leaves sql tables laws delay id term prev prev_term es commit s h.store h.held
        h.consistent (safe h.store h.held))
  step-IsSound (propose random key value) s safe h =
      (propose-IsSound sql tables laws random key value).at s h

  -- The states that a node reaches by harmless events.
  pub data Reaches (start : RaftNode D) : RaftNode D → Type 0 where
    begin : Reaches start start
    next :
        (s : RaftNode D) (e : Event)
        → Reaches start s
        → IsHarmless e s
        → Reaches start (step sql e s)

  -- In every state that a node reaches, the storage holds a log without gaps, the counters are in
  -- order, and the table of keys is what the applied entries write, if this held at the start and
  -- the entries of no RPC replace committed ones; the connection is one on which no statement
  -- fails.
  pub Reaches-IsSound :
      {s t : RaftNode D} → Reaches s t → IsSound sql tables laws s → IsSound sql tables laws t
  Reaches-IsSound begin h = h
  Reaches-IsSound (next s e before safe) h = step-IsSound e s safe (Reaches-IsSound before h)
