-- ===== src/Server/Schedule.antt =====
-- What may happen to a node, in any order: its periodic tasks, the tasks that an election hands
-- out, the calls of other threads. Each is one method of raft/RaftNode.java, run to its end.
pub mod Leadership
pub mod Terms
pub mod Sound
use scalable_key_value_store.Prelude.{ℕ, Option, List, [], ◌∷◌}
use scalable_key_value_store.Server.Sql.{Text, LogEntry, Engine}
use scalable_key_value_store.Server.Raft.{NodeInfo, RaftNode}
use scalable_key_value_store.Server.Replication.{append_entries, send_append_entries, propose_entry}
use scalable_key_value_store.Server.Election.{
  RequestVoteResponse, leader_election_task, start_election, tally, receive_vote,
}

pub data Event : Type 0 where
  -- the task of `start`, every 150 milliseconds
  election_task : Event
  -- the timer that `resetElectionTimer` schedules
  election_timeout : Event
  -- all futures of an election are complete
  all_votes : Event
  -- the reply to one vote request, or its failure
  vote : Option RequestVoteResponse → Event
  -- a task that `heartbeatTask` submitted, with its random delay
  heartbeat : ℕ → NodeInfo → Event
  append : ℕ → Text → ℕ → ℕ → ℕ → List LogEntry → ℕ → Event
  propose : (Text → ℕ) → Text → Text → Event

module _ {D : Type 0} (sql : Engine D) where
  -- A method that throws leaves the state that it had reached.
  unfoldable pub step : Event → RaftNode D → RaftNode D
  step election_task s = (leader_election_task sql s).1
  step election_timeout s = (start_election sql s).1
  step all_votes s = (tally sql s).1
  step (vote reply) s = (receive_vote reply s).1
  step (heartbeat delay peer) s = (send_append_entries sql delay peer s).1
  step (append delay id term prev prev_term entries commit) s =
      (append_entries sql delay id term prev prev_term entries commit s).1
  step (propose random key value) s = (propose_entry sql random key value s).1

  unfoldable pub run : List Event → RaftNode D → RaftNode D
  run [] s = s
  run (e ∷ es) s = run es (step e s)
