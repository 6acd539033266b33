-- ===== src/Server/Election.antt =====
pub mod NoLeader
-- raft/RaftNode.java: elections, the periodic tasks, and the vote requests.
use scalable_key_value_store.Prelude.{
  ℕ, suc, ◌+◌, ◌/◌, Bool, true, false, not, Option, none, some, List, [], ◌∷◌, ltb, length, map,
  if◌then◌else◌,
}
use scalable_key_value_store.Server.Java.{
  class_cast_exception, Outcome, returns, throws, Exec, pure, throw, gets, modify, ◌>>=◌, ◌>>◌,
}
use scalable_key_value_store.Server.Long.{signed_lt}
use scalable_key_value_store.Server.Sql.{Text, Engine}
use scalable_key_value_store.Server.Storage
use scalable_key_value_store.Server.RaftState
use scalable_key_value_store.Server.RaftState.{is_leader}
use scalable_key_value_store.Server.Raft.{
  NodeInfo, Dict, dict_put, RaftNode, on_storage, term_of, step_down,
}
use scalable_key_value_store.Server.Replication.{send_append_entries}

-- raft.proto
pub record RequestVoteRequest : Type 0 where
  pub term : ℕ
  pub candidate_id : Text
  pub last_log_index : ℕ
  pub last_log_term : ℕ

pub record RequestVoteResponse : Type 0 where
  pub term : ℕ
  pub vote_granted : Bool

-- What `join` gives for an element of `voteFutures`: the array's type is unchecked.
pub data Joined : Type 0 where
  boxed_boolean : Bool → Joined
  completable_future : Joined

-- `supplyAsync(() -> requestVote(...))`: `requestVote` returns a future, and `join` gives that
-- future, not the vote that it will hold.
abbrev pub joined_vote : Text × NodeInfo → Joined
joined_vote (id, peer) = completable_future

-- `filter(Boolean::booleanValue).count()`: each element is cast to `Boolean`
unfoldable pub count_votes : {P : Type 0} → List Joined → Exec P ℕ
count_votes [] = pure 0
count_votes (completable_future ∷ votes) = throw class_cast_exception
count_votes (boxed_boolean vote ∷ votes) = do
  n ← count_votes votes
  pure (if vote then suc n else n)

module _ {D : Type 0} where
  unfoldable pub vote_request : ℕ → ℕ → RaftNode D → RequestVoteRequest
  vote_request last_log_index last_log_term s = record {
    term = term_of s;
    candidate_id = s.node_id;
    last_log_index = last_log_index;
    last_log_term = last_log_term;
  }

  unfoldable pub receive_vote : Option RequestVoteResponse → Exec (RaftNode D) Bool
  receive_vote none = pure false
  receive_vote (some response) = do
    current_term ← gets term_of
    if signed_lt current_term response.term
        then (modify (step_down response.term) >> pure false)
        else pure response.vote_granted

  -- `requestVote`, on its thread; `ask` is the RPC, `none` if it throws, which is logged
  unfoldable pub request_vote :
      (ask : NodeInfo → RequestVoteRequest → Option RequestVoteResponse)
      → NodeInfo
      → ℕ
      → ℕ
      → Exec (RaftNode D) Bool
  request_vote ask peer last_log_index last_log_term = do
    request ← gets (vote_request last_log_index last_log_term)
    receive_vote (ask peer request)

  unfoldable pub lead_peers : ℕ → Dict NodeInfo → RaftNode D → RaftNode D
  lead_peers last_index [] s = s
  lead_peers last_index ((id, peer) ∷ peers) s = lead_peers last_index peers (record s {
    next_index = dict_put id (suc last_index) s.next_index;
    match_index = dict_put id 0 s.match_index;
  })

  unfoldable pub take_lead : RaftNode D → RaftNode D
  take_lead s = record s { state = RaftState.become_leader s.state }

  unfoldable pub stand : RaftNode D → RaftNode D
  stand s = record s { state = RaftState.become_candidate s.state; voted_for = some s.node_id }

module _ {D : Type 0} (sql : Engine D) where
  unfoldable pub become_leader : Exec (RaftNode D) (Unit {0})
  become_leader = do
    modify take_lead
    last_index ← on_storage (Storage.get_last_log_index sql)
    modify (λ s. lead_peers last_index s.peers s)

  -- `startElection`, up to the tasks that it hands out: what it asks for
  unfoldable pub start_election : Exec (RaftNode D) (ℕ × ℕ)
  start_election = do
    modify stand
    last_log_index ← on_storage (Storage.get_last_log_index sql)
    last_log_term ← on_storage (Storage.get_last_log_term sql)
    pure (last_log_index, last_log_term)

  unfoldable pub decide : ℕ → Exec (RaftNode D) (Unit {0})
  decide vote_count = do
    peers ← gets (λ s. s.peers)
    if ltb (length peers / 2) vote_count then become_leader else pure tt

  -- The stage behind `allOf(voteFutures)`. What it throws stays in a future that nobody reads.
  unfoldable pub tally : Exec (RaftNode D) (Unit {0})
  tally = do
    peers ← gets (λ s. s.peers)
    votes ← count_votes (map joined_vote peers)
    decide (votes + 1)

  unfoldable pub leader_election_task : Exec (RaftNode D) (Unit {0})
  leader_election_task = do
    leading ← gets (λ s. is_leader s.state)
    if leading then pure tt else (start_election >> pure tt)

  -- the peers that `heartbeatTask` submits a `sendAppendEntries` for
  unfoldable pub heartbeat_peers : RaftNode D → Dict NodeInfo
  heartbeat_peers s = if is_leader s.state then s.peers else []
