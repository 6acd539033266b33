-- ===== src/Server/Threads/Requests.antt =====
-- What a request does when no other thread comes between.
use scalable_key_value_store.Prelude.{◌≡◌, if◌then◌else◌}
use scalable_key_value_store.Server.Java.{Exec, pure, gets, ◌>>=◌, ◌>>◌}
use scalable_key_value_store.Server.Sql.{Engine}
use scalable_key_value_store.Server.RaftState.{is_leader}
use scalable_key_value_store.Server.Raft.{RaftNode}
use scalable_key_value_store.Server.Election.{start_election, tally}
use scalable_key_value_store.Server.Service
use scalable_key_value_store.Server.Threads.Perform.{alone}
use scalable_key_value_store.Server.Threads.Pool.{
  Request, put_request, get_request, election_request, Reply, put_reply, get_reply, no_reply,
  program,
}
use scalable_key_value_store.Server.Threads.Alone.{Runs, Runs-bind, Runs-ended, put-Runs, get-Runs}
use scalable_key_value_store.Server.Threads.Election.{task-Runs}

module _ {D : Type 0} (sql : Engine D) where
  -- the methods of the service and of the node, each as one step
  abbrev pub whole : Request → Exec (RaftNode D) Reply
  whole (put_request random key value) =
      Service.put sql random key value >>= λ r. pure (put_reply r)
  whole (get_request key) = Service.get sql key >>= λ r. pure (get_reply r)
  whole election_request =
      (gets (λ s. is_leader s.state) >>= λ leading.
      if leading then pure tt else (start_election sql >> tally sql))
      >>= λ _. pure no_reply

  program-Runs : (r : Request) → Runs sql (program r) (whole r)
  unfolding program
  program-Runs (put_request random key value) =
      Runs-bind sql (put-Runs sql random key value) λ r. Runs-ended sql (put_reply r)
  program-Runs (get_request key) =
      Runs-bind sql (get-Runs sql key) λ r. Runs-ended sql (get_reply r)
  program-Runs election_request = Runs-bind sql (task-Runs sql) λ _. Runs-ended sql no_reply

  -- The accesses of a PUT, of a GET or of an election task, one after the other and with none of
  -- another thread in between, give the reply and the node that the methods give.
  pub alone-program : (r : Request) (s : RaftNode D) → alone sql (program r) s ≡ whole r s
  alone-program r s = (program-Runs r).at s
