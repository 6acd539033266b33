-- ===== src/Server/Examples/Threads.antt =====
-- Two PUTs and a GET that interleave on a leader without peers.
use scalable_key_value_store.Server.Threads.Lost.{lost, lost-Ends}
use scalable_key_value_store.Server.Threads.Programs.{update_commit_index}
use scalable_key_value_store.Server.Service.Alone.{proposal}
use scalable_key_value_store.Server.Service.{put, put_response}
use scalable_key_value_store.Server.Java.{pure, ◌>>=◌}
use scalable_key_value_store.Prelude.{take, true, arith, ◌≡◌, refl, none, List, [], ◌∷◌, All}
use scalable_key_value_store.Server.RaftState.{is_leader, leader}
use scalable_key_value_store.Server.Raft.{RaftNode}
use scalable_key_value_store.Server.Storage.Sqlite.{Tables}
use scalable_key_value_store.Server.Storage.Refines.{Store, encode}
use scalable_key_value_store.Server.Threads.Perform.{goes, alone}
use scalable_key_value_store.Server.Threads.Pool.{
  Request, put_request, get_request, election_request, program, Move, arrives, moves, move,
  interleave,
}
use scalable_key_value_store.Server.Threads.Guard.{Extends}
use scalable_key_value_store.Server.Threads.Orderly.{IsOrdered}
use scalable_key_value_store.Server.Threads.Answers.{
  HasAnswer, idle, interleave-IsOrdered, interleave-HasAnswer,
}
use scalable_key_value_store.Server.Java.Laws.{Ends}
use scalable_key_value_store.Server.Replication.Spec.{IsConsistent, apply_entries, empty_values}
use scalable_key_value_store.Server.Threads.Session.{IsServing, serve, map_serve, serve-IsServing}
use scalable_key_value_store.Server.Threads.Finish.{Finishes, thread-Finishes}
use scalable_key_value_store.Server.Examples.Database.{
  entry, sample_log, database, contents, database-IsSqlite, key_a, key_b, sample_store,
  sample_store-IsConsistent, sample_node,
}

abbrev lone_node : RaftNode Tables
lone_node = record sample_node {
  peers = [];
  state = record { current_role = leader; current_term = 2; voted_for = none };
}

abbrev first_put : Request
first_put = put_request (λ id. 7) key_a key_b

abbrev second_put : Request
second_put = put_request (λ id. 7) key_a key_a

-- The second PUT appends its entry before the first reads the end of the log.
abbrev schedule : List Move
schedule =
    arrives first_put
    ∷ moves 0
    ∷ moves 0
    ∷ moves 0
    ∷ arrives second_put
    ∷ moves 0
    ∷ moves 0
    ∷ moves 0
    ∷ moves 1
    ∷ moves 1
    ∷ arrives (get_request key_a)
    ∷ moves 0
    ∷ arrives election_request
    ∷ moves 0
    ∷ moves 3
    ∷ moves 2
    ∷ []

interleave-IsOrdered_example :
    (b : Store) × (contents (interleave database schedule (idle lone_node)).node.storage ≡ encode b)
    × Extends sample_store.log b.log
    × IsOrdered b
interleave-IsOrdered_example =
    interleave-IsOrdered database contents database-IsSqlite lone_node sample_store refl refl
      sample_store-IsConsistent schedule

interleave-HasAnswer_example :
    (b : Store) × (contents (interleave database schedule (idle lone_node)).node.storage ≡ encode b)
    × All (HasAnswer b.log) (interleave database schedule (idle lone_node)).threads
interleave-HasAnswer_example =
    interleave-HasAnswer database contents database-IsSqlite lone_node sample_store refl refl
      sample_store-IsConsistent schedule

abbrev two_arrived : List Move
two_arrived = arrives first_put ∷ arrives second_put ∷ []

thread-Finishes_example :
    Finishes database contents (interleave database two_arrived (idle lone_node)) 1 first_put
unfolding interleave move
thread-Finishes_example =
    thread-Finishes database contents database-IsSqlite lone_node sample_store two_arrived 1
      first_put (program first_put) refl refl sample_store-IsConsistent refl

-- All entries are committed and applied.
abbrev applied_store : Store
applied_store = record {
  log = sample_log;
  commit_index = 3;
  last_applied = 3;
  key_values = apply_entries sample_log empty_values;
}

applied_store-IsConsistent : IsConsistent applied_store
applied_store-IsConsistent = record {
  applied = omega arith;
  committed = omega arith;
  replayed = refl;
}

abbrev applied_node : RaftNode Tables
applied_node = record lone_node { storage = encode applied_store }

lone_leads : is_leader applied_node.state ≡ true
unfolding is_leader
lone_leads = refl

applied_node-IsServing :
    IsServing database contents database-IsSqlite applied_node applied_store.key_values
applied_node-IsServing = record {
  store = applied_store;
  held = refl;
  no_peers = refl;
  leads = lone_leads;
  consistent = applied_store-IsConsistent;
  applied = refl;
  values = refl;
}

abbrev requests : List Request
requests = get_request key_b ∷ first_put ∷ election_request ∷ second_put ∷ get_request key_a ∷ []

serve-IsServing_example : Ends (serve database requests) applied_node (λ xs u.
    (xs ≡ (map_serve requests applied_store.key_values).0)
    × IsServing database contents database-IsSqlite u
        (map_serve requests applied_store.key_values).1)
serve-IsServing_example =
    serve-IsServing database contents database-IsSqlite requests applied_node
      applied_store.key_values applied_node-IsServing

-- The last entry, of the current term, is not committed.
abbrev behind_store : Store
behind_store = record applied_store {
  commit_index = 2;
  last_applied = 2;
  key_values = apply_entries (take 2 sample_log) empty_values;
}

behind_store-IsConsistent : IsConsistent behind_store
behind_store-IsConsistent = record {
  applied = omega arith;
  committed = omega arith;
  replayed = refl;
}

abbrev behind_node : RaftNode Tables
behind_node = record lone_node { storage = encode behind_store }

behind_leads : is_leader behind_node.state ≡ true
unfolding is_leader
behind_leads = refl

lost-Ends_example :
    Ends
      (goes database 5 update_commit_index >>= λ p.
        put database (λ id. 7) key_b key_a >>= λ r. alone database p >>= λ _. pure r)
      behind_node
      (λ r u.
        (r ≡ put_response true)
        × (contents u.storage ≡ encode (lost behind_store (proposal behind_node key_b key_a))))
lost-Ends_example =
    lost-Ends database contents database-IsSqlite behind_node behind_store (take 2 sample_log)
      (entry 2 key_a) refl refl refl refl (λ id. 7) key_b key_a refl behind_leads
      behind_store-IsConsistent
