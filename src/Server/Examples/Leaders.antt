-- ===== src/Server/Examples/Leaders.antt =====
-- Which servers lead, and what they answer to clients, on the sample database.
use scalable_key_value_store.Server.Schedule.Sound.{begin, next, IsHarmless, Reaches-IsSound}
use scalable_key_value_store.Server.Replication.Sound.{IsSound}
use scalable_key_value_store.Server.Replication.Spec.{reconcile, KeepsCommitted}
use scalable_key_value_store.Prelude.{subst, refl}
use scalable_key_value_store.Server.Java.{◌>>◌}
use scalable_key_value_store.Server.Election.{leader_election_task}
use scalable_key_value_store.Server.Service.Start.{start_serves-Ends}
use scalable_key_value_store.Prelude.{◌≢◌, ◌<◌, ◌^◌, ◌-◌}
use scalable_key_value_store.Server.Long.{signed_lt}
use scalable_key_value_store.Server.Raft.{term_of}
use scalable_key_value_store.Server.Schedule.{step}
use scalable_key_value_store.Server.Schedule.Terms.{step_term}
use scalable_key_value_store.Prelude.{arith}
use scalable_key_value_store.Prelude.{
  ◌≡◌, refl, true, false, none, some, List, [], ◌∷◌, ◌++◌, arith,
}
use scalable_key_value_store.Server.Java.{returns}
use scalable_key_value_store.Server.Java.Laws.{Ends}
use scalable_key_value_store.Server.RaftState.{is_leader}
use scalable_key_value_store.Server.Raft.{RaftNode, new_node}
use scalable_key_value_store.Server.Storage.Sqlite.{Tables}
use scalable_key_value_store.Server.Storage.Refines.{encode_inj, encode}
use scalable_key_value_store.Server.Replication.{propose_entry}
use scalable_key_value_store.Server.Replication.Frame.{IsAt}
use scalable_key_value_store.Server.Election.{tally}
use scalable_key_value_store.Server.Schedule.{
  Event, election_task, election_timeout, all_votes, append, run,
}
use scalable_key_value_store.Server.Schedule.Leadership.{never_leads}
use scalable_key_value_store.Server.RaftState.{leader}
use scalable_key_value_store.Server.Java.{◌>>=◌}
use scalable_key_value_store.Server.Service
use scalable_key_value_store.Server.Service.{put_response}
use scalable_key_value_store.Server.Service.Alone.{committed, put_alone-Ends, put_then_get-Ends}
use scalable_key_value_store.Server.Config.{
  comma, Properties, ServerConfig, new_config, config_with, split, pieces, prepend, trim,
  keep_piece, configured_node,
}
use scalable_key_value_store.Server.Config.Peers.{lists_no_peer, configured_refuses}
use scalable_key_value_store.Server.Examples.Database.{
  sample_store-IsConsistent, database, contents, database-IsSqlite, key_a, key_b, sample_store,
  sample_node, sent,
}

abbrev some_events : List Event
some_events =
    election_task ∷ all_votes ∷ append 7 key_b 3 1 1 sent 3 ∷ election_timeout ∷ all_votes ∷ []

never_leads_example :
    let s = run database some_events (new_node key_a (key_b ∷ []) (encode sample_store)) in
    (is_leader s.state ≡ false)
    × (propose_entry database (λ id. 7) key_a key_b s ≡ (returns false, s))
never_leads_example =
    never_leads database key_a key_b [] (encode sample_store) some_events (λ id. 7) key_a key_b

two_peers : lists_no_peer (key_b ++ comma ∷ key_a) ≡ false
two_peers = refl

abbrev sample_properties : Properties
sample_properties = record {
  node_id = some key_a;
  peers = some (key_b ++ comma ∷ key_a);
  storage_path = some key_a;
}

abbrev sample_config : ServerConfig
sample_config = record {
  node_id = some key_a;
  peers = key_b ∷ key_a ∷ [];
  storage_path = some key_a;
}

configured : new_config sample_properties ≡ returns sample_config
unfolding new_config config_with split pieces prepend trim keep_piece
configured = refl

configured_refuses_example :
    let s = run database some_events (configured_node key_a sample_config (encode sample_store)) in
    Service.put database (λ id. 7) key_a key_b s ≡ (returns (put_response false), s)
configured_refuses_example =
    configured_refuses database sample_properties (key_b ++ comma ∷ key_a) key_a sample_config
      (encode sample_store) some_events (λ id. 7) key_a key_b refl two_peers configured

abbrev alone_node : RaftNode Tables
alone_node = record sample_node {
  peers = [];
  storage = encode sample_store;
  state = record { current_role = leader; current_term = 2; voted_for = none };
}

alone_leads : is_leader alone_node.state ≡ true
unfolding is_leader
alone_leads = refl

put_alone-Ends_example : Ends (Service.put database (λ id. 7) key_b key_a) alone_node (λ r u.
    (r ≡ put_response true)
    × IsAt contents alone_node
        (committed sample_store (record { term = 2; key = key_b; value = key_a }))
        u)
put_alone-Ends_example =
    put_alone-Ends database contents database-IsSqlite (λ id. 7) key_b key_a alone_node sample_store
      refl alone_leads refl sample_store-IsConsistent

put_then_get-Ends_example :
    Ends
      (Service.put database (λ id. 7) key_b key_a >>= λ _. Service.get database key_b)
      alone_node
      (λ r u. r ≡ record { value = key_a; found = true })
put_then_get-Ends_example =
    put_then_get-Ends database contents database-IsSqlite (λ id. 7) key_b key_a alone_node
      sample_store refl alone_leads refl sample_store-IsConsistent

small_term : term_of sample_node < 2 ^ 64
small_term = omega arith

not_last_term : term_of sample_node ≢ 2 ^ 63 - 1
not_last_term = omega arith

step_term_example :
    signed_lt (term_of (step database election_timeout sample_node)) (term_of sample_node) ≡ false
step_term_example = step_term database election_timeout sample_node small_term not_last_term

start_serves-Ends_example :
    Ends
      ((leader_election_task database >> tally database)
        >> (Service.put database (λ id. 7) key_b key_a >>= λ _. Service.get database key_b))
      (new_node key_a [] (encode sample_store))
      (λ r u. r ≡ record { value = key_a; found = true })
start_serves-Ends_example =
    start_serves-Ends database contents database-IsSqlite sample_store key_a (encode sample_store)
      (λ id. 7) key_b key_a refl sample_store-IsConsistent

sample-IsSound : IsSound database contents database-IsSqlite sample_node
sample-IsSound = record {
  store = sample_store;
  held = refl;
  consistent = sample_store-IsConsistent;
}

sent_keeps : KeepsCommitted sample_store 1 sent
unfolding reconcile
sent_keeps = refl

sent-IsHarmless :
    IsHarmless database contents database-IsSqlite (append 7 key_b 3 1 1 sent 3) sample_node
sent-IsHarmless a held =
    subst (λ b. KeepsCommitted b 1 sent) (encode_inj sample_store a held) sent_keeps

Reaches-IsSound_example :
    IsSound database contents database-IsSqlite
      (step database election_timeout (step database (append 7 key_b 3 1 1 sent 3) sample_node))
Reaches-IsSound_example =
    Reaches-IsSound database contents database-IsSqlite
      (next _ election_timeout
        (next sample_node (append 7 key_b 3 1 1 sent 3) begin sent-IsHarmless) tt)
      sample-IsSound
