-- ===== src/Server/Process.antt =====
-- server/KVStoreServer.java: the constructor, start and stop, and what main does with them.
pub mod Port
pub mod Refusal
use scalable_key_value_store.Prelude.{ℕ, ℤ, Option, none, some, List, [], ◌∷◌, get_elem?}
use scalable_key_value_store.Server.Java.{
  array_index_out_of_bounds_exception, runtime_exception, Outcome, returns, throws, Exec, pure,
  throw, non_null, ◌>>=◌, ◌>>◌,
}
use scalable_key_value_store.Server.Sql.{Text, Sql, done, sql_exception, Engine}
use scalable_key_value_store.Server.Storage
use scalable_key_value_store.Server.Raft.{RaftNode, on_storage}
use scalable_key_value_store.Server.Config.{
  Properties, new_config, ServerConfig, split, configured_node,
}
use scalable_key_value_store.Server.Integers.{parse_int}

-- What the process takes from Java, JDBC and gRPC. `W` is what lies outside the process, `D` a
-- connection to a database, and `H` a gRPC server.
pub record Platform (W D H : Type 0) : Type 0 where
  -- `Character.digit` on characters outside ASCII
  pub other_digit : ℕ → Option ℕ
  -- `DriverManager.getConnection`, of a path that may be null
  pub get_connection : Option Text → W → Sql D × W
  -- `Properties.load` of the file at a path, and `getProperty`
  pub load : Text → W → Outcome Properties × W
  -- `ServerBuilder.forPort(port).addService(service).build()`
  pub build : ℤ → W → Outcome H × W
  -- `start` and `shutdown` of the gRPC server
  pub start_server : H → W → Outcome (Unit {0}) × W
  pub shutdown_server : H → W → W

-- The field `storage` is the one of the node.
pub record KvStoreServer (D H : Type 0) : Type 0 where
  pub port : ℤ
  pub server : H
  pub raft_node : RaftNode D

pub data Task : Type 0 where
  leader_election heartbeat : Task

-- `scheduleAtFixedRate(task, 0, period, TimeUnit.MILLISECONDS)`
pub record Scheduled : Type 0 where
  pub task : Task
  pub period : ℕ

-- `RaftNode.start`
unfoldable pub raft_start : List Scheduled
raft_start =
    record { task = leader_election; period = 150 } ∷ record { task = heartbeat; period = 50 } ∷ []

-- what `main` comes to: `System.exit`, or a wait for the server to end
pub data Ending (D H : Type 0) : Type 0 where
  exits : ℕ → Ending D H
  serves : KvStoreServer D H → List Scheduled → Ending D H

abbrev pub colon : ℕ
colon = b':'

module _ {W A : Type 0} where
  -- `pieces[1]`
  unfoldable pub second : List A → Exec W A
  unfolding throw pure
  second pieces = elim (get_elem? pieces 1) [
    | none ↦ throw array_index_out_of_bounds_exception
    | some piece ↦ pure piece
  ]

  unfoldable pub result : Outcome A → Exec W A
  result r w = (r, w)

module _ {W D H : Type 0} (platform : Platform W D H) where
  -- `Integer.parseInt(config.getNodeId().split(":")[1])`
  unfoldable pub port_of : Option Text → Exec W ℤ
  port_of node_id = do
    id ← non_null node_id
    piece ← second (split colon id)
    result (parse_int platform.other_digit piece)

module _ {W D H : Type 0} (platform : Platform W D H) (sql : Engine D) where
  abbrev pub initialized : Outcome (Unit {0}) × D → Exec W D
  initialized (returns tt, d) w = (returns d, w)
  initialized (throws e, d) w = (throws e, w)

  unfoldable pub opened : Sql D → Exec W D
  unfolding throw
  opened sql_exception = throw runtime_exception
  opened (done d) = initialized (Storage.initialize_database sql d)

  -- `new SQLiteStorage`: a connection whose tables cannot be made is not closed
  unfoldable pub new_storage : Option Text → Exec W D
  new_storage path w = let (r, w') = platform.get_connection path w in opened r w'

  -- The node id is not null behind `port_of`.
  unfoldable pub new_server : ServerConfig → Exec W (KvStoreServer D H)
  new_server config = do
    port ← port_of platform config.node_id
    storage ← new_storage config.storage_path
    node_id ← non_null config.node_id
    server ← platform.build port
    pure (record {
      port = port;
      server = server;
      raft_node = configured_node node_id config storage;
    })

  unfoldable pub start : KvStoreServer D H → Exec W (List Scheduled)
  start server = do platform.start_server server.server; pure raft_start

  -- The tasks of the node stay scheduled.
  unfoldable pub stop : H → Exec (W × RaftNode D) (Unit {0})
  stop server (w, s) =
      let (r, s') = on_storage (Storage.close sql) s in (r, (platform.shutdown_server server w, s'))

  unfoldable pub main : List Text → Exec W (Ending D H)
  main [] = pure (exits 1)
  main (path ∷ []) = do
    props ← platform.load path
    config ← result (new_config props)
    server ← new_server config
    tasks ← start server
    pure (serves server tasks)
  main (path ∷ more ∷ paths) = pure (exits 1)
