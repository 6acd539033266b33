-- ===== src/Lib.antt =====
-- A key-value store: a client library in C++ and a server in Java that replicates a log by Raft.
--
-- The client (client/src) has five C functions over three globals of the process, and an object
-- that holds one gRPC stub for each server. The server (server/src/main/java/com/kvstore) has a
-- node that holds a role, a term, its peers and a storage, which is an SQLite database with a log,
-- two counters and a table of keys. A client asks a server for a key or for a new value; the server
-- reads its storage, or proposes an entry at its node, which appends it to the log, sends it to the
-- peers, commits it and applies it to the table.
--
-- Which file models what:
--   Prelude: shared names, tests on numbers, lists over the native numbers, signed integers.
--   Client.Cpp: what C++ code may do: return, throw, or be undefined; C strings and buffers.
--     Client.Cpp.Laws and Client.Cpp.Strings are its lemmas.
--   Client.Rpc: the messages, and the calls of gRPC and of code that the repository lacks.
--   Client.Connection: client/src/kvclientimpl.cpp, KvstoreRPCClient: host_addrs, connect,
--     disconnect, send_request; reconnect is an assignment to the global kv_client.
--   Client.Async: client/src/kvclientimpl.cpp, sendRequestAsync, AsyncCompleteRpc, sendRequestDone.
--   Client.Api: client/src/kvclient.cpp, kv739_init, kv739_shutdown, kv739_die, kv739_get and
--     kv739_put, with a child for what is proved of each.
--   Server.Java: exceptions, and methods that mutate their object. Server.Long: 64-bit words.
--   Server.Sql: the statements that storage/SQLiteStorage.java prepares, as operations.
--   Server.Storage: storage/SQLiteStorage.java, one action for each method. Its child Sqlite states
--     what SQLite is relied on for, Rows counts rows, and Refines reads the tables as a log.
--   Server.RaftState: raft/RaftState.java.
--   Server.Raft: raft/RaftNode.java, the fields, the constructor, and what other methods share.
--   Server.Replication: raft/RaftNode.java, appendEntries, sendAppendEntries, updateCommitIndex,
--     applyCommittedEntries, proposeEntry, replicateEntry. Its child Spec says on lists what they
--     should do, and Apply, Commit, Entries, Append, Quorum and Sending compare;
--     Stable is on predicates that they all keep.
--   Server.Election: raft/RaftNode.java, startElection, requestVote, becomeLeader and the tasks.
--   Server.Schedule: the events of a node in any order; its child Sound is on the storage over
--     all of them, with Server.Replication.Sound, and Server.Java.Leaves on methods that may throw.
--   Server.Threads: raft/RaftNode.java and server/KVStoreServiceImpl.java as threads run the methods
--     that hold no lock: Calls has the accesses to what threads share, Programs the methods as trees
--     of them, Perform what an access does, and Pool any number of threads in any order. Alone,
--     Election and Requests compare with the methods as single steps; Guard says what a thread
--     relies on, Orderly, Access and Replay what an access keeps, Safe and Task that the methods
--     ask for no more, and Outcome, Answers and Finish what follows for all interleavings. Session
--     is on requests that do not overlap, and Lost on two PUTs that move the commit index back.
--   Server.Turns: applyCommittedEntries alone, as a list of places between its calls, for the order
--     of calls that loses a newer value.
--   Server.Service: server/KVStoreServiceImpl.java. Server.Config: config/ServerConfig.java, and
--     the node that server/KVStoreServer.java makes. Server.Process: server/KVStoreServer.java from
--     main on, its child Port on the port of a node id, and Refusal on a database that
--     refuses the table of the log, as SQLite does.
--     Server.Integers: Integer.parseInt.
--   Probe: programs that CMake generated and that are committed in client/build/CMakeFiles.
--     Probe.Vendors, Probe.Compiler, Probe.Platform, Probe.Architecture, Probe.Digits,
--     Probe.Standard, Probe.Strings and Probe.Main are 3.24.1/CompilerIdCXX/CMakeCXXCompilerId.cpp
--     from its first `#if` to main, and Probe.SizeOf is CheckTypeSize/OFF64_T.c. Probe.C is
--     3.24.1/CompilerIdC/CMakeCCompilerId.c, as far as it differs from its sibling for C++. They
--     are no part of the store: the client's build compiles them to learn about the compiler.
--   Client.Examples, Server.Examples and Probe.Examples: the theorems at concrete inputs, over a
--     simulated server, a database that keeps its tables in a record, and a Clang on Linux.
--
-- How state and control are modelled. An action takes the state and gives an outcome beside the
-- new state, since what was written before a throw stays written. Undefined behaviour of C++ ends
-- a run. A try block is try_catch over the handlers. A method that writes a
-- buffer gives the buffer back. Loops are recursion on the list that they walk, or on the number of
-- rounds that are left: kv739_put starts with the three of retry_count, and applyCommittedEntries
-- and updateCommitIndex with the distance of the two indices that bound them, so no loop runs out.
--
-- What is assumed. Network, files, stubs, read_server_list, IsLeader, Shutdown, TerminateServer and SQLite
-- are parameters. Theorems on the storage take the laws of Server.Storage.Sqlite: a key that is not
-- given is one more than the largest, and rows of a range come in the order of their keys. Theorems
-- that say so need a connection on which no statement fails, to a database that has the tables; the
-- others hold on any connection. Server.Process.Refusal takes from SQLite that it refuses the table
-- of the log, whose column `index` is a keyword, so a database has that table from elsewhere.
-- Terms are 64-bit words that are compared as signed numbers. Indices and counts are unbounded:
-- a log has fewer than 2^63 entries. A dictionary of a node holds each name once. The macros that a
-- compiler predefines are unknown; those that Probe computes with are integers, not negative.
-- Where a program defines a macro twice, the later definition stands.
--
-- What is not modelled: gRPC channels, the thread pools and their shutdown, locks (each
-- method of a node is one step, but in Server.Threads and Server.Turns, which take the accesses of
-- all threads to be in one order, though the fields are not volatile), the log of messages but for that of the
-- asynchronous calls, the shutdown hook, the class
-- KVClient of client/src/kvclient.h, which nothing defines, and in client/build the probes for
-- headers, which are empty, and third-party headers.
pub mod Prelude
pub mod Client
pub mod Server
pub mod Probe
