-- ===== src/Server/Threads.antt =====
-- raft/RaftNode.java and server/KVStoreServiceImpl.java as threads run them: methods that take no
-- lock, one access to shared data at a time.
pub mod Calls
pub mod Programs
pub mod Perform
pub mod Alone
pub mod Election
pub mod Requests
pub mod Guard
pub mod Orderly
pub mod Access
pub mod Replay
pub mod Safe
pub mod Task
pub mod Outcome
pub mod Answers
pub mod Finish
pub mod Session
pub mod Lost
pub mod Pool
