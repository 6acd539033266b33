-- ===== src/Server.antt =====
-- The Java server under server/src/main/java/com/kvstore.
mod Examples
pub mod Java
pub mod Long
pub mod Sql
pub mod Storage
pub mod RaftState
pub mod Raft
pub mod Replication
pub mod Election
pub mod Schedule
pub mod Turns
pub mod Threads
pub mod Process
pub mod Service
pub mod Integers
pub mod Config
