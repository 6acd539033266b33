-- ===== src/Server/Storage/Refines.antt =====
-- The storage as a log without gaps, two counters and a dictionary: what each method of
-- storage/SQLiteStorage.java does to them, on a connection on which no statement fails.
pub mod Encoding
pub mod Log
pub mod Values
pub use Encoding.*
pub use Log.*
pub use Values.*
