-- ===== src/Database.antt =====
-- stldb/Database.h and Database.tcc: the opening of a database with its recovery, and its checkpoints.
pub mod Info
pub mod Load
pub mod Covered
pub mod Loaded
pub mod Open
pub mod Recovered
pub mod Rebuilt
pub mod Checkpoints
pub mod Durable
pub mod Forgotten
pub mod Archived
pub mod Close
pub mod Ready
pub mod Opened
mod Tests
mod CheckpointTests
