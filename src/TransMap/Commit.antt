-- ===== src/TransMap/Commit.antt =====
-- map_ops.h: the commit of a transaction's operations, against the recovery of what it logs.
pub mod Pending
pub mod Redo
pub mod Tracks
pub mod Calls
pub mod Twice
