-- ===== src/Checkpoint.antt =====
-- stldb/checkpoint.h and src/checkpoint.cpp: the checkpoint file of a container, and its free space.
pub mod Regions
pub mod File
pub mod Count
pub mod Take
pub mod Extend
pub mod Allocate
pub mod Merge
pub mod Clear
pub mod Reopen
pub mod Iterator
pub mod Skip
pub mod Load
pub mod Write
pub mod Session
pub mod Commit
mod Tests
