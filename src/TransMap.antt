-- ===== src/TransMap.antt =====
-- stldb/containers/trans_map.h, trans_map.tcc, trans_map_entry.h, detail/map_ops.h and
-- trans_assoc_iterator.h: the transactional ordered map.
pub mod Rows
pub mod Entry
pub mod Op
pub mod Calls
pub mod Locking
pub mod Waiting
pub mod Iterator
pub mod Rollback
pub mod Commit
pub mod Exclusive
mod Tests
