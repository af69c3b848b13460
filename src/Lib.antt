-- ===== src/Lib.antt =====
-- STLdb keeps containers in shared memory that transactions read and write: a row carries the lock
-- of the transaction that changes it, readers see the committed value, and a commit writes a redo
-- log before its changes show.
--
-- The parts, and the files that model them:
-- - stldb_lib/stldb/containers/trans_map.tcc, trans_map.h, trans_map_entry.h and detail/map_ops.h:
--   TransMap/Entry (TransEntry, lock, unlock), TransMap/Op (the map_*_operation classes: commit,
--   rollback, add_to_log, recover) and TransMap/Calls (lock_i, update_i, insert, erase_i).
--   TransMap/Rows is the ordered map that the container derives from. TransMap/Rollback,
--   TransMap/Commit and TransMap/Locking are about these. TransMap/Exclusive has clear and swap, which
--   work on whole containers, and TransMap/Waiting has while_row_locked, with the waits of
--   stldb_lib/stldb/sync/wait_policy.h.
-- - stldb_lib/stldb/containers/trans_assoc_iterator.h: TransMap/Iterator, with find, lower_bound
--   and upper_bound, and TransMap/Iterator/Backward with operator--.
-- - stldb_lib/stldb/logging.h and stldb_lib/src/logging.cpp: Logging (log_header, adler).
-- - stldb_lib/stldb/logger.h and commit_buffer.h: Logger/State (the shared state and the queue),
--   Logger/Write (log files, and a gathered write) and Logger/Log (log()). Logger/Queue,
--   Logger/Rounds, Logger/Progress, Logger/Spin and Logger/Files are about these.
-- - stldb_lib/src/log_reader.cpp: LogReader (seek_transaction, next_transaction,
--   read_next_txn).
-- - stldb_lib/stldb/recovery_manager.h: Recovery (recover(), with the
--   transactions handed on as a parameter).
-- - stldb_lib/stldb/transaction.h: Transaction (commit and rollback on one container, with the log).
-- - stldb_lib/stldb/checkpoint.h, detail/checkpoint_file_info.h and stldb_lib/src/checkpoint.cpp:
--   Checkpoint/Regions (the two maps of free space), Checkpoint/File (allocate, add_free_space,
--   clear), Checkpoint/Write (the writes), Checkpoint/Commit (commit, with the directory) and
--   Checkpoint/Iterator (checkpoint_iterator, and the loop of load_checkpoint). The other files of
--   Checkpoint are about these.
-- - stldb_lib/src/db_file_util.cpp: FileUtil/Names (the names of log files) and FileUtil/Files
--   (log files and checkpoints in directories, current and archivable log files), and
--   FileUtil/Metafile (get_current_metafile).
-- - stldb_lib/stldb/database_registry.h and database_registry.tcc: Registry (database_registry,
--   CheckLock) and Registry/Disconnect (await_complete_disconnect). Registry/Steps has the processes
--   that open, close and check a database, or die, as steps.
-- - stldb_lib/stldb/Database.h and Database.tcc: Database/Info (DatabaseInfo), Database/Load
--   (load_containers), Database/Open (the constructor), Database/Checkpoints (checkpoint()) and
--   Database/Close (close, check_integrity). The other files of Database are about these.
--
-- A transaction's calls record operations (TransMap/Calls); its commit has them add themselves to
-- a commit buffer, which the logger queues and writes, and then applies them to the container;
-- recovery reads the log files back and hands each operation to its container. A checkpoint writes
-- entries to free space of a file, whose free space grows only when the checkpoint is over; the LSNs
-- of the checkpoints say which log files recovery needs. A process that opens a database registers;
-- where a check of the registry finds that another one died, or that the building of the region was
-- not completed, it builds the region again, loads the checkpoints and recovers the log.
--
-- How the code is modelled: a container is the list of its rows in key order; an iterator is the
-- rest of that list, and an iterator that an operation keeps is the key of its row. A call returns
-- the new state or throws a value of Exception; a dereference of a row that is gone is `undefined`.
-- A byte is a number below 256 and wrap-around at 32 bits is written out; the 60-bit transaction
-- ids and the 64-bit LSNs and file offsets are numbers that do not wrap. Each step runs under the
-- mutex that the code takes for it, so the mutexes themselves are left out. The order on keys is
-- the parameter Comparator, the serialization of operations is left abstract: a log record of
-- TransMap/Op is what was serialized, and a commit buffer of Logger is any bytes. The results of
-- gathered writes are the list `disk`, where a write that fails may leave some of its bytes, and those of the writes and the commit of a checkpoint are
-- arguments; the other calls of the operating system succeed.
--
-- Bounds and fuel: adler runs on the length of its bytes as fuel, and each chunk takes one byte at
-- least. log() runs on fuel, one more than the LSNs still to be written being enough, since a
-- round writes one buffer at least. read_next_txn and the loop of recover() run on fuel, and one
-- more than the records and paddings of the file is enough. await_complete_disconnect runs on fuel,
-- and the number of registered processes is enough. A scan takes one round for each row.
--
-- The loop of load_checkpoint and that over free regions run on the length of the file as fuel, and
-- each round passes a byte at least.
--
-- An iterator that a call takes shows the entry itself: calls through one that was obtained after the
-- transaction's own update of the entry, and shows the pending value, are not modelled.
--
-- Not modelled: save_checkpoint and checkpoint_manager, the removal of regions, allocators,
-- synchronisation primitives, timing and tracing; also the containers copied from other projects.
-- The locks of a database are left out too: the constructor runs undisturbed, while checkpoint() has
-- what others do between its steps as lists of events.
pub mod Prelude
pub mod TransMap
pub mod Logging
pub mod Logger
pub mod LogReader
pub mod Recovery
pub mod Registry
pub mod Database
pub mod Transaction
pub mod Checkpoint
pub mod FileUtil
