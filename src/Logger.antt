-- ===== src/Logger.antt =====
-- stldb/logger.h and stldb/commit_buffer.h: the queue of commit buffers and the writing of log
-- files. A log file's name, log_filename(log_dir, n), is the number n; `none` is the empty name.
-- `files` is the log directory. `disk` says how each gathered write to come goes
-- (all succeed once the list is used up); the other calls of the operating system succeed.
pub mod State
pub mod Write
pub mod Log
pub mod Queue
pub mod Rounds
pub mod Progress
pub mod Spin
pub mod Files
pub mod Placed
mod Tests
