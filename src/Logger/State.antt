-- ===== src/Logger/State.antt =====
-- stldb/logger.h and stldb/commit_buffer.h: commit buffers, the shared state of the log, and the queue.
use stldb.Prelude.{
  ℕ, ◌+◌, ◌%◌, Bool, ◌||◌, Option, none, some, List, [], ◌∷◌, ◌++◌, ◌==◌, length, if◌then◌else◌,
}
use stldb.Logging.{LogHeader, u32_mod, finalize, adler}

-- commit_buffer_t
pub record CommitBuffer : Type 0 where
  pub bytes : List ℕ
  pub op_count : ℕ
  pub header : LogHeader

-- prepare_header
unfoldable pub prepare_header : CommitBuffer → CommitBuffer
prepare_header b = record b {
  header = record b.header {
    segment_size = length b.bytes % u32_mod;
    op_count = b.op_count % u32_mod;
    segment_checksum = adler b.bytes;
  };
}

-- finalize_header
unfoldable pub finalize_header : ℕ → CommitBuffer → CommitBuffer
unfolding finalize
finalize_header lsn b = record b { header = finalize (record b.header { lsn = lsn }) }

-- log_stats
pub record LogStats : Type 0 where
  pub total_commits : ℕ
  pub total_write_commits : ℕ
  pub total_sync_only_commits : ℕ
  pub total_free_commits : ℕ
  pub total_writes : ℕ
  pub max_writes_per_commit : ℕ
  pub max_buffers_per_commit : ℕ
  pub total_bytes_written : ℕ
  pub total_syncs : ℕ

-- SharedLogInfo, without its mutexes: each step below runs under the one that it takes.
pub record SharedLogInfo : Type 0 where
  pub next_lsn : ℕ
  pub last_write_txn_id : ℕ
  pub last_sync_txn_id : ℕ
  pub waiting_txns : List CommitBuffer
  pub log_filename : Option ℕ
  pub log_len : ℕ
  pub log_max_len : ℕ
  pub log_sync : Bool
  pub stats : LogStats

-- How a gathered write goes: all bytes are written, or it fails after some of them.
pub data Gathered : Type 0 where
  all_written : Gathered
  failed_after : ℕ → Gathered

-- The Logger of one process, with the shared info and the disk that it works on. fd_offset is the
-- position of _logfd, and my_fp_offset what the process takes it for.
pub record Logger : Type 0 where
  pub info : SharedLogInfo
  pub my_log_filename : Option ℕ
  pub my_fp_offset : ℕ
  pub fd_offset : ℕ
  pub files : List (ℕ × List ℕ)
  pub disk : List Gathered

-- What a call returns or throws; the state that it leaves comes beside it.
pub data Outcome : Type 0 where
  done : Outcome
  io_failure : Outcome

abbrev pub max_txn_per_write : ℕ
max_txn_per_write = 7

abbrev pub optimum_write_alignment : ℕ
optimum_write_alignment = 512

-- The part of queue_for_commit that holds the queue mutex, with the LSN that it gives.
unfoldable pub enqueue : CommitBuffer → SharedLogInfo → SharedLogInfo × ℕ
unfolding finalize_header
enqueue b info = (
  record info {
    next_lsn = info.next_lsn + 1;
    waiting_txns = info.waiting_txns ++ finalize_header info.next_lsn b ∷ [];
  },
  info.next_lsn,
)

-- queue_for_commit, which throws on an empty buffer.
unfoldable pub queue_for_commit : CommitBuffer → SharedLogInfo → Option (SharedLogInfo × ℕ)
unfolding prepare_header enqueue
queue_for_commit b info =
    if (length b.bytes == 0) || (b.op_count == 0)
    then none
    else some (enqueue (prepare_header b) info)

-- record_diskless_commit
unfoldable pub record_diskless_commit : SharedLogInfo → SharedLogInfo
record_diskless_commit info = record info {
  stats = record info.stats {
    total_commits = info.stats.total_commits + 1;
    total_free_commits = info.stats.total_free_commits + 1;
  };
}
