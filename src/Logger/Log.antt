-- ===== src/Logger/Log.antt =====
-- stldb/logger.h: log(), its loop, its sync and its statistics.
use mathlib.Core.Option
use stldb.Prelude.{
  ℕ, zero, suc, ◌+◌, Bool, true, false, ◌&&◌, Option, none, some, ◌==◌, ltb, if◌then◌else◌,
}
use stldb.Logger.State.{LogStats, SharedLogInfo, Logger, Outcome, done, io_failure}
use stldb.Logger.Write.{ensure_open_logfile, fetch, Counts, write_fetched}

-- One round of the while loop of log().
unfoldable pub log_round : Logger → Counts → Logger × Counts × Outcome
unfolding ensure_open_logfile fetch write_fetched
log_round l n =
    let opened = ensure_open_logfile l in
    write_fetched opened n
      (fetch opened.info.waiting_txns 0 opened.info.log_len opened.info.log_max_len)

-- What follows a round: the rest of the loop, unless the write threw.
abbrev pub unless_thrown :
    (Logger → Counts → Option (Logger × Counts × Outcome))
    → Logger × Counts × Outcome
    → Option (Logger × Counts × Outcome)
unless_thrown rest (l, n, done) = rest l n
unless_thrown rest (l, n, io_failure) = some (l, n, io_failure)

-- The while loop of log(), on fuel; `none` means that the fuel ran out.
unfoldable pub log_loop : ℕ → ℕ → Logger → Counts → Option (Logger × Counts × Outcome)
log_loop zero lsn l n = none
log_loop (suc fuel) lsn l n = elim (ltb l.info.last_write_txn_id lsn) [
  | true ↦ unless_thrown (log_loop fuel lsn) (log_round l n)
  | false ↦ some (l, n, done)
]

-- sync_log, where the caller holds the file lock throughout.
unfoldable pub sync_log : SharedLogInfo → SharedLogInfo
sync_log info = record info {
  last_sync_txn_id =
      if ltb info.last_sync_txn_id info.last_write_txn_id
      then info.last_write_txn_id
      else info.last_sync_txn_id;
}

abbrev one_if : Bool → ℕ
one_if true = 1
one_if false = 0

abbrev at_least : ℕ → ℕ → ℕ
at_least a b = if ltb a b then b else a

-- The statistics of log().
unfoldable count_log : Counts → LogStats → LogStats
count_log n s = record {
  total_commits = s.total_commits + 1;
  total_write_commits = s.total_write_commits + one_if (ltb 0 n.writes);
  total_sync_only_commits = s.total_sync_only_commits + one_if ((n.writes == 0) && ltb 0 n.syncs);
  total_free_commits = s.total_free_commits + one_if ((n.writes == 0) && (n.syncs == 0));
  total_writes = s.total_writes + n.writes;
  max_writes_per_commit = at_least s.max_writes_per_commit n.writes;
  max_buffers_per_commit = at_least s.max_buffers_per_commit n.txn_written;
  total_bytes_written = s.total_bytes_written + n.bytes;
  total_syncs = s.total_syncs + n.syncs;
}

-- log() after its loop: the sync, and the statistics.
unfoldable pub finish_log : ℕ → Logger → Counts → Logger
unfolding sync_log count_log
finish_log lsn l n =
    let syncing = ltb l.info.last_sync_txn_id lsn && l.info.log_sync in
    let info = if syncing then sync_log l.info else l.info in
    let counts = record n { syncs = n.syncs + one_if syncing } in
    record l { info = record info { stats = count_log counts info.stats } }

abbrev pub no_counts : Counts
no_counts = record { writes = 0; txn_written = 0; bytes = 0; syncs = 0 }

abbrev pub finish : ℕ → Logger × Counts × Outcome → Logger × Outcome
finish lsn (l, n, done) = (finish_log lsn l n, done)
finish lsn (l, n, io_failure) = (l, io_failure)

-- log(), on fuel.
unfoldable pub log : ℕ → ℕ → Logger → Option (Logger × Outcome)
unfolding log_loop finish_log
log fuel lsn l = Option.map (finish lsn) (log_loop fuel lsn l no_counts)
