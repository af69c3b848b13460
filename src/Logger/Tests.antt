-- ===== src/Logger/Tests.antt =====
-- Two committed buffers in a new log, and the theorems of the log applied to them.
use stldb.Prelude.{
  ◌-◌, ◌%◌, ◌≤◌, ◌<◌, ◌≡◌, refl, ◌⊎◌, true, false, none, some, List, [], ◌∷◌, ◌++◌, arith, take,
  drop, length, ◌+◌,
}
use stldb.Logging.{no_header}
use stldb.Logger.State.{
  CommitBuffer, prepare_header, LogStats, SharedLogInfo, Logger, Gathered, all_written, enqueue,
  queue_for_commit, done,
}
use stldb.Logger.Write.{
  file_bytes, fetch, padding_for, padding_bytes, concat_records, gathered, written, partly_written,
}
use stldb.Logger.Log.{log}
use stldb.Logger.Queue.{IsQueued, queue_for_commit-IsQueued}
use stldb.Logger.Progress.{IsWritten, log-returns}
use stldb.Logger.Spin.{log-spins}
use stldb.Logger.Files.{InStep, fetch_of, with_queue, written-file, partly_written-misplaces}

abbrev no_stats : LogStats
no_stats = record {
  total_commits = 0;
  total_write_commits = 0;
  total_sync_only_commits = 0;
  total_free_commits = 0;
  total_writes = 0;
  max_writes_per_commit = 0;
  max_buffers_per_commit = 0;
  total_bytes_written = 0;
  total_syncs = 0;
}

abbrev new_info : SharedLogInfo
new_info = record {
  next_lsn = 1;
  last_write_txn_id = 0;
  last_sync_txn_id = 0;
  waiting_txns = [];
  log_filename = none;
  log_len = 0;
  log_max_len = 600;
  log_sync = true;
  stats = no_stats;
}

abbrev three_bytes : CommitBuffer
three_bytes = record { bytes = 97 ∷ 98 ∷ 99 ∷ []; op_count = 1; header = no_header }

new_info-IsQueued : IsQueued new_info
new_info-IsQueued = record { in_order = tt; all = refl; room = omega arith }

abbrev one_queued : SharedLogInfo
one_queued = (enqueue (prepare_header three_bytes) new_info).0

queue_for_commit-IsQueued_example : IsQueued one_queued × (1 < one_queued.next_lsn)
unfolding queue_for_commit
queue_for_commit-IsQueued_example =
    queue_for_commit-IsQueued three_bytes new_info one_queued 1 new_info-IsQueued refl

abbrev logger_of : SharedLogInfo → List Gathered → Logger
logger_of info disk = record {
  info = info;
  my_log_filename = none;
  my_fp_offset = 0;
  fd_offset = 0;
  files = [];
  disk = disk;
}

one_queued-IsQueued : IsQueued one_queued
unfolding queue_for_commit
one_queued-IsQueued =
    (queue_for_commit-IsQueued three_bytes new_info one_queued 1 new_info-IsQueued refl).0

log-returns_example :
    (l' : Logger) × (log 2 1 (logger_of one_queued (all_written ∷ [])) ≡ some (l', done))
    × IsQueued l'.info
    × InStep l'
    × (1 ≤ l'.info.last_write_txn_id)
    × ((1 ≤ 0) ⊎ IsWritten 1 (logger_of one_queued (all_written ∷ [])) l')
    × ((one_queued.log_sync ≡ false) ⊎ (1 ≤ l'.info.last_sync_txn_id))
unfolding enqueue
log-returns_example =
    log-returns 2 1 (logger_of one_queued (all_written ∷ [])) one_queued-IsQueued refl (refl, tt)
      (omega arith) (omega arith)

-- What is left of the queue when the write of its buffer failed.
abbrev lost : Logger
lost = logger_of (record new_info { next_lsn = 2 }) []

log-spins_example : log 5 1 lost ≡ none
log-spins_example = log-spins 5 1 lost refl (omega arith) (omega arith) tt

abbrev opened : Logger
opened = record lost {
  info = record one_queued { log_filename = some 0 };
  files = (0, 0 ∷ 0 ∷ []) ∷ [];
}

written-file_example :
    (let f = fetch one_queued.waiting_txns 0 0 600 in
      let l' = written opened f in
      let new = file_bytes 0 l'.files in
      (take 0 new ≡ [])
      × (take (l'.info.log_len - 0) (drop 0 new)
          ≡ concat_records f.0 ++ padding_bytes (padding_for f.2))
      × (l'.info.log_len % 512 ≡ 0)
      × (0 ≤ l'.info.log_len)
      × InStep l')
unfolding enqueue file_bytes
written-file_example = written-file opened refl (omega arith)

partly_written-misplaces_example :
    (let l1 = with_queue one_queued.waiting_txns (partly_written 5 opened (fetch_of opened)) in
      let l2 = written l1 (fetch_of l1) in
      let part = take 5 (gathered (fetch_of opened)) in
      let text = gathered (fetch_of l1) in
      (take (length text) (drop (0 + length part) (file_bytes 0 l2.files)) ≡ text)
      × (l2.info.log_len ≡ 0 + length text))
unfolding enqueue
partly_written-misplaces_example =
    partly_written-misplaces 5 opened one_queued.waiting_txns refl refl
