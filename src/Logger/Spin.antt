-- ===== src/Logger/Spin.antt =====
-- stldb/logger.h: log() for a buffer that no round of its loop can write.
use mathlib.Core.Option
use stldb.Prelude.{ℕ, zero, suc, ◌+◌, ◌<◌, ◌≡◌, refl, sym, ap, ◌∙◌, none, [], arith, lt→ltb, subst}
use stldb.Logger.State.{Logger, all_written, failed_after, done, io_failure}
use stldb.Logger.Write.{
  ensure_open_logfile, fetch, last_lsn, Counts, popped, written, partly_written, put_bytes,
  count_round, write_fetched,
}
use stldb.Logger.Log.{log_round, unless_thrown, log_loop, no_counts, finish, log}
use stldb.Logger.Queue.{fetch-nothing, ensure_open_logfile-info}
use stldb.Logger.Rounds.{AllSucceed, AllSucceed-next, ensure_open_logfile-disk, log_loop-more}

-- Nothing is queued, and the buffer with this LSN is not written.
record Idle (lsn : ℕ) (l : Logger) : Type 0 where
  empty_queue : l.info.waiting_txns ≡ []
  behind : l.info.last_write_txn_id < lsn
  room : 0 < l.info.log_max_len
  succeed : AllSucceed l.disk

log_round-Idle :
    (lsn : ℕ) (l : Logger) (n : Counts)
    → Idle lsn l
    → (l' : Logger) × (n' : Counts) × (log_round l n ≡ (l', n', done)) × Idle lsn l'
unfolding log_round write_fetched written popped put_bytes
log_round-Idle lsn l n h =
    let o = ensure_open_logfile l in
    let (waiting, write, next, max, short) = ensure_open_logfile-info l h.room in
    let f = fetch o.info.waiting_txns 0 o.info.log_len o.info.log_max_len in
    let (ok, later) =
      AllSucceed-next o.disk (subst AllSucceed (sym (ensure_open_logfile-disk l)) h.succeed) in
    let more = count_round o n f (n.writes + 1) in
    let none_more = count_round o n f n.writes in
    let nothing =
      fetch-nothing o.info.waiting_txns 0 o.info.log_len o.info.log_max_len
        (waiting ∙ h.empty_queue) in
    (
      written o f,
      more,
      ap
          (λ w. elim w [
            | all_written ↦ (written o f, more, done)
            | failed_after k ↦ (partly_written k o f, none_more, io_failure)
          ])
          ok,
      record {
        empty_queue = nothing.1;
        behind = omega (arith, h.behind, write, ap (last_lsn o.info.last_write_txn_id) nothing.0);
        room = omega (arith, max, h.room);
        succeed = later;
      },
    )

log_loop-spins :
    (fuel lsn : ℕ) (l : Logger) (n : Counts) → Idle lsn l → log_loop fuel lsn l n ≡ none
unfolding log_loop
log_loop-spins zero lsn l n h = refl
log_loop-spins (suc fuel) lsn l n h =
    let (l1, n1, e, h1) = log_round-Idle lsn l n h in
    log_loop-more fuel lsn l n (lt→ltb l.info.last_write_txn_id lsn h.behind)
    ∙ ap (unless_thrown (log_loop fuel lsn)) e
    ∙ log_loop-spins fuel lsn l1 n1 h1

-- With nothing queued, log() for an LSN that is not written, as a write that failed leaves those of
-- the buffers that it took, goes on without end, whatever the fuel, and though every later write
-- succeeds.
pub log-spins :
    (fuel lsn : ℕ) (l : Logger)
    → l.info.waiting_txns ≡ []
    → l.info.last_write_txn_id < lsn
    → 0 < l.info.log_max_len
    → AllSucceed l.disk
    → log fuel lsn l ≡ none
unfolding log
log-spins fuel lsn l e b r d = ap (Option.map (finish lsn)) (
    log_loop-spins fuel lsn l no_counts
      (record { empty_queue = e; behind = b; room = r; succeed = d }))
