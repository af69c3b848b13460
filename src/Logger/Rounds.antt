-- ===== src/Logger/Rounds.antt =====
-- stldb/logger.h: one round of the loop of log().
use stldb.Prelude.{
  ℕ, suc, ◌+◌, ◌≤◌, ◌<◌, ◌≡◌, ◌∙◌, ◌⊎◌, inl, inr, ◌++◌, length-append, refl, sym, ap, true, false,
  some, List, [], ◌∷◌, arith, ltb, length, subst,
}
use stldb.Logger.State.{CommitBuffer, Logger, Gathered, all_written, failed_after, done, io_failure}
use stldb.Logger.Write.{
  advance_logfile, open_logfile, ensure_open_logfile, next_write, later_writes, Counts, popped,
  written, partly_written, count_round, write_fetched,
}
use stldb.Logger.Log.{log_round, unless_thrown, log_loop}
use stldb.Logger.Queue.{
  Consecutive, Consecutive-lsn, IsQueued, fetch-append, fetch_first, ensure_open_logfile-info,
  written-IsQueued,
}
use stldb.Logger.Files.{InStep, fetch_of, written-InStep}
use stldb.Logger.Placed.{InLog, append-split, written-InLog}

-- The gathered writes to come all succeed.
abbrev pub AllSucceed : List Gathered → Type 0
AllSucceed [] = Unit {0}
AllSucceed (b ∷ bs) = (b ≡ all_written) × AllSucceed bs

pub AllSucceed-next :
    (bs : List Gathered)
    → AllSucceed bs
    → (next_write bs ≡ all_written) × AllSucceed (later_writes bs)
AllSucceed-next [] h = (refl, tt)
AllSucceed-next (b ∷ bs) h = h

pub ensure_open_logfile-disk : (l : Logger) → (ensure_open_logfile l).disk ≡ l.disk
unfolding ensure_open_logfile advance_logfile open_logfile
ensure_open_logfile-disk l = ground arith

ensure_open_logfile-log_sync :
    (l : Logger) → (ensure_open_logfile l).info.log_sync ≡ l.info.log_sync
unfolding ensure_open_logfile advance_logfile open_logfile
ensure_open_logfile-log_sync l = ground arith

ensure_open_logfile-IsQueued :
    (l : Logger) → IsQueued l.info → IsQueued (ensure_open_logfile l).info
ensure_open_logfile-IsQueued l h =
    let (waiting, write, next, max, short) = ensure_open_logfile-info l h.room in
    record {
      in_order =
          subst (λ z. Consecutive z (ensure_open_logfile l).info.waiting_txns) (sym write)
            (subst (Consecutive l.info.last_write_txn_id) (sym waiting) h.in_order);
      all = omega (arith, h.all, write, next, ap length waiting);
      room = omega (arith, h.room, max);
    }

ensure_open_logfile-InStep : (l : Logger) → InStep l → InStep (ensure_open_logfile l)
unfolding ensure_open_logfile advance_logfile open_logfile
ensure_open_logfile-InStep l h = ground (arith, h)

-- A buffer of the queue is in the log after a write, or still in the queue.
written-fate :
    (l : Logger) (xs ys : List CommitBuffer) (b : CommitBuffer)
    → IsQueued l.info
    → InStep l
    → l.info.waiting_txns ≡ xs ++ b ∷ ys
    → (InLog b (written l (fetch_of l))
        × (b.header.lsn ≤ (written l (fetch_of l)).info.last_write_txn_id))
      ⊎ ((zs : List CommitBuffer) × ((written l (fetch_of l)).info.waiting_txns ≡ zs ++ b ∷ ys))
unfolding written popped
written-fate l xs ys b h s e =
    let f = fetch_of l in
    let q = fetch-append l.info.waiting_txns 0 l.info.log_len l.info.log_max_len in
    let lsn =
      Consecutive-lsn l.info.last_write_txn_id xs ys b
        (subst (Consecutive l.info.last_write_txn_id) e h.in_order) in
    elim (append-split f.0 f.1 xs ys b (q ∙ e)) [
      | inl (zs, t) ↦ inl (
        written-InLog l xs zs b s t,
        omega (
          arith,
          lsn,
          (written-IsQueued l f.0 f.1 f.2 h q).1,
          ap length t,
          length-append xs (b ∷ zs),
        ),
      )
      | inr k ↦ inr k
    ]

-- A round of the loop of log(): l' is what it leaves of l.
pub record Advances (l l' : Logger) : Type 0 where
  pub queued : IsQueued l'.info
  pub further : l.info.last_write_txn_id < l'.info.last_write_txn_id
  pub same_next : l'.info.next_lsn ≡ l.info.next_lsn
  pub succeed : AllSucceed l'.disk
  pub same_sync : l'.info.log_sync ≡ l.info.log_sync
  pub in_step : InStep l'
  pub fate :
      (xs ys : List CommitBuffer) (b : CommitBuffer)
      → l.info.waiting_txns ≡ xs ++ b ∷ ys
      → (InLog b l' × (b.header.lsn ≤ l'.info.last_write_txn_id))
        ⊎ ((zs : List CommitBuffer) × (l'.info.waiting_txns ≡ zs ++ b ∷ ys))

-- A round whose write succeeds writes at least one of the buffers of a queue that is not empty.
pub log_round-Advances :
    (l : Logger) (n : Counts)
    → IsQueued l.info
    → InStep l
    → AllSucceed l.disk
    → l.info.last_write_txn_id + 1 < l.info.next_lsn
    → (l' : Logger) × (n' : Counts) × (log_round l n ≡ (l', n', done)) × Advances l l'
unfolding log_round write_fetched
log_round-Advances l n h s d lt =
    let o = ensure_open_logfile l in
    let (waiting, write, next, max, short) = ensure_open_logfile-info l h.room in
    let f = fetch_of o in
    let in_step = ensure_open_logfile-InStep l s in
    let (ok, later) =
      AllSucceed-next o.disk (subst AllSucceed (sym (ensure_open_logfile-disk l)) d) in
    let first =
      fetch_first o.info.waiting_txns o.info.log_len o.info.log_max_len
        (omega (arith, h.all, ap length waiting)) (omega arith) in
    let (queued, moved) =
      written-IsQueued o f.0 f.1 f.2 (ensure_open_logfile-IsQueued l h)
        (fetch-append o.info.waiting_txns 0 o.info.log_len o.info.log_max_len) in
    let more = count_round o n f (n.writes + 1) in
    let none_more = count_round o n f n.writes in
    (
      written o f,
      more,
      ap
          (λ w. elim w [
            | all_written ↦ (written o f, more, done)
            | failed_after k ↦ (partly_written k o f, none_more, io_failure)
          ])
          ok,
      record {
        queued = queued;
        further = omega arith;
        same_next = next;
        succeed = later;
        same_sync = ensure_open_logfile-log_sync l;
        in_step = written-InStep o in_step;
        fate = λ xs ys b e.
            written-fate o xs ys b (ensure_open_logfile-IsQueued l h) in_step (waiting ∙ e);
      },
    )

pub log_loop-more :
    (fuel lsn : ℕ) (l : Logger) (n : Counts)
    → ltb l.info.last_write_txn_id lsn ≡ true
    → log_loop (suc fuel) lsn l n ≡ unless_thrown (log_loop fuel lsn) (log_round l n)
unfolding log_loop
log_loop-more fuel lsn l n more =
    ap
      (λ c. elim c [
        | true ↦ unless_thrown (log_loop fuel lsn) (log_round l n)
        | false ↦ some (l, n, done)
      ])
      more

pub log_loop-over :
    (fuel lsn : ℕ) (l : Logger) (n : Counts)
    → ltb l.info.last_write_txn_id lsn ≡ false
    → log_loop (suc fuel) lsn l n ≡ some (l, n, done)
unfolding log_loop
log_loop-over fuel lsn l n over =
    ap
      (λ c. elim c [
        | true ↦ unless_thrown (log_loop fuel lsn) (log_round l n)
        | false ↦ some (l, n, done)
      ])
      over
