-- ===== src/Logger/Progress.antt =====
-- stldb/logger.h: log() returns, and what it has written when it does.
use mathlib.Core.Option
use mathlib.Core.Option.{some-injective, none-ne-some}
use stldb.Prelude.{
  ℕ, zero, suc, ◌-◌, ◌≤◌, ◌<◌, ◌≡◌, refl, sym, ap, ◌∙◌, subst, List, ◌∷◌, ◌++◌, Bool, true, false,
  ◌&&◌, some, arith, ltb, ltb→lt, ltb-false→le, if◌then◌else◌, Bool-cases, inl, inr, ◌⊎◌,
}
use stldb.Logger.State.{CommitBuffer, LogStats, SharedLogInfo, Logger, Outcome, done}
use stldb.Logger.Write.{file_bytes, or_zero, Counts}
use stldb.Logger.Log.{unless_thrown, log_loop, sync_log, finish_log, no_counts, finish, log}
use stldb.Logger.Queue.{Consecutive, Consecutive-lsn, Consecutive-find, IsQueued}
use stldb.Logger.Files.{InStep}
use stldb.Logger.Placed.{InLog}
use stldb.Logger.Rounds.{AllSucceed, log_round-Advances, log_loop-more, log_loop-over}

-- What log() leaves of l once the buffer with this LSN is written.
pub record Wrote (lsn : ℕ) (l l' : Logger) : Type 0 where
  pub queued : IsQueued l'.info
  pub reached : lsn ≤ l'.info.last_write_txn_id
  pub same_sync : l'.info.log_sync ≡ l.info.log_sync
  pub in_step : InStep l'
  pub logged :
      (xs ys : List CommitBuffer) (b : CommitBuffer)
      → l.info.waiting_txns ≡ xs ++ b ∷ ys
      → b.header.lsn ≡ lsn
      → InLog b l'

-- A loop whose LSN is written leaves the state as it is.
over_at_once :
    (fuel lsn : ℕ) (l l' : Logger) (n n' : Counts)
    → lsn ≤ l.info.last_write_txn_id
    → log_loop fuel lsn l n ≡ some (l', n', done)
    → l ≡ l'
unfolding log_loop
over_at_once zero lsn l l' n n' h e = absurd (none-ne-some _ e)
over_at_once (suc fuel) lsn l l' n n' h e =
    let over : ltb l.info.last_write_txn_id lsn ≡ false = ground (arith, h) in
    ap (λ (x : Logger × Counts × Outcome). x.0)
      (some-injective _ _ (sym (log_loop-over fuel lsn l n over) ∙ e))

log_loop-returns :
    (fuel lsn : ℕ) (l : Logger) (n : Counts)
    → IsQueued l.info
    → InStep l
    → AllSucceed l.disk
    → lsn < l.info.next_lsn
    → lsn - l.info.last_write_txn_id < fuel
    → (l' : Logger) × (n' : Counts) × (log_loop fuel lsn l n ≡ some (l', n', done)) × Wrote lsn l l'
unfolding log_loop
log_loop-returns zero lsn l n h s d q lt = absurd (omega (arith, lt))
log_loop-returns (suc fuel) lsn l n h s d q lt =
    elim (Bool-cases (ltb l.info.last_write_txn_id lsn)) [
      | inl more ↦
          let behind = ltb→lt l.info.last_write_txn_id lsn more in
          let (l1, n1, e, a) = log_round-Advances l n h s d (omega arith) in
          let (l2, n2, e2, w) =
            log_loop-returns fuel lsn l1 n1 a.queued a.in_step a.succeed
              (omega (arith, a.same_next)) (omega (arith, a.further)) in
          (
            l2,
            n2,
            log_loop-more fuel lsn l n more ∙ ap (unless_thrown (log_loop fuel lsn)) e ∙ e2,
            record {
              queued = w.queued;
              reached = w.reached;
              same_sync = w.same_sync ∙ a.same_sync;
              in_step = w.in_step;
              logged = λ xs ys b q v. elim (a.fate xs ys b q) [
                | inl (placed, past) ↦
                    subst (InLog b) (over_at_once fuel lsn l1 l2 n1 n2 (omega (arith, past, v)) e2)
                      placed
                | inr (zs, left) ↦ w.logged zs ys b left v
              ];
            },
          )
      | inr over ↦ (
        l,
        n,
        log_loop-over fuel lsn l n over,
        record {
          queued = h;
          reached = ltb-false→le l.info.last_write_txn_id lsn over;
          same_sync = refl;
          in_step = s;
          logged = λ xs ys b q v. absurd (
              omega (
                arith,
                v,
                Consecutive-lsn l.info.last_write_txn_id xs ys b
                    (subst (Consecutive l.info.last_write_txn_id) q h.in_order),
                ltb-false→le l.info.last_write_txn_id lsn over,
              ));
        },
      )
    ]

-- The sync at the end of log() only moves the last synced LSN, up to the last written one.
sync_if-IsQueued :
    (c : Bool) (info : SharedLogInfo) (stats : LogStats)
    → IsQueued info
    → IsQueued (record (if c then sync_log info else info) { stats = stats })
unfolding sync_log
sync_if-IsQueued true info stats h = record { in_order = h.in_order; all = h.all; room = h.room }
sync_if-IsQueued false info stats h = record { in_order = h.in_order; all = h.all; room = h.room }

sync_if-last_write :
    (c : Bool) (info : SharedLogInfo)
    → (if c then sync_log info else info).last_write_txn_id ≡ info.last_write_txn_id
unfolding sync_log
sync_if-last_write true info = refl
sync_if-last_write false info = refl

sync_if-last_sync :
    (lsn : ℕ) (info : SharedLogInfo)
    → lsn ≤ info.last_write_txn_id
    → info.log_sync ≡ true
    → lsn
      ≤ (if ltb info.last_sync_txn_id lsn && info.log_sync
          then sync_log info
          else info).last_sync_txn_id
unfolding sync_log
sync_if-last_sync lsn info w s = ground (arith, s)

-- The sync and the statistics leave the log file as it is.
finish_log-InLog :
    (lsn : ℕ) (l : Logger) (n : Counts) (b : CommitBuffer)
    → InLog b l
    → InLog b (finish_log lsn l n)
unfolding finish_log sync_log
finish_log-InLog lsn l n b h =
    let (name, len) = sync_if-log (ltb l.info.last_sync_txn_id lsn && l.info.log_sync) l.info in
    record {
      before = h.before;
      after = h.after;
      text = ap (λ f. file_bytes (or_zero f) l.files) name ∙ h.text;
      within = omega (arith, len, h.within);
    }
  where
    sync_if-log :
        (c : Bool) (info : SharedLogInfo)
        → ((if c then sync_log info else info).log_filename ≡ info.log_filename)
          × ((if c then sync_log info else info).log_len ≡ info.log_len)
    sync_if-log true info = (refl, refl)
    sync_if-log false info = (refl, refl)

-- What log() leaves of l when it returns.
pub record Logged (lsn : ℕ) (l l' : Logger) : Type 0 where
  pub wrote : Wrote lsn l l'
  pub synced : (l.info.log_sync ≡ false) ⊎ (lsn ≤ l'.info.last_sync_txn_id)

pub log-Logged :
    (fuel lsn : ℕ) (l : Logger)
    → IsQueued l.info
    → InStep l
    → AllSucceed l.disk
    → lsn < l.info.next_lsn
    → lsn - l.info.last_write_txn_id < fuel
    → (l' : Logger) × (log fuel lsn l ≡ some (l', done)) × Logged lsn l l'
unfolding log finish_log sync_log
log-Logged fuel lsn l h s d q lt =
    let (l1, n1, e, w) = log_loop-returns fuel lsn l no_counts h s d q lt in
    let syncing = ltb l1.info.last_sync_txn_id lsn && l1.info.log_sync in
    (
      finish_log lsn l1 n1,
      ap (Option.map (finish lsn)) e,
      record {
        wrote = record {
          queued = sync_if-IsQueued syncing l1.info (finish_log lsn l1 n1).info.stats w.queued;
          reached = omega (arith, sync_if-last_write syncing l1.info, w.reached);
          same_sync = sync_if-log_sync syncing l1.info ∙ w.same_sync;
          in_step = w.in_step;
          logged = λ xs ys b q v. finish_log-InLog lsn l1 n1 b (w.logged xs ys b q v);
        };
        synced = elim (Bool-cases l.info.log_sync) [
          | inl k ↦ inr (sync_if-last_sync lsn l1.info w.reached (w.same_sync ∙ k))
          | inr k ↦ inl k
        ];
      },
    )
  where
    sync_if-log_sync :
        (c : Bool) (info : SharedLogInfo)
        → (if c then sync_log info else info).log_sync ≡ info.log_sync
    sync_if-log_sync true info = refl
    sync_if-log_sync false info = refl

-- The queue holds a buffer with this LSN, and the log file of l' its header and its bytes.
pub record IsWritten (lsn : ℕ) (l l' : Logger) : Type 0 where
  pub earlier : List CommitBuffer
  pub later : List CommitBuffer
  pub buffer : CommitBuffer
  pub queue : l.info.waiting_txns ≡ earlier ++ buffer ∷ later
  pub lsn_of_buffer : buffer.header.lsn ≡ lsn
  pub in_log : InLog buffer l'

-- With fuel for each LSN that is not written yet, a queue in order that holds or held this LSN, a
-- process that knows its file position, and writes that succeed, log() returns: unless this LSN was
-- written before, the queue held a buffer with it whose header and bytes stand in the log file then,
-- before the end of the log; the last written LSN is this one or a later one, and so is the last
-- synced one if the log is synced, the queue is still in order and the file position known.
pub log-returns :
    (fuel lsn : ℕ) (l : Logger)
    → IsQueued l.info
    → InStep l
    → AllSucceed l.disk
    → lsn < l.info.next_lsn
    → lsn - l.info.last_write_txn_id < fuel
    → (l' : Logger) × (log fuel lsn l ≡ some (l', done))
      × IsQueued l'.info
      × InStep l'
      × (lsn ≤ l'.info.last_write_txn_id)
      × ((lsn ≤ l.info.last_write_txn_id) ⊎ IsWritten lsn l l')
      × ((l.info.log_sync ≡ false) ⊎ (lsn ≤ l'.info.last_sync_txn_id))
log-returns fuel lsn l h s d q lt =
    let (l', e, r) = log-Logged fuel lsn l h s d q lt in
    (
      l',
      e,
      r.wrote.queued,
      r.wrote.in_step,
      r.wrote.reached,
      elim (Bool-cases (ltb l.info.last_write_txn_id lsn)) [
        | inr over ↦ inl (ltb-false→le l.info.last_write_txn_id lsn over)
        | inl more ↦
            let (xs, b, ys, k, v) =
              Consecutive-find lsn l.info.last_write_txn_id l.info.waiting_txns h.in_order
                (ltb→lt l.info.last_write_txn_id lsn more) (omega (arith, h.all)) in
            inr (record {
              earlier = xs;
              later = ys;
              buffer = b;
              queue = k;
              lsn_of_buffer = v;
              in_log = r.wrote.logged xs ys b k v;
            })
      ],
      r.synced,
    )
