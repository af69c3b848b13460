-- ===== src/Logger/Queue.antt =====
-- logger.h: the queue of commit buffers, as queue_for_commit fills it and log() takes from it.
use stldb.Prelude.{
  ℕ, ◌+◌, ◌≤◌, ◌<◌, ◌≡◌, refl, sym, ap, ◌∙◌, some, List, [], ◌∷◌, ◌++◌, arith, ◌==◌, lt→ltb, length,
  length-append, subst, ◌||◌, unless-some, Bool-cases, inl, inr,
}
use stldb.Logging.{header_size}
use stldb.Logger.State.{
  CommitBuffer, prepare_header, finalize_header, SharedLogInfo, Logger, max_txn_per_write, enqueue,
  queue_for_commit,
}
use stldb.Logger.Write.{
  advance_logfile, open_logfile, ensure_open_logfile, fetch, last_lsn, popped, put_bytes, written,
}

-- The buffers carry the LSNs that follow `lsn`, one by one.
abbrev pub Consecutive : ℕ → List CommitBuffer → Type 0
Consecutive lsn [] = Unit {0}
Consecutive lsn (b ∷ bs) = (b.header.lsn ≡ lsn + 1) × Consecutive (lsn + 1) bs

-- The queue holds what was given an LSN and is not written, in order, and a log file has room.
pub record IsQueued (info : SharedLogInfo) : Type 0 where
  pub in_order : Consecutive info.last_write_txn_id info.waiting_txns
  pub all : info.last_write_txn_id + length info.waiting_txns + 1 ≡ info.next_lsn
  pub room : 0 < info.log_max_len

Consecutive-append :
    (lsn : ℕ) (bs : List CommitBuffer) (b : CommitBuffer)
    → Consecutive lsn bs
    → b.header.lsn ≡ lsn + length bs + 1
    → Consecutive lsn (bs ++ b ∷ [])
Consecutive-append lsn [] b h e = (omega arith, tt)
Consecutive-append lsn (c ∷ bs) b h e = (h.0, Consecutive-append (lsn + 1) bs b h.1 (omega arith))

pub enqueue-IsQueued :
    (b : CommitBuffer) (info : SharedLogInfo)
    → IsQueued info
    → IsQueued (enqueue b info).0 × (info.next_lsn < (enqueue b info).0.next_lsn)
unfolding enqueue finalize_header
enqueue-IsQueued b info h =
    let queued = finalize_header info.next_lsn b in
    (
      record {
        in_order =
            Consecutive-append info.last_write_txn_id info.waiting_txns queued h.in_order
              (omega (arith, h.all));
        all = omega (arith, h.all, length-append info.waiting_txns (queued ∷ []));
        room = h.room;
      },
      omega arith,
    )

-- queue_for_commit, where it does not throw, keeps the queue in order: it holds the buffers of the
-- LSNs from after the last written one up to the next one to be given, and a log file has room. The
-- LSN that it returns is below the next one.
pub queue_for_commit-IsQueued :
    (b : CommitBuffer) (info info' : SharedLogInfo) (lsn : ℕ)
    → IsQueued info
    → queue_for_commit b info ≡ some (info', lsn)
    → IsQueued info' × (lsn < info'.next_lsn)
unfolding queue_for_commit
queue_for_commit-IsQueued b info info' lsn h q =
    let test = (length b.bytes == 0) || (b.op_count == 0) in
    let e = unless-some test (enqueue (prepare_header b) info) (info', lsn) q in
    subst (λ r. IsQueued r.0 × (r.1 < r.0.next_lsn)) e (enqueue-IsQueued (prepare_header b) info h)

-- What fetch takes and leaves make up the queue, and it takes no more than 7.
pub fetch-append :
    (queue : List CommitBuffer) (n len max_len : ℕ)
    → (fetch queue n len max_len).0 ++ (fetch queue n len max_len).1 ≡ queue
unfolding fetch
fetch-append [] n len max_len = refl
fetch-append (b ∷ queue) n len max_len =
    ground (arith, fetch-append queue (n + 1) (len + (header_size + length b.bytes)) max_len)

fetch_bound :
    (queue : List CommitBuffer) (n len max_len : ℕ)
    → n ≤ max_txn_per_write
    → n + length (fetch queue n len max_len).0 ≤ max_txn_per_write
unfolding fetch
fetch_bound [] n len max_len h = omega arith
fetch_bound (b ∷ queue) n len max_len h =
    ground (arith, fetch_bound queue (n + 1) (len + (header_size + length b.bytes)) max_len)

-- It takes at least one of a queue that is not empty, if the file has room.
pub fetch_first :
    (queue : List CommitBuffer) (len max_len : ℕ)
    → 0 < length queue
    → len < max_len
    → 0 < length (fetch queue 0 len max_len).0
unfolding fetch
fetch_first [] len max_len q h = omega (arith, q)
fetch_first (b ∷ queue) len max_len q h = ground (arith, lt→ltb len max_len h)

pub fetch-nothing :
    (queue : List CommitBuffer) (n len max_len : ℕ)
    → queue ≡ []
    → ((fetch queue n len max_len).0 ≡ []) × ((fetch queue n len max_len).1 ≡ [])
unfolding fetch
fetch-nothing [] n len max_len e = (refl, refl)
fetch-nothing (b ∷ queue) n len max_len e = absurd (ground (arith, ap length e))

Consecutive-split :
    (lsn : ℕ) (xs ys : List CommitBuffer)
    → Consecutive lsn (xs ++ ys)
    → (last_lsn lsn xs ≡ lsn + length xs) × Consecutive (lsn + length xs) ys
Consecutive-split lsn [] ys h = (omega arith, subst (λ z. Consecutive z ys) (omega arith) h)
Consecutive-split lsn (x ∷ xs) ys h =
    let rest =
      subst (λ z. (last_lsn z xs ≡ z + length xs) × Consecutive (z + length xs) ys) (sym h.0)
        (Consecutive-split (lsn + 1) xs ys h.1) in
    (rest.0 ∙ omega arith, subst (λ z. Consecutive z ys) (omega arith) rest.1)

-- The LSN of a buffer in the queue.
pub Consecutive-lsn :
    (lsn : ℕ) (xs ys : List CommitBuffer) (b : CommitBuffer)
    → Consecutive lsn (xs ++ b ∷ ys)
    → b.header.lsn ≡ lsn + length xs + 1
Consecutive-lsn lsn xs ys b h = (Consecutive-split lsn xs (b ∷ ys) h).1.0

-- The buffer of each LSN from after the last written one on is in the queue.
pub Consecutive-find :
    (lsn last : ℕ) (bs : List CommitBuffer)
    → Consecutive last bs
    → last < lsn
    → lsn ≤ last + length bs
    → (xs : List CommitBuffer) × (b : CommitBuffer) × (ys : List CommitBuffer) × (bs ≡ xs ++ b ∷ ys)
      × (b.header.lsn ≡ lsn)
Consecutive-find lsn last [] h less most = absurd (omega (arith, less, most))
Consecutive-find lsn last (b ∷ bs) h less most = elim (Bool-cases (lsn == last + 1)) [
  | inl e ↦ ([], b, bs, refl, ground (arith, e, h.0))
  | inr e ↦
      let (xs, c, ys, k, v) =
        Consecutive-find lsn (last + 1) bs h.1 (ground (arith, e, less)) (omega (arith, most)) in
      (b ∷ xs, c, ys, ap (λ t. b ∷ t) k, v)
]

-- What ensure_open_logfile leaves as it was, and the room that it makes in the file.
pub ensure_open_logfile-info :
    (l : Logger)
    → 0 < l.info.log_max_len
    → ((ensure_open_logfile l).info.waiting_txns ≡ l.info.waiting_txns)
      × ((ensure_open_logfile l).info.last_write_txn_id ≡ l.info.last_write_txn_id)
      × ((ensure_open_logfile l).info.next_lsn ≡ l.info.next_lsn)
      × ((ensure_open_logfile l).info.log_max_len ≡ l.info.log_max_len)
      × ((ensure_open_logfile l).info.log_len < l.info.log_max_len)
unfolding ensure_open_logfile advance_logfile open_logfile
ensure_open_logfile-info l h = ground arith

-- A write that succeeds keeps the queue consecutive, and moves past the buffers that it took.
pub written-IsQueued :
    (l : Logger) (taken left : List CommitBuffer) (len : ℕ)
    → IsQueued l.info
    → taken ++ left ≡ l.info.waiting_txns
    → IsQueued (written l (taken, left, len)).info
      × ((written l (taken, left, len)).info.last_write_txn_id
          ≡ l.info.last_write_txn_id + length taken)
unfolding written popped put_bytes
written-IsQueued l taken left len h q =
    let split =
      Consecutive-split l.info.last_write_txn_id taken left
        (subst (Consecutive l.info.last_write_txn_id) (sym q) h.in_order) in
    (
      record {
        in_order = subst (λ z. Consecutive z left) (sym split.0) split.1;
        all = omega (arith, h.all, split.0, length-append taken left, ap length q);
        room = h.room;
      },
      split.0,
    )
