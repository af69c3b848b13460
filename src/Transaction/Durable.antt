-- ===== src/Transaction/Durable.antt =====
-- stldb/transaction.h: what a commit that returns has done.
use stldb.Prelude.{
  ℕ, ◌≡◌, refl, ap, ◌∙◌, Bool, true, false, ◌||◌, Option, none, some, List, [], ◌∷◌, length, arith,
  if◌then◌else◌, Result, ok, throw, Exception, ◌>>=◌, ◌==◌,
}
use stldb.TransMap.Rows.{Comparator}
use stldb.TransMap.Op.{
  TransMap, MapOp, map_lock, map_insert, map_update, map_delete, map_deleted_insert, LogRecord,
  op_to_log, add_to_log,
}
use stldb.Logging.{no_header}
use stldb.Logger.State.{
  CommitBuffer, Logger, record_diskless_commit, queue_for_commit, enqueue, prepare_header,
  finalize_header,
}
use stldb.Logger.Log.{log}
use stldb.Transaction.{
  Transaction, Ending, finished, failed, after_log, queue_and_log, log_and_apply, commit,
}

module _ {K V : Type 0} ⦃c : Comparator K⦄ where
  abbrev AreLocks : List (MapOp K V) → Type 0
  AreLocks [] = Unit {0}
  AreLocks (map_lock id op k ∷ ops) = AreLocks ops
  AreLocks (map_insert k ∷ ops) = ⊥
  AreLocks (map_update id op k v ∷ ops) = ⊥
  AreLocks (map_delete id op k ∷ ops) = ⊥
  AreLocks (map_deleted_insert id op k ∷ ops) = ⊥

  add_to_log-locks :
      (ops : List (MapOp K V)) (m : TransMap K V) → AreLocks ops → add_to_log ops m ≡ ok []
  unfolding add_to_log op_to_log
  add_to_log-locks [] m h = refl
  add_to_log-locks (map_lock id op k ∷ ops) m h =
      ap (λ (r : Result (List (LogRecord K V))). r >>= λ rest. ok rest) (add_to_log-locks ops m h)
  add_to_log-locks (map_insert k ∷ ops) m h = absurd h
  add_to_log-locks (map_update id op k v ∷ ops) m h = absurd h
  add_to_log-locks (map_delete id op k ∷ ops) m h = absurd h
  add_to_log-locks (map_deleted_insert id op k ∷ ops) m h = absurd h

  module _ (serialize : List (LogRecord K V) → List ℕ) (fuel : ℕ) (t : Transaction K V)
      (l : Logger) where
    buffer_of : List (LogRecord K V) → CommitBuffer
    buffer_of rs = record { bytes = serialize rs; op_count = length rs; header = no_header }

    -- A transaction with operations is logged before they are applied.
    commit-logged :
        (op : MapOp K V) (ops : List (MapOp K V)) (rs : List (LogRecord K V))
        → t.session.ops ≡ op ∷ ops
        → add_to_log t.session.ops t.session.map ≡ ok rs
        → commit serialize false fuel t l ≡ queue_and_log fuel (buffer_of rs) t l
    unfolding commit log_and_apply buffer_of
    commit-logged op ops rs some_ops logs =
        ap
          (λ (xs : List (MapOp K V)). elim xs [
            | [] ↦ some (t, record l { info = record_diskless_commit l.info }, finished)
            | x ∷ rest ↦ log_and_apply serialize fuel t l
          ])
          some_ops
        ∙ ap
            (λ (r : Result (List (LogRecord K V))). elim r [
              | ok rs ↦ queue_and_log fuel (buffer_of rs) t l
              | throw e ↦ some (t, l, failed e)
            ])
            logs

    unless_refused : CommitBuffer → Bool → Option (Transaction K V × Logger × Ending)
    unless_refused b c = elim (if c then none else some (enqueue (prepare_header b) l.info)) [
      | none ↦ some (t, l, failed Exception.io_failure)
      | some q ↦ after_log (record t { commit_lsn = q.1 }) (log fuel q.1 (record l { info = q.0 }))
    ]

    -- The buffer is refused if it holds nothing, and else queued.
    queue_and_log-refused :
        (b : CommitBuffer)
        → b.op_count ≡ 0
        → queue_and_log fuel b t l ≡ some (t, l, failed Exception.io_failure)
    unfolding queue_and_log queue_for_commit unless_refused
    queue_and_log-refused b h =
        let test : ((length b.bytes == 0) || (b.op_count == 0)) ≡ true = ground (arith, h) in
        ap (unless_refused b) test

  -- The commit, with the log, of a transaction that has only locked entries throws
  -- std::ios_base::failure, and leaves the container, the log and the transaction as they were: the
  -- locks are still held.
  pub commit-AreLocks :
      (serialize : List (LogRecord K V) → List ℕ) (fuel : ℕ) (t : Transaction K V) (l : Logger)
      (op : MapOp K V) (ops : List (MapOp K V))
      → t.session.ops ≡ op ∷ ops
      → AreLocks t.session.ops
      → commit serialize false fuel t l ≡ some (t, l, failed Exception.io_failure)
  unfolding buffer_of
  commit-AreLocks serialize fuel t l op ops e h =
      commit-logged serialize fuel t l op ops [] e (add_to_log-locks t.session.ops t.session.map h)
      ∙ queue_and_log-refused serialize fuel t l (buffer_of serialize fuel t l []) refl

  -- The commit buffer of these records, with its header.
  abbrev pub committed_buffer :
      (List (LogRecord K V) → List ℕ) → ℕ → List (LogRecord K V) → CommitBuffer
  committed_buffer serialize lsn rs =
      finalize_header lsn
        (prepare_header (record { bytes = serialize rs; op_count = length rs; header = no_header }))
