-- ===== src/Transaction.antt =====
-- stldb/transaction.h: the commit and the rollback of a transaction on one container. The archive
-- that operations are serialized with is the parameter `serialize`. The locks on containers, taken
-- before the operations are applied and released after, and the lock on the database are left out.
pub mod Durable
mod Tests
use stldb.Prelude.{
  ℕ, zero, suc, Bool, true, false, Option, none, some, List, [], ◌∷◌, length, if◌then◌else◌, Result,
  ok, throw, Exception,
}
use stldb.TransMap.Rows.{Comparator}
use stldb.TransMap.Op.{TransMap, MapOp, LogRecord, commit_all, rollback_all, add_to_log}
use stldb.TransMap.Calls.{Session}
use stldb.Logging.{no_header}
use stldb.Logger.State.{CommitBuffer, Logger, Outcome, queue_for_commit, record_diskless_commit}
use stldb.Logger.State
use stldb.Logger.Log.{log}

-- The transaction and its container, with _commit_lsn.
pub record Transaction (K V : Type 0) : Type 0 where
  pub session : Session K V
  pub commit_lsn : ℕ

-- How a commit or a rollback ends; the state after it comes beside. An exception that commit_all
-- or rollback_all throws is a dereference of a row that is gone, after which no state is claimed.
pub data Ending : Type 0 where
  finished : Ending
  failed : Exception → Ending

module _ {K V : Type 0} where
  -- clear
  unfoldable pub clear : Session K V → Session K V
  clear s = record s { ops = []; pending = [] }

module _ {K V : Type 0} ⦃c : Comparator K⦄ where
  -- Phase 3 of commit, and the cleaning up.
  unfoldable pub apply_ops : Transaction K V → Transaction K V × Ending
  unfolding commit_all clear
  apply_ops t = elim (commit_all t.commit_lsn t.session.ops t.session.map) [
    | ok m ↦ (record t { session = clear (record t.session { map = m }) }, finished)
    | throw e ↦ (t, failed e)
  ]

  -- What follows the call of log().
  abbrev pub after_log :
      Transaction K V → Option (Logger × Outcome) → Option (Transaction K V × Logger × Ending)
  after_log t none = none
  after_log t (some (l, State.io_failure)) = some (t, l, failed Exception.io_failure)
  after_log t (some (l, State.done)) = (let (t', e) = apply_ops t in some (t', l, e))

  -- Phase 2 of commit: the place in the queue, and the log.
  unfoldable pub queue_and_log :
      ℕ → CommitBuffer → Transaction K V → Logger → Option (Transaction K V × Logger × Ending)
  unfolding queue_for_commit log apply_ops
  queue_and_log fuel buffer t l = elim (queue_for_commit buffer l.info) [
    | none ↦ some (t, l, failed Exception.io_failure)
    | some q ↦ after_log (record t { commit_lsn = q.1 }) (log fuel q.1 (record l { info = q.0 }))
  ]

  -- commit() of a transaction with operations, with the log.
  unfoldable pub log_and_apply :
      (List (LogRecord K V) → List ℕ)
      → ℕ
      → Transaction K V
      → Logger
      → Option (Transaction K V × Logger × Ending)
  unfolding queue_and_log add_to_log
  log_and_apply serialize fuel t l = elim (add_to_log t.session.ops t.session.map) [
    | ok rs ↦
        queue_and_log fuel
          (record { bytes = serialize rs; op_count = length rs; header = no_header }) t l
    | throw e ↦ some (t, l, failed e)
  ]

  -- commit, on fuel for log().
  unfoldable pub commit :
      (List (LogRecord K V) → List ℕ)
      → Bool
      → ℕ
      → Transaction K V
      → Logger
      → Option (Transaction K V × Logger × Ending)
  unfolding log_and_apply record_diskless_commit apply_ops
  commit serialize diskless fuel t l = elim t.session.ops [
    | [] ↦ some (t, record l { info = record_diskless_commit l.info }, finished)
    | op ∷ ops ↦
        if diskless
        then (let (t', e) = apply_ops t in
            some (t', record l { info = record_diskless_commit l.info }, e))
        else log_and_apply serialize fuel t l
  ]

  -- rollback
  unfoldable rollback : Transaction K V → Transaction K V × Ending
  unfolding rollback_all clear
  rollback t = elim (rollback_all t.session.ops t.session.map) [
    | ok m ↦ (record t { session = clear (record t.session { map = m }) }, finished)
    | throw e ↦ (t, failed e)
  ]
