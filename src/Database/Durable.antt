-- ===== src/Database/Durable.antt =====
-- stldb/Database.tcc: a checkpoint is committed only with the log it needs on disk.
use stldb.Prelude.{ℕ, ◌≤◌, ◌<◌, Bool, List, [], ◌∷◌}
use stldb.Logger.State.{SharedLogInfo}
use stldb.Database.Info.{DatabaseInfo}
use stldb.Database.Checkpoints.{Gap, Event, Committed, Progress}

-- The LSNs of a log only grow.
record Grows (i j : SharedLogInfo) : Type 0 where
  written : i.last_write_txn_id ≤ j.last_write_txn_id
  synced : i.last_sync_txn_id ≤ j.last_sync_txn_id

-- The checkpoint starts no earlier than the LSN given, which is after the last one of its container,
-- it ends no earlier than it starts, and the log is on disk up to its end.
pub record IsDurable (from : ℕ) (c : Committed) : Type 0 where
  start : from ≤ c.lsn_at_start
  newer : c.last_checkpoint_lsn < c.lsn_at_start
  ordered : c.lsn_at_start ≤ c.lsn_at_end
  synced : c.lsn_at_end ≤ c.last_sync_txn_id

abbrev pub AreDurable : ℕ → List Committed → Type 0
AreDurable from [] = Unit {0}
AreDurable from (c ∷ cs) = IsDurable from c × AreDurable from cs

module _ (valid opens : List ℕ → Bool) (saves : List ℕ → ℕ → Bool) (commits : List ℕ → Bool)
    (others : List ℕ → Gap → List Event) where
  -- What a part of the loop leaves, from an info: a log that has grown, and durable checkpoints.
  record IsKept (from : ℕ) (i : DatabaseInfo) (p : Progress) : Type 0 where
    grown : i.log_info.last_write_txn_id ≤ p.info.log_info.last_write_txn_id
    durable : AreDurable from p.committed
