-- ===== src/Database/Checkpoints.antt =====
-- stldb/Database.tcc: checkpoint(). Its locks are released between the steps for a container, and what
-- other transactions do then is a list of events for each of these places. `valid`, `opens`, `saves` and
-- `commits` say, for a container, whether the safety check, the constructor of checkpoint_ofstream,
-- save_checkpoint and the commit of the file return, or throw.
use stldb.Prelude.{ℕ, ◌+◌, Bool, not, List, [], ◌∷◌, ltb, ◌++◌, if◌then◌else◌}
use stldb.Logger.State.{SharedLogInfo}
use stldb.Logger.Write.{advance_logfile}
use stldb.Logger.Log.{sync_log}
use stldb.Database.Info.{DatabaseInfo, put_lsn, lsn_of}

-- The places without a lock: while the entries are saved, before the log is synced, and before the
-- checkpoint is committed.
pub data Gap : Type 0 where
  saving before_sync before_commit : Gap

-- The next buffers of the log are written, so many of them, or the log is synced.
pub data Event : Type 0 where
  writes : ℕ → Event
  syncs : Event

unfoldable pub happen : List Event → SharedLogInfo → SharedLogInfo
unfolding sync_log
happen [] i = i
happen (writes n ∷ es) i = happen es (record i { last_write_txn_id = i.last_write_txn_id + n })
happen (syncs ∷ es) i = happen es (sync_log i)

-- A checkpoint that is committed: its LSNs, the LSN from which save_checkpoint saved the changes, and
-- the LSN up to which the log is synced when the commit starts.
pub record Committed : Type 0 where
  pub container_name : List ℕ
  pub lsn_at_start : ℕ
  pub lsn_at_end : ℕ
  pub last_checkpoint_lsn : ℕ
  pub last_sync_txn_id : ℕ

-- How the work on a container ends: the loop goes on, or an exception leaves checkpoint().
pub data LoopEnd : Type 0 where
  goes_on stops : LoopEnd

pub record Progress : Type 0 where
  pub info : DatabaseInfo
  pub committed : List Committed
  pub ending : LoopEnd

-- The sync of the log, unless it is synced up to end_lsn.
abbrev pub sync_to : ℕ → DatabaseInfo → DatabaseInfo
sync_to end_lsn i = record i {
  log_info = if ltb i.log_info.last_sync_txn_id end_lsn then sync_log i.log_info else i.log_info;
}

module _ (valid opens : List ℕ → Bool) (saves : List ℕ → ℕ → Bool) (commits : List ℕ → Bool)
    (others : List ℕ → Gap → List Event) where
  -- The info after the events at a place.
  abbrev pub meanwhile : List ℕ → Gap → DatabaseInfo → DatabaseInfo
  meanwhile name p i = record i { log_info = happen (others name p) i.log_info }

  -- What follows save_checkpoint: the history, the sync and the commit.
  unfoldable pub finish_checkpoint : List ℕ → ℕ → ℕ → DatabaseInfo → Progress
  unfolding put_lsn happen sync_log
  finish_checkpoint name my_start_lsn last_checkpoint_lsn i =
      let marked = record i { ckpt_history_map = put_lsn name my_start_lsn i.ckpt_history_map } in
      let end_lsn = i.log_info.last_write_txn_id in
      let synced =
        meanwhile name before_commit (sync_to end_lsn (meanwhile name before_sync marked)) in
      if not (commits name)
      then record { info = synced; committed = []; ending = stops }
      else record {
        info = synced;
        committed =
            record {
              container_name = name;
              lsn_at_start = my_start_lsn;
              lsn_at_end = end_lsn;
              last_checkpoint_lsn = last_checkpoint_lsn;
              last_sync_txn_id = synced.log_info.last_sync_txn_id;
            }
            ∷ [];
        ending = goes_on;
      }

  -- A round of the loop.
  unfoldable pub checkpoint_one : List ℕ → DatabaseInfo → Progress
  unfolding lsn_of finish_checkpoint
  checkpoint_one name i =
      let my_start_lsn = i.log_info.last_write_txn_id in
      let last_checkpoint_lsn = lsn_of name i.ckpt_history_map in
      let saved = meanwhile name saving i in
      if not (valid name)
      then record { info = i; committed = []; ending = stops }
      else if not (ltb last_checkpoint_lsn my_start_lsn)
      then record { info = i; committed = []; ending = goes_on }
      else if not (opens name)
      then record { info = i; committed = []; ending = stops }
      else if not (saves name last_checkpoint_lsn)
      then record { info = saved; committed = []; ending = goes_on }
      else finish_checkpoint name my_start_lsn last_checkpoint_lsn saved

  -- The loop: `rest` is what the other containers come to.
  abbrev pub then_rest : (DatabaseInfo → Progress) → Progress → LoopEnd → Progress
  then_rest rest p stops = p
  then_rest rest p goes_on = record {
    info = (rest p.info).info;
    committed = p.committed ++ (rest p.info).committed;
    ending = (rest p.info).ending;
  }

  unfoldable pub checkpoint_each : List (List ℕ) → DatabaseInfo → Progress
  unfolding checkpoint_one
  checkpoint_each [] i = record { info = i; committed = []; ending = goes_on }
  checkpoint_each (name ∷ names) i =
      let p = checkpoint_one name i in then_rest (checkpoint_each names) p p.ending

  -- checkpoint(), once the first safety check has passed: what it returns beside what it leaves.
  unfoldable pub checkpoint : List (List ℕ) → DatabaseInfo → ℕ × Progress
  unfolding checkpoint_each advance_logfile
  checkpoint names i = (
    i.log_info.last_write_txn_id,
    checkpoint_each names (record i { log_info = advance_logfile i.log_info }),
  )
