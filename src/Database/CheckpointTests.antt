-- ===== src/Database/CheckpointTests.antt =====
-- stldb/Database.tcc: the theorems on checkpoints and close at a small database.
use stldb.Prelude.{ℕ, ◌<◌, ◌≡◌, refl, Bool, true, false, List, [], ◌∷◌, arith}
use stldb.FileUtil.Names.{same_name}
use stldb.Registry.{locked, Files, Registry}
use stldb.Database.Info.{DatabaseInfo, put_lsn, lsn_of}
use stldb.Database.Checkpoints.{
  Gap, saving, before_sync, before_commit, Event, writes, syncs, happen, stops, Progress,
  finish_checkpoint, checkpoint_one, checkpoint_each, checkpoint,
}
use stldb.Logger.Log.{sync_log}
use stldb.Database.Forgotten.{AreFrom, checkpoint_one-forgets}
use stldb.Database.Tests.{always, name, first_info}

-- Five transactions are in the log, and two more are written while the checkpoint is saved.
abbrev busy : DatabaseInfo
busy = record first_info {
  log_info = record first_info.log_info { last_write_txn_id = 5; last_sync_txn_id = 3 };
}

abbrev two_more : List ℕ → Gap → List Event
two_more n saving = writes 2 ∷ []
two_more n before_sync = []
two_more n before_commit = syncs ∷ []

abbrev saves_all : List ℕ → ℕ → Bool
saves_all n lsn = true

-- A checkpoint of it from LSN 5 to LSN 7 is committed.
busy_ends :
    (checkpoint always always saves_all always two_more (name ∷ []) busy).1.committed
    ≡ record {
      container_name = name;
      lsn_at_start = 5;
      lsn_at_end = 7;
      last_checkpoint_lsn = 0;
      last_sync_txn_id = 7;
    }
      ∷ []
unfolding checkpoint checkpoint_each checkpoint_one finish_checkpoint happen sync_log lsn_of put_lsn
    same_name
busy_ends = refl

abbrev never : List ℕ → Bool
never n = false

abbrev failed : Progress
failed = checkpoint_one always always saves_all never two_more name busy

lsn_of-busy : lsn_of name busy.ckpt_history_map < 5
unfolding lsn_of same_name
lsn_of-busy = omega arith

checkpoint_one-forgets_example :
    (failed.committed ≡ [])
    × (failed.ending ≡ stops)
    × AreFrom 5 (checkpoint_one always always saves_all always two_more name failed.info).committed
checkpoint_one-forgets_example =
    checkpoint_one-forgets always always saves_all never two_more name busy always always saves_all
      always two_more failed.info refl refl refl refl lsn_of-busy refl

-- Processes 3 and 5 have the database open, and 3 closes it.
abbrev shared : Registry
shared = record {
  registry_construct_complete = true;
  registry = 3 ∷ 5 ∷ [];
  database_construct_complete = true;
  database_invalid = false;
}

abbrev all_locked : Files
all_locked pid = locked

abbrev final : DatabaseInfo → Progress
final i = (checkpoint always always saves_all always two_more (name ∷ []) i).1
