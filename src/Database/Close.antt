-- ===== src/Database/Close.antt =====
-- stldb/Database.tcc: close and check_integrity. The region is flushed and unmapped by calls of close
-- that are left out. No other process changes the registry during the final checkpoint, while its lock
-- is released.
use stldb.Prelude.{ℕ, ◌≡◌, Bool, true, false, not, ◌&&◌, ◌||◌, ◌==◌, if◌then◌else◌}
use stldb.Registry.{
  Files, Registry, is_valid, attached_pids, is_registered, unregister_pid, check_need_for_recovery,
}
use stldb.Database.Info.{DatabaseInfo}
use stldb.Database.Checkpoints.{Progress, LoopEnd, goes_on, stops}

-- How close ends: returned, or with an exception of the final checkpoint.
pub data Closing : Type 0 where
  closed checkpoint_failed : Closing

pub record Closed : Type 0 where
  pub registry : Registry
  pub files : Files
  pub info : DatabaseInfo
  pub ending : Closing

module _ (can_remove : ℕ → Bool) (me : ℕ) where
  -- check_integrity, with check_sanity of the region: what it returns, and what it leaves.
  unfoldable pub check_integrity : Bool → Registry → Files → Bool × (Registry × Files)
  unfolding check_need_for_recovery
  check_integrity sane g files =
      let checked = check_need_for_recovery can_remove me g files in
      if not (is_valid g) then (false, (g, files)) else (not (checked.0 || not sane), checked.1)

  -- A final checkpoint is taken by the last process that has the database open.
  abbrev is_last : Bool → Registry → Bool
  is_last final_checkpoint g = is_valid g && (attached_pids g == 1 && final_checkpoint)

  -- The end of close.
  unfoldable pub unregister : Registry → Files → DatabaseInfo → Closed
  unfolding unregister_pid
  unregister g files i = record {
    registry = (unregister_pid can_remove me g files).0;
    files = (unregister_pid can_remove me g files).1;
    info = i;
    ending = closed;
  }

  -- What follows the final checkpoint.
  abbrev after_checkpoint : Registry → Files → Progress → LoopEnd → Closed
  after_checkpoint g files p goes_on = unregister g files p.info
  after_checkpoint g files p stops = record {
    registry = g;
    files = files;
    info = p.info;
    ending = checkpoint_failed;
  }

  -- close; `checkpoint` is the final checkpoint.
  unfoldable pub close : (DatabaseInfo → Progress) → Bool → Registry → Files → DatabaseInfo → Closed
  unfolding unregister
  close checkpoint final_checkpoint g files i =
      let p = checkpoint i in
      if is_last final_checkpoint g
      then after_checkpoint g files p p.ending
      else unregister g files i

module _ (can_remove : ℕ → Bool) (me : ℕ) where
  -- How the process is registered after each ending.
  abbrev pub IsLeft : Registry → Closing → Registry → Type 0
  IsLeft g closed r = is_registered me r.registry ≡ false
  IsLeft g checkpoint_failed r = r ≡ g

  -- The region keeps its integrity, as every process sees it.
  abbrev pub KeepsIntegrity : Registry → Closed → Type 0
  KeepsIntegrity g c =
      ((q : ℕ)
        → check_integrity can_remove q true c.registry c.files ≡ (true, (c.registry, c.files)))
      × IsLeft g c.ending c.registry
