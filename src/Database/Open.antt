-- ===== src/Database/Open.antt =====
-- stldb/Database.tcc: the constructor that opens or creates a database and recovers it as needed. The
-- registry's locks and the waiting of Windows for the other processes are left out. `sane` is
-- check_sanity of the region, `resized` the size that RegionResizer gives it, `load` and `recover_txn`
-- read the containers, and `reads` and `steps` are the fuel of recovery. No other process changes the
-- registry while the constructor runs.
use mathlib.Core.Option
use stldb.Prelude.{
  ℕ, ◌+◌, ◌%◌, ◌^◌, Bool, true, false, not, ◌&&◌, ◌||◌, Option, none, some, List, [], ◌∷◌, ◌==◌,
  ltb, if◌then◌else◌,
}
use stldb.Logging.{LogHeader}
use stldb.LogReader.{no_transaction}
use stldb.Recovery.{Recovered, recovered, logs_removed, recover}
use stldb.Checkpoint.File.{CheckpointFileInfo}
use stldb.Registry.{
  Files, Registry, new_registry, is_valid, connected_pids, construction_complete, set_invalid,
  register_pid, check_need_for_recovery,
}
use stldb.Database.Info.{DatabaseInfo, Region, Arguments, find_or_construct_databaseinfo}
use stldb.Database.Load.{Loaded, load_containers}

-- How the constructor ends: with the database open, or with an exception. recovery_failed is that of
-- missing log records, logs_gone that of recover(), load_failed one of load_checkpoint.
pub data Opening : Type 0 where
  opened already_open recovery_needed load_failed logs_gone recovery_failed : Opening

-- The region, the lock files, and the ending that the constructor leaves.
pub record Opened (State : Type 0) : Type 0 where
  pub region : Region State
  pub files : Files
  pub ending : Opening

-- What is found on attaching to the region: whether it is to be built, and its registry.
pub record Attached (State : Type 0) : Type 0 where
  pub creating_region : Bool
  pub region : Region State
  pub registry : Registry
  pub files : Files

-- There is a container, whose opening starts with a safety check, as does the loading of containers.
abbrev pub has_any : List (List ℕ) → Bool
has_any [] = false
has_any (name ∷ names) = true

-- last_lsn < lsns.second, where no_transaction is -1, as is the end without a checkpoint.
abbrev pub is_short : ℕ → Option ℕ → Bool
is_short last_lsn none = false
is_short last_lsn (some end) = last_lsn == no_transaction || ltb last_lsn end

-- The LSNs after recovery.
unfoldable pub resume_at : ℕ → DatabaseInfo → DatabaseInfo
resume_at last_lsn i = record i {
  log_info = record i.log_info {
    next_lsn = (last_lsn + 1) % 2 ^ 64;
    last_write_txn_id = last_lsn;
    last_sync_txn_id = last_lsn;
  };
}

module _ {State : Type 0} where
  -- The region is resized unless it has the size asked for or another process is connected.
  abbrev pub resize_region : ℕ → (ℕ → ℕ → ℕ) → Attached State → Region State
  resize_region initial_size resized t =
      if connected_pids t.registry == 0 && not (initial_size == t.region.size)
      then record t.region { size = resized t.region.size initial_size }
      else t.region

  -- The region with its registry.
  abbrev pub with_registry : Registry → Region State → Region State
  with_registry g r = record r { registry = some g }

  -- The region as it is where the constructor ends before recovery.
  abbrev pub stopped_with : Registry → Region State → Files → DatabaseInfo → Opening → Opened State
  stopped_with g r files i e = record {
    region = with_registry g (record r { dbinfo = some i });
    files = files;
    ending = e;
  }

  -- What follows recovery.
  unfoldable pub after_recovery :
      Registry → Region State → Files → DatabaseInfo → Loaded State → Recovered State → Opened State
  unfolding resume_at
  after_recovery g r files i l logs_removed = record {
    region = with_registry g (record r { dbinfo = some i; containers = l.containers });
    files = files;
    ending = logs_gone;
  }
  after_recovery g r files i l (recovered s last_lsn e) =
      if is_short last_lsn l.recovery_end_lsn
      then record {
        region = with_registry (set_invalid true g) (record r { dbinfo = some i; containers = s });
        files = files;
        ending = recovery_failed;
      }
      else record {
        region =
            with_registry (construction_complete g)
              (record r { dbinfo = some (resume_at last_lsn i); containers = s });
        files = files;
        ending = opened;
      }

  module _ (can_remove : ℕ → Bool) (me : ℕ) (a : Arguments) (sane : Region State → Bool)
      (empty : State) where
    -- A region that was just created.
    abbrev pub fresh : Region State
    fresh = record { registry = none; dbinfo = none; size = a.initial_size; containers = empty }

    -- What follows the check of a region that has a registry.
    abbrev pub checked : Region State → Bool × (Registry × Files) → Attached State
    checked r c =
        if c.0 || not (sane r)
        then record {
          creating_region = true;
          region = fresh;
          registry = new_registry;
          files = c.1.1;
        }
        else record { creating_region = false; region = r; registry = c.1.0; files = c.1.1 }

    -- What follows the search for its registry.
    abbrev pub found_registry : Region State → Files → Option Registry → Attached State
    found_registry r files none = record {
      creating_region = true;
      region = r;
      registry = new_registry;
      files = files;
    }
    found_registry r files (some g) = checked r (check_need_for_recovery can_remove me g files)

    -- The region opened or created, and recreated if recovery is needed; then its registry.
    unfoldable pub attach : Option (Region State) → Files → Attached State
    unfolding check_need_for_recovery
    attach none files = found_registry fresh files none
    attach (some r) files = found_registry r files r.registry

    module _ (resized : ℕ → ℕ → ℕ) (load : List ℕ → CheckpointFileInfo → State → Option State)
        (recover_txn : State → LogHeader → List ℕ → State) (reads steps : ℕ)
        (current : List (List ℕ × CheckpointFileInfo)) (log_files : List (ℕ × List ℕ)) where
      -- What follows the loading of the containers.
      abbrev pub recover_loaded :
          Registry
          → Region State
          → Files
          → DatabaseInfo
          → Option (Loaded State)
          → Option (Opened State)
      recover_loaded g r files i none = some (stopped_with g r files i load_failed)
      recover_loaded g r files i (some l) =
          Option.map
            (after_recovery g r files (record i { ckpt_history_map = l.ckpt_history_map }) l)
            (recover recover_txn reads steps l.recovery_start_lsn log_files l.containers)

      -- The loading of the containers and the recovery of a region just built.
      unfoldable pub reload : Registry → Region State → Files → DatabaseInfo → Option (Opened State)
      unfolding load_containers after_recovery recover
      reload g r files i =
          recover_loaded g r files i
            (load_containers load current a.containers i.ckpt_history_map r.containers)

      -- What follows the registration: the database info, the containers, and the reload.
      unfoldable pub build : Bool → Registry → Region State → Files → Option (Opened State)
      unfolding find_or_construct_databaseinfo reload
      build creating_region g r files =
          let i = find_or_construct_databaseinfo a r.dbinfo in
          let loaded = reload g r files i in
          if not (is_valid g) && (creating_region || has_any a.containers)
          then some (stopped_with g r files i recovery_needed)
          else if creating_region
          then loaded
          else some (stopped_with g r files i opened)

      -- What follows register_pid.
      abbrev pub build_registered :
          Attached State → Region State → Option (Registry × Files) → Option (Opened State)
      build_registered t r none =
          some
            (record { region = with_registry t.registry r; files = t.files; ending = already_open })
      build_registered t r (some k) = build t.creating_region k.0 r k.1

      -- The constructor; none means that the fuel ran out.
      unfoldable pub open_database : Option (Region State) → Files → Option (Opened State)
      unfolding attach register_pid build
      open_database region files =
          let t = attach region files in
          build_registered t (resize_region a.initial_size resized t)
            (register_pid me t.registry t.files)
