-- ===== src/Database/Load.antt =====
-- stldb/Database.tcc: load_containers. `load` is load_checkpoint of the container, on the contents of all
-- containers; `none` of it is an exception. An LSN of recovery_end_lsn is none for the -1 that it starts with.
use stldb.Prelude.{ℕ, ◌-◌, ◌^◌, Option, none, some, List, [], ◌∷◌, ltb, if◌then◌else◌}
use stldb.Checkpoint.File.{CheckpointFileInfo}
use stldb.FileUtil.Files.{find}
use stldb.Database.Info.{put_lsn}

-- std::numeric_limits<transaction_id_t>::max()
abbrev pub max_lsn : ℕ
max_lsn = 2 ^ 63 - 1

pub record Loaded (State : Type 0) : Type 0 where
  pub recovery_start_lsn : ℕ
  pub recovery_end_lsn : Option ℕ
  pub ckpt_history_map : List (List ℕ × ℕ)
  pub container_lsn : List (List ℕ × ℕ)
  pub containers : State

-- The later of an LSN and recovery_end_lsn.
abbrev pub later_end : ℕ → Option ℕ → ℕ
later_end lsn none = lsn
later_end lsn (some end) = if ltb end lsn then lsn else end

module _ {State : Type 0} where
  -- The loop's body, before and after load_checkpoint, for a container with a checkpoint.
  unfoldable pub count_checkpoint :
      List ℕ → CheckpointFileInfo → State → Loaded State → Loaded State
  unfolding put_lsn
  count_checkpoint name c s l = record {
    recovery_start_lsn =
        if ltb c.lsn_at_start l.recovery_start_lsn then c.lsn_at_start else l.recovery_start_lsn;
    recovery_end_lsn = some (later_end c.lsn_at_end l.recovery_end_lsn);
    ckpt_history_map = put_lsn name c.lsn_at_start l.ckpt_history_map;
    container_lsn = put_lsn name c.lsn_at_start l.container_lsn;
    containers = s;
  }

  -- For a container without one.
  unfoldable pub count_missing : List ℕ → Loaded State → Loaded State
  unfolding put_lsn
  count_missing name l = record l {
    recovery_start_lsn = 0;
    ckpt_history_map = put_lsn name 0 l.ckpt_history_map;
    container_lsn = put_lsn name 0 l.container_lsn;
  }

module _ {State : Type 0} (load : List ℕ → CheckpointFileInfo → State → Option State)
    (current : List (List ℕ × CheckpointFileInfo)) where
  -- What follows load_checkpoint: `rest` is the loop over the other containers.
  abbrev pub load_next :
      (Loaded State → Option (Loaded State))
      → List ℕ
      → CheckpointFileInfo
      → Loaded State
      → Option State
      → Option (Loaded State)
  load_next rest name c l none = none
  load_next rest name c l (some s) = rest (count_checkpoint name c s l)

  -- What follows the search for the container's current checkpoint.
  abbrev pub load_found :
      (Loaded State → Option (Loaded State))
      → List ℕ
      → Loaded State
      → Option CheckpointFileInfo
      → Option (Loaded State)
  load_found rest name l none = rest (count_missing name l)
  load_found rest name l (some c) = load_next rest name c l (load name c l.containers)

  -- The loop over the containers.
  unfoldable pub load_each : List (List ℕ) → Loaded State → Option (Loaded State)
  unfolding find count_checkpoint count_missing
  load_each [] l = some l
  load_each (name ∷ names) l = load_found (load_each names) name l (find name current)

  -- load_containers, from the ckpt_history_map of the region.
  unfoldable pub load_containers : List (List ℕ) → List (List ℕ × ℕ) → State → Option (Loaded State)
  unfolding load_each
  load_containers names history s = load_each names (record {
    recovery_start_lsn = max_lsn;
    recovery_end_lsn = none;
    ckpt_history_map = history;
    container_lsn = [];
    containers = s;
  })
