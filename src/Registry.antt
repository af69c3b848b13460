-- ===== src/Registry.antt =====
-- stldb/database_registry.h and database_registry.tcc: which processes have a database open, and
-- whether its region is in need of recovery. A process holds a lock on the file of its pid while it
-- has the database open, and the operating system releases the lock when it dies. `can_remove` says
-- of which of these files the removal succeeds. The calls are made under the registry's file lock.
pub mod Check
pub mod Kept
pub mod Need
pub mod Pids
pub mod Absent
pub mod Registered
pub mod Steps
pub mod Reach
pub mod Detect
pub mod Disconnect
pub mod Round
pub mod Await
mod Tests
use stldb.Prelude.{
  ℕ, zero, suc, Bool, true, false, not, ◌||◌, Option, none, some, List, [], ◌∷◌, ◌++◌, ◌==◌,
  if◌then◌else◌, length,
}

-- The lock file of a pid, as another process finds it.
pub data LockFile : Type 0 where
  absent unlocked locked : LockFile

abbrev pub Files : Type 0
Files = ℕ → LockFile

abbrev pub set_at {ℓ} : {A : Type ℓ} → ℕ → A → (ℕ → A) → ℕ → A
set_at pid a files q = if pid == q then a else files q

pub record Registry : Type 0 where
  pub registry_construct_complete : Bool
  pub registry : List ℕ
  pub database_construct_complete : Bool
  pub database_invalid : Bool

-- database_registry()
abbrev pub new_registry : Registry
new_registry = record {
  registry_construct_complete = true;
  registry = [];
  database_construct_complete = false;
  database_invalid = false;
}

abbrev pub is_valid : Registry → Bool
is_valid r = not r.registry_construct_complete || not r.database_invalid

abbrev pub connected_pids : Registry → ℕ
connected_pids r = length r.registry

abbrev pub attached_pids : Registry → ℕ
attached_pids r = if not r.registry_construct_complete then 0 else length r.registry

abbrev pub construction_complete : Registry → Registry
construction_complete r = record r { database_construct_complete = true }

abbrev pub set_invalid : Bool → Registry → Registry
set_invalid value r = record r { database_invalid = value }

-- std::find over the pids.
unfoldable pub is_registered : ℕ → List ℕ → Bool
is_registered pid [] = false
is_registered pid (p ∷ pids) = (p == pid) || is_registered pid pids

-- erase of the pid that std::find comes to.
unfoldable pub erase_pid : ℕ → List ℕ → List ℕ
erase_pid pid [] = []
erase_pid pid (p ∷ pids) = let rest = erase_pid pid pids in if p == pid then pids else p ∷ rest

-- register_pid of the process; `none` is the stldb_exception for a pid that is there already.
unfoldable pub register_pid : ℕ → Registry → Files → Option (Registry × Files)
unfolding is_registered
register_pid me r files =
    if is_registered me r.registry
    then none
    else some (record r { registry = r.registry ++ (me ∷ []) }, set_at me locked files)

-- What the tests of CheckLock change: *invalid_ind, and the files.
pub record Checked : Type 0 where
  pub invalid_ind : Bool
  pub files : Files

module _ (can_remove : ℕ → Bool) where
  -- boost::filesystem::remove, whose error is caught.
  abbrev pub remove_lock_file : ℕ → Files → Files
  remove_lock_file pid files = if can_remove pid then set_at pid absent files else files

  unfoldable pub unregister_pid : ℕ → Registry → Files → Registry × Files
  unfolding erase_pid
  unregister_pid me r files = (
    record r { registry = erase_pid me r.registry },
    remove_lock_file me (set_at me unlocked files),
  )

  -- CheckLock: whether the process is no longer connected.
  unfoldable pub check_lock : ℕ → ℕ → Checked → Bool × Checked
  check_lock me pid c = if pid == me then (false, c) else elim (c.files pid) [
    | absent ↦ (true, c)
    | locked ↦ (false, c)
    | unlocked ↦ (true, record { invalid_ind = true; files = remove_lock_file pid c.files })
  ]

  -- std::remove_if with CheckLock: the pids that stay.
  unfoldable pub remove_if : ℕ → List ℕ → Checked → List ℕ × Checked
  unfolding check_lock
  remove_if me [] c = ([], c)
  remove_if me (pid ∷ pids) c =
      let this = check_lock me pid c in
      let later = remove_if me pids this.1 in (if this.0 then later.0 else pid ∷ later.0, later.1)

  -- check_need_for_recovery by the process: what it returns, and what it leaves.
  unfoldable pub check_need_for_recovery : ℕ → Registry → Files → Bool × (Registry × Files)
  unfolding remove_if
  check_need_for_recovery me r files =
      if not r.registry_construct_complete then (true, (r, files)) else (
        not (length kept.0 == length r.registry)
            || (kept.1.invalid_ind || not r.database_construct_complete),
        (record r { registry = kept.0; database_invalid = kept.1.invalid_ind }, kept.1.files),
      )
    where
      kept : List ℕ × Checked
      kept = remove_if me r.registry (record { invalid_ind = r.database_invalid; files = files })
