-- ===== src/Registry/Disconnect.antt =====
-- database_registry.tcc: await_complete_disconnect. `others` says which calls and deaths of other
-- processes there are from the release of the registry's lock until it is held again, which is when
-- the lock file of the pid given is no longer locked. No process registers meanwhile, since the
-- caller holds the file lock of the database.
use stldb.Prelude.{ℕ, zero, suc, Bool, not, Option, none, some, List, [], ◌∷◌, if◌then◌else◌}
use stldb.Registry.{
  unlocked, Files, Registry, set_at, is_registered, unregister_pid, check_need_for_recovery,
}

pub data Leave : Type 0 where
  unregisters dies : ℕ → Leave

-- How await_complete_disconnect ends, with the registry and the files that it leaves;
-- usage_error is the stldb_exception for the caller's own pid.
pub data Awaited : Type 0 where
  disconnected : Registry → Files → Awaited
  usage_error : Awaited

module _ (can_remove : ℕ → Bool) where
  unfoldable pub leave : List Leave → Registry × Files → Registry × Files
  leave [] s = s
  leave (unregisters pid ∷ more) s = leave more (unregister_pid can_remove pid s.0 s.1)
  leave (dies pid ∷ more) s = leave more (s.0, set_at pid unlocked s.1)

  module _ (others : ℕ → Registry → Files → List Leave) (me : ℕ) where
    -- flock.lock() on the file of the pid, and held_lock.lock() after it.
    abbrev pub wait : ℕ → Registry → Files → Registry × Files
    wait pid r files = leave (others pid r files) (r, files)

    -- The check at the end of a round.
    unfoldable pub after_wait : ℕ → Registry → Files → Registry × Files
    unfolding leave check_need_for_recovery
    after_wait pid r files =
        (check_need_for_recovery can_remove me (wait pid r files).0 (wait pid r files).1).1

    unfoldable pub await_pids : ℕ → Registry → Files → Option Awaited
    unfolding after_wait is_registered
    await_pids zero r files = elim r.registry [
      | [] ↦ some (disconnected r files)
      | pid ∷ pids ↦ if is_registered me r.registry then some usage_error else none
    ]
    await_pids (suc n) r files = elim r.registry [
      | [] ↦ some (disconnected r files)
      | pid ∷ pids ↦
          let rest = await_pids n (after_wait pid r files).0 (after_wait pid r files).1 in
          if is_registered me r.registry then some usage_error else rest
    ]

    unfoldable pub await_complete_disconnect : ℕ → Registry → Files → Option Awaited
    unfolding await_pids
    await_complete_disconnect n r files =
        if not r.registry_construct_complete
        then some (disconnected r files)
        else await_pids n r files
