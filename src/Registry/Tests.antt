-- ===== src/Registry/Tests.antt =====
-- database_registry.tcc: the theorems at small registries.
use stldb.Prelude.{ℕ, ◌≡◌, ◌≢◌, refl, Bool, true, false, some, List, [], ◌∷◌, arith}
use stldb.Registry.{
  absent, unlocked, locked, Files, Registry, set_at, is_valid, connected_pids, is_registered,
  register_pid, unregister_pid, check_need_for_recovery,
}
use stldb.Registry.Need.{IsSound, check_need_for_recovery-exact}
use stldb.Registry.Absent.{HaveNoUnlocked, check_need_for_recovery-forgets}
use stldb.Registry.Steps.{World, start, Step, opens, dies, here, next}
use stldb.Registry.Detect.{died-detected}
use stldb.Registry.Disconnect.{
  Leave, unregisters, disconnected, usage_error, leave, wait, await_complete_disconnect,
}
use stldb.Registry.Await.{await_complete_disconnect-returns}

abbrev always : ℕ → Bool
always pid = true

-- Processes 3 and 5 have the database open.
abbrev shared : Registry
shared = record {
  registry_construct_complete = true;
  registry = 3 ∷ 5 ∷ [];
  database_construct_complete = true;
  database_invalid = false;
}

abbrev all_locked : Files
all_locked pid = locked

check_need_for_recovery-exact_example :
    ((check_need_for_recovery always 3 shared all_locked).0 ≡ false → IsSound 3 shared all_locked)
    × (IsSound 3 shared all_locked
        → check_need_for_recovery always 3 shared all_locked ≡ (false, (shared, all_locked)))
check_need_for_recovery-exact_example = check_need_for_recovery-exact always 3 shared all_locked

-- The file of process 5 is missing.
abbrev missing_5 : Files
missing_5 = set_at 5 absent all_locked

missing_5-HaveNoUnlocked : HaveNoUnlocked 3 (3 ∷ 5 ∷ []) missing_5
missing_5-HaveNoUnlocked q r = ground arith

is_registered-shared : is_registered 5 (3 ∷ 5 ∷ []) ≡ true
unfolding is_registered
is_registered-shared = refl

five_ne_three : ◌≢◌ {A = ℕ} 5 3
five_ne_three e = omega (arith, e)

check_need_for_recovery-forgets_example :
    ((check_need_for_recovery always 3 shared missing_5).0 ≡ true)
    × (is_valid (check_need_for_recovery always 3 shared missing_5).1.0 ≡ true)
    × ((check_need_for_recovery always 3
          (check_need_for_recovery always 3 shared missing_5).1.0
          (check_need_for_recovery always 3 shared missing_5).1.1).0
        ≡ false)
check_need_for_recovery-forgets_example =
    check_need_for_recovery-forgets always 3 shared missing_5 5 refl refl refl
      missing_5-HaveNoUnlocked is_registered-shared five_ne_three refl

abbrev no_files : Files
no_files pid = absent

-- Process 7 opened the database.
abbrev one_open : World
one_open = record (start no_files) {
  registry = record (start no_files).registry { registry = 7 ∷ [] };
  files = set_at 7 locked no_files;
  running = set_at 7 true (start no_files).running;
}

-- It died.
abbrev one_dead : World
one_dead = record one_open {
  files = set_at 7 unlocked one_open.files;
  running = set_at 7 false one_open.running;
  died = set_at 7 true one_open.died;
}

start-opens : Step always (start no_files) one_open
unfolding register_pid
start-opens = opens 7 _ _ refl refl refl

opens-dies : Step always one_open one_dead
opens-dies = dies 7 refl refl

seven_ne_nine : ◌≢◌ {A = ℕ} 7 9
seven_ne_nine e = omega (arith, e)

died-detected_example :
    ((check_need_for_recovery always 9 one_dead.registry one_dead.files).0 ≡ true)
    × (is_valid (check_need_for_recovery always 9 one_dead.registry one_dead.files).1.0 ≡ false)
died-detected_example =
    died-detected always no_files one_dead 7 9 (next (next here start-opens) opens-dies) refl
      seven_ne_nine

-- The process that is waited for closes the database.
abbrev closes_it : ℕ → Registry → Files → List Leave
closes_it pid r files = unregisters pid ∷ []

closes_it-releases :
    (pid : ℕ) (q : Registry) (f : Files) → (wait always closes_it 9 pid q f).1 pid ≢ locked
unfolding leave unregister_pid
closes_it-releases pid q f e = ground (arith, e)

await_complete_disconnect-returns_example :
    (is_registered 9 shared.registry ≡ true
      → await_complete_disconnect always closes_it 9 (connected_pids shared) shared all_locked
        ≡ some usage_error)
    × (is_registered 9 shared.registry ≡ false
        → (u : Registry) × (left : Files) × (await_complete_disconnect always closes_it 9
              (connected_pids shared)
              shared
              all_locked
            ≡ some (disconnected u left))
          × (u.registry ≡ []))
await_complete_disconnect-returns_example =
    await_complete_disconnect-returns always closes_it 9 shared all_locked closes_it-releases refl
