-- ===== src/Registry/Steps.antt =====
-- database_registry.tcc: the processes that open, close and check a database, or die, as steps on
-- the registry of one region, and what the registry then knows of the processes.
use stldb.Prelude.{ℕ, ◌≡◌, ◌⊎◌, Bool, true, false, some, [], ◌∷◌, ◌++◌}
use stldb.Registry.{
  unlocked, locked, Files, Registry, set_at, new_registry, is_registered, erase_pid, register_pid,
  unregister_pid, check_need_for_recovery, construction_complete, set_invalid,
}

-- The registry, the lock files, which processes have the database open, and which died with it open.
pub record World : Type 0 where
  pub registry : Registry
  pub files : Files
  pub running : ℕ → Bool
  pub died : ℕ → Bool

-- Nobody has opened the database yet; files may be left from before.
abbrev pub start : Files → World
start files = record {
  registry = new_registry;
  files = files;
  running = λ _. false;
  died = λ _. false;
}

module _ (can_remove : ℕ → Bool) where
  -- A call under the lock of the registry, by a process of the pid given, or a death.
  pub data Step (w u : World) : Type 0 where
    -- register_pid returns.
    opens :
        (me : ℕ) (r : Registry) (files : Files)
        → w.running me ≡ false
        → register_pid me w.registry w.files ≡ some (r, files)
        → u ≡ record w { registry = r; files = files; running = set_at me true w.running }
        → Step w u
    -- unregister_pid
    closes :
        (me : ℕ)
        → w.running me ≡ true
        → u ≡ record w {
          registry = (unregister_pid can_remove me w.registry w.files).0;
          files = (unregister_pid can_remove me w.registry w.files).1;
          running = set_at me false w.running;
        }
        → Step w u
    checks :
        (me : ℕ)
        → u ≡ record w {
          registry = (check_need_for_recovery can_remove me w.registry w.files).1.0;
          files = (check_need_for_recovery can_remove me w.registry w.files).1.1;
        }
        → Step w u
    constructs : u ≡ record w { registry = construction_complete w.registry } → Step w u
    invalidates : u ≡ record w { registry = set_invalid true w.registry } → Step w u
    -- A process dies with the database open.
    dies :
        (me : ℕ)
        → w.running me ≡ true
        → u ≡ record w {
          files = set_at me unlocked w.files;
          running = set_at me false w.running;
          died = set_at me true w.died;
        }
        → Step w u
    -- It dies in register_pid, after push_back.
    dies_opening :
        (me : ℕ)
        → w.running me ≡ false
        → is_registered me w.registry.registry ≡ false
        → u ≡ record w {
          registry = record w.registry { registry = w.registry.registry ++ (me ∷ []) };
        }
        → Step w u
    -- It dies in unregister_pid, after the erase.
    dies_closing :
        (me : ℕ)
        → w.running me ≡ true
        → u ≡ record w {
          registry = record w.registry { registry = erase_pid me w.registry.registry };
          files = set_at me unlocked w.files;
          running = set_at me false w.running;
        }
        → Step w u

  pub data Reach (w : World) : World → Type 0 where
    here : Reach w w
    next : {u v : World} → Reach w u → Step u v → Reach w v

-- A running process is registered and holds its lock. A process that died with the database open
-- is registered with its file unlocked, unless the database is invalid.
pub record IsConsistent (w : World) : Type 0 where
  pub complete : w.registry.registry_construct_complete ≡ true
  pub running :
      (q : ℕ)
      → w.running q ≡ true
      → (is_registered q w.registry.registry ≡ true) × (w.files q ≡ locked)
  pub died :
      (q : ℕ)
      → w.died q ≡ true
      → (w.registry.database_invalid ≡ true)
        ⊎ ((is_registered q w.registry.registry ≡ true) × (w.files q ≡ unlocked))
