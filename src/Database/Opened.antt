-- ===== src/Database/Opened.antt =====
-- stldb/Database.tcc: the registry that the constructor of Database leaves.
use mathlib.Core.Bool.{true≢false}
use mathlib.Core.Option
use mathlib.Core.Option.{some-injective, none-ne-some}
use stldb.Prelude.{
  ℕ, ◌≡◌, ◌⊎◌, inl, inr, refl, sym, ap, ◌∙◌, subst, Bool, true, false, not, ◌&&◌, ◌||◌, Option,
  none, some, List, if-elim, Bool-cases,
}
use stldb.Logging.{LogHeader}
use stldb.Recovery.{Recovered, recovered, logs_removed, recover}
use stldb.Checkpoint.File.{CheckpointFileInfo}
use stldb.Registry.{
  Files, Registry, is_valid, is_registered, construction_complete, set_invalid, register_pid,
  check_need_for_recovery,
}
use stldb.Registry.Need.{IsSound, check_need_for_recovery-exact}
use stldb.Registry.Registered.{register_pid-none}
use stldb.Database.Ready.{IsReady, AttachedIsReady, attach-IsReady, entered-IsReady}
use stldb.Database.Info.{DatabaseInfo, Region, Arguments}
use stldb.Database.Load.{Loaded}
use stldb.Database.Open.{
  Opening, opened, already_open, recovery_needed, load_failed, logs_gone, recovery_failed, Opened,
  Attached, has_any, is_short, after_recovery, resize_region, attach, recover_loaded, reload, build,
  build_registered, open_database,
}

-- What holds of the result, if there is one.
abbrev OnSome {ℓ} : {A : Type ℓ} → (A → Type 0) → Option A → Type 0
OnSome P none = Unit
OnSome P (some x) = P x

OnSome-map {ℓ κ} :
    {A : Type ℓ} {B : Type κ} (P : B → Type 0) (f : A → B) (m : Option A)
    → ((x : A) → P (f x))
    → OnSome P (Option.map f m)
OnSome-map P f none h = tt
OnSome-map P f (some x) h = h x

module _ (can_remove : ℕ → Bool) (me : ℕ) where
  -- What the registry tells of each ending: once the database is open, a check by any process finds
  -- no need for recovery; after an exception any check finds one, unless the process itself had the
  -- database open.
  abbrev pub Tells : Opening → Registry → Files → Type 0
  Tells opened g files = (q : ℕ) → IsSound q g files
  Tells already_open g files = is_registered me g.registry ≡ true
  Tells recovery_needed g files = (q : ℕ) → (check_need_for_recovery can_remove q g files).0 ≡ true
  Tells load_failed g files = (q : ℕ) → (check_need_for_recovery can_remove q g files).0 ≡ true
  Tells logs_gone g files = (q : ℕ) → (check_need_for_recovery can_remove q g files).0 ≡ true
  Tells recovery_failed g files = (q : ℕ) → (check_need_for_recovery can_remove q g files).0 ≡ true

  needs_recovery :
      (q : ℕ) (g : Registry) (files : Files)
      → (g.database_construct_complete ≡ false) ⊎ (g.database_invalid ≡ true)
      → (check_need_for_recovery can_remove q g files).0 ≡ true
  needs_recovery q g files h = elim (Bool-cases (check_need_for_recovery can_remove q g files).0) [
    | inl e ↦ e
    | inr e ↦
        let s = (check_need_for_recovery-exact can_remove q g files).0 e in
        elim h [
          | inl k ↦ absurd (true≢false (sym s.database_complete ∙ k))
          | inr k ↦ absurd (true≢false (sym k ∙ s.not_invalid))
        ]
  ]

  module _ {State : Type 0} where
    -- The region has a registry, which tells of the ending.
    abbrev pub RegistryTells : Opened State → Type 0
    RegistryTells o = (g : Registry) × (o.region.registry ≡ some g) × Tells o.ending g o.files

    after_recovery-Tells :
        (g : Registry) (r : Region State) (files : Files) (i : DatabaseInfo) (l : Loaded State)
        (k : Recovered State)
        → IsReady me true g files
        → RegistryTells (after_recovery g r files i l k)
    unfolding after_recovery
    after_recovery-Tells g r files i l logs_removed h =
        (g, refl, λ q. needs_recovery q g files (inl h.built))
    after_recovery-Tells g r files i l (recovered s last_lsn e) h =
        if-elim RegistryTells (is_short last_lsn l.recovery_end_lsn) _ _
          (λ _.
            (set_invalid true g, refl, λ q. needs_recovery q (set_invalid true g) files (inr refl)))
          λ _. (
            construction_complete g,
            refl,
            λ q. record {
              registry_complete = h.complete;
              database_complete = refl;
              not_invalid = h.not_invalid;
              connected = h.connected q;
            },
          )

    module _ (a : Arguments) (sane : Region State → Bool) (empty : State) where
      module _ (resized : ℕ → ℕ → ℕ) (load : List ℕ → CheckpointFileInfo → State → Option State)
          (recover_txn : State → LogHeader → List ℕ → State) (reads steps : ℕ)
          (current : List (List ℕ × CheckpointFileInfo)) (log_files : List (ℕ × List ℕ)) where
        recover_loaded-Tells :
            (g : Registry) (r : Region State) (files : Files) (i : DatabaseInfo)
            (l : Option (Loaded State))
            → IsReady me true g files
            → OnSome RegistryTells (
                recover_loaded can_remove me a sane empty resized load recover_txn reads steps
                  current log_files g r files i l)
        recover_loaded-Tells g r files i none h =
            (g, refl, λ q. needs_recovery q g files (inl h.built))
        recover_loaded-Tells g r files i (some l) h =
            OnSome-map RegistryTells _
              (recover recover_txn reads steps l.recovery_start_lsn log_files l.containers)
              λ k. after_recovery-Tells g r files _ l k h

        reload-Tells :
            (g : Registry) (r : Region State) (files : Files) (i : DatabaseInfo)
            → IsReady me true g files
            → OnSome RegistryTells (
                reload can_remove me a sane empty resized load recover_txn reads steps current
                  log_files g r files i)
        unfolding reload
        reload-Tells g r files i h = recover_loaded-Tells g r files i _ h

        build-Tells :
            (creating : Bool) (g : Registry) (r : Region State) (files : Files)
            → IsReady me creating g files
            → OnSome RegistryTells (
                build can_remove me a sane empty resized load recover_txn reads steps current
                  log_files creating g r files)
        unfolding build
        build-Tells creating g r files h =
            if-elim (OnSome RegistryTells) (not (is_valid g) && (creating || has_any a.containers))
              _ _
              (λ k. (
                g,
                refl,
                λ q.
                    let valid : is_valid g ≡ true = rw (h.complete, h.not_invalid) refl in
                    absurd (
                      true≢false (
                        sym k
                        ∙ ap (λ (b : Bool). not b && (creating || has_any a.containers)) valid)),
              ))
              λ _.
                if-elim (OnSome RegistryTells) creating _ _
                  (λ c. reload-Tells g r files _ (subst (λ (b : Bool). IsReady me b g files) c h))
                  λ c. (
                    g,
                    refl,
                    λ q. record {
                      registry_complete = h.complete;
                      database_complete = h.built ∙ ap not c;
                      not_invalid = h.not_invalid;
                      connected = h.connected q;
                    },
                  )

        build_registered-Tells :
            (t : Attached State) (r : Region State) (o : Option (Registry × Files))
            → AttachedIsReady me t
            → register_pid me t.registry t.files ≡ o
            → OnSome RegistryTells (
                build_registered can_remove me a sane empty resized load recover_txn reads steps
                  current log_files t r o)
        build_registered-Tells t r none h e =
            (t.registry, refl, register_pid-none me t.registry t.files e)
        build_registered-Tells t r (some k) h e =
            build-Tells t.creating_region k.0 r k.1 (entered-IsReady me t k h e)

        open_database-OnSome :
            (region : Option (Region State)) (files : Files)
            → OnSome RegistryTells (
                open_database can_remove me a sane empty resized load recover_txn reads steps
                  current log_files region files)
        unfolding open_database
        open_database-OnSome region files =
            build_registered-Tells (attach can_remove me a sane empty region files)
              (resize_region a.initial_size resized
                (attach can_remove me a sane empty region files))
              _ (attach-IsReady me can_remove a sane empty region files) refl

        -- Whatever region and lock files it finds, if the constructor of Database returns, then a check
        -- of the registry that it leaves by any process finds no need for recovery; if it throws, any
        -- check finds one, unless it threw since the process had the database open, when the process
        -- is still registered.
        pub open_database-Tells :
            (region : Option (Region State)) (files : Files) (o : Opened State)
            → open_database can_remove me a sane empty resized load recover_txn reads steps current
                log_files region files
              ≡ some o
            → RegistryTells o
        open_database-Tells region files o e =
            subst (OnSome RegistryTells) e (open_database-OnSome region files)
