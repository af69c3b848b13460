-- ===== src/Registry/Detect.antt =====
-- database_registry.tcc: no death of a process that has the database open goes unnoticed.
use stldb.Prelude.{ℕ, ◌≡◌, ◌≢◌, inl, inr, refl, Bool, true, false, arith}
use stldb.Registry.{Files, Registry, remove_if, check_need_for_recovery, is_valid}
use stldb.Registry.Check.{remove_if-invalid, remove_if-died}
use stldb.Registry.Steps.{World, start, Reach, IsConsistent}
use stldb.Registry.Reach.{Reach-IsConsistent, start-IsConsistent}

module _ (can_remove : ℕ → Bool) where
  finds_invalid :
      (me : ℕ) (r : Registry) (files : Files)
      → r.registry_construct_complete ≡ true
      → (remove_if can_remove me r.registry
          (record { invalid_ind = r.database_invalid; files = files })).1.invalid_ind
        ≡ true
      → let now = check_need_for_recovery can_remove me r files in
        (now.0 ≡ true) × (is_valid now.1.0 ≡ false)
  unfolding check_need_for_recovery
  finds_invalid me r files c h = rw (c, h) (ground arith, refl)

  invalid-left :
      (w : World) (q me : ℕ)
      → IsConsistent w
      → w.died q ≡ true
      → q ≢ me
      → (remove_if can_remove me w.registry.registry
          (record { invalid_ind = w.registry.database_invalid; files = w.files })).1.invalid_ind
        ≡ true
  invalid-left w q me i d n = elim (i.died q d) [
    | inl e ↦ remove_if-invalid can_remove me w.registry.registry _ e
    | inr (k, e) ↦ remove_if-died can_remove me q w.registry.registry _ n e k
  ]

  -- After any steps from a new registry, if a process died with the database open, then
  -- check_need_for_recovery by a process of another pid returns true and leaves the database
  -- invalid.
  pub died-detected :
      (before : Files) (w : World) (q me : ℕ)
      → Reach can_remove (start before) w
      → w.died q ≡ true
      → q ≢ me
      → let now = check_need_for_recovery can_remove me w.registry w.files in
        (now.0 ≡ true) × (is_valid now.1.0 ≡ false)
  died-detected before w q me r d n =
      let i = Reach-IsConsistent can_remove (start-IsConsistent can_remove before) r in
      finds_invalid me w.registry w.files i.complete (invalid-left w q me i d n)
