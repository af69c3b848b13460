-- ===== src/Registry/Need.antt =====
-- database_registry.tcc: when check_need_for_recovery finds no need, and what a missing file does.
use mathlib.Core.Bool.{true≢false}
use stldb.Prelude.{
  ℕ, ◌≡◌, ◌⊎◌, inl, inr, refl, sym, ◌∙◌, Bool, true, false, not, ◌||◌, List, ◌==◌, if◌then◌else◌,
  length, arith, ==_refl, Bool-cases,
}
use stldb.Registry.{locked, Files, Registry, is_registered, check_need_for_recovery}
use stldb.Registry.Check.{remove_if-invalid, remove_if-connected}
use stldb.Registry.Kept.{remove_if-none_removed}

-- Every process of the registry holds its lock, but for the one that asks.
abbrev pub AreConnected : ℕ → List ℕ → Files → Type 0
AreConnected me pids files = (q : ℕ) → is_registered q pids ≡ true → (q ≡ me) ⊎ (files q ≡ locked)

-- The construction is complete, nobody set the invalid flag, and every process is connected.
pub record IsSound (me : ℕ) (r : Registry) (files : Files) : Type 0 where
  pub registry_complete : r.registry_construct_complete ≡ true
  pub database_complete : r.database_construct_complete ≡ true
  pub not_invalid : r.database_invalid ≡ false
  pub connected : AreConnected me r.registry files

tests {ℓ} :
    {A : Type ℓ} (a b c d : Bool) (x : Bool × A) (y : A)
    → (if not a then x else (b || (c || not d), y)).0 ≡ false
    → x.0 ≡ true
    → (a ≡ true) × (b ≡ false) × (c ≡ false) × (d ≡ true)
tests true false false true x y h e = (refl, refl, refl, refl)
tests false b c d x y h e = absurd (true≢false (sym e ∙ h))
tests true true c d x y h e = absurd (true≢false h)
tests true false true d x y h e = absurd (true≢false h)
tests true false false false x y h e = absurd (true≢false h)

same_length : (a b : ℕ) → not (a == b) ≡ false → a ≡ b
same_length a b h = ground (arith, h)

module _ (can_remove : ℕ → Bool) (me : ℕ) where
  -- check_need_for_recovery returns false just if the construction of the registry and of the
  -- database is complete, the database is not invalid and every registered process holds its lock
  -- but for the one that calls it; then it changes nothing.
  pub check_need_for_recovery-exact :
      (r : Registry) (files : Files)
      → ((check_need_for_recovery can_remove me r files).0 ≡ false → IsSound me r files)
        × (IsSound me r files → check_need_for_recovery can_remove me r files ≡ (false, (r, files)))
  unfolding check_need_for_recovery
  check_need_for_recovery-exact r files = (
    λ h.
        let t =
          tests r.registry_construct_complete _ _ r.database_construct_complete (true, (r, files)) _
            h refl in
        record {
          registry_complete = t.0;
          database_complete = t.3;
          not_invalid = elim (Bool-cases r.database_invalid) [
            | inl e ↦
                absurd (true≢false (sym (remove_if-invalid can_remove me r.registry _ e) ∙ t.2))
            | inr e ↦ e
          ];
          connected =
              λ q. remove_if-none_removed can_remove me q r.registry _ (same_length _ _ t.1);
        },
    λ s.
        rw
          (
            s.registry_complete,
            s.database_complete,
            remove_if-connected can_remove me r.registry
                (record { invalid_ind = r.database_invalid; files = files }) s.connected,
            s.not_invalid,
            ==_refl (length r.registry),
          )
          refl,
  )
