-- ===== src/Registry/Kept.antt =====
-- database_registry.tcc: which processes the loop of check_need_for_recovery keeps.
use stldb.Prelude.{
  suc, if-elim, ℕ, ◌≡◌, ◌⊎◌, inl, inr, refl, Bool, true, false, List, [], ◌∷◌, ◌==◌, ◌||◌,
  if◌then◌else◌, length, arith, ==→eq, Bool-cases, sym, subst, ◌≤◌,
}
use mathlib.Core.Bool.{true≢false}
use stldb.Registry.{locked, Checked, is_registered, check_lock, remove_if}
use stldb.Registry.Check.{LockFile-cases}

module _ (can_remove : ℕ → Bool) (me : ℕ) where
  pub remove_if-shrinks :
      (pids : List ℕ) (c : Checked) → length (remove_if can_remove me pids c).0 ≤ length pids
  unfolding remove_if
  remove_if-shrinks [] c = omega arith
  remove_if-shrinks (pid ∷ pids) c =
      let later = remove_if-shrinks pids (check_lock can_remove me pid c).1 in ground (arith, later)

  check_lock-stayed :
      (pid : ℕ) (c : Checked)
      → (check_lock can_remove me pid c).0 ≡ false
      → ((pid ≡ me) ⊎ (c.files pid ≡ locked)) × (check_lock can_remove me pid c ≡ (false, c))
  unfolding check_lock
  check_lock-stayed pid c h = elim (LockFile-cases (c.files pid)) [
    | inl e ↦ ground (arith, h, e)
    | inr (inl e) ↦ ground (arith, h, e)
    | inr (inr e) ↦ ground (arith, h, e)
  ]

  pid_stayed :
      (pid : ℕ) (pids : List ℕ) (c : Checked)
      → length (remove_if can_remove me (pid ∷ pids) c).0 ≡ suc (length pids)
      → (check_lock can_remove me pid c).0 ≡ false
  unfolding remove_if
  pid_stayed pid pids c h =
      let later = remove_if-shrinks pids (check_lock can_remove me pid c).1 in
      elim (Bool-cases (check_lock can_remove me pid c).0) [
        | inl e ↦ absurd (
            omega (
              arith,
              later,
              subst (λ (b : Bool). length (if b then kept else pid ∷ kept) ≡ suc (length pids)) e h,
            ))
        | inr e ↦ e
      ]
    where
      kept : List ℕ
      kept = (remove_if can_remove me pids (check_lock can_remove me pid c).1).0

  -- Where none is removed, each is connected.
  pub remove_if-none_removed :
      (q : ℕ) (pids : List ℕ) (c : Checked)
      → length (remove_if can_remove me pids c).0 ≡ length pids
      → is_registered q pids ≡ true
      → (q ≡ me) ⊎ (c.files q ≡ locked)
  unfolding remove_if is_registered
  remove_if-none_removed q [] c h r = absurd (true≢false (sym r))
  remove_if-none_removed q (pid ∷ pids) c h r =
      let stayed = pid_stayed pid pids c h in
      let k = check_lock-stayed pid c stayed in
      elim (Bool-cases (pid == q)) [
        | inl e ↦ subst (λ (z : ℕ). (z ≡ me) ⊎ (c.files z ≡ locked)) (==→eq pid q e) k.0
        | inr e ↦
            remove_if-none_removed q pids c
              (omega (
                arith,
                subst
                    (λ (x : Bool × Checked).
                      length (
                        if x.0
                        then (remove_if can_remove me pids x.1).0
                        else pid ∷ (remove_if can_remove me pids x.1).0)
                      ≡ suc (length pids))
                    k.1 h,
              ))
              (subst (λ (b : Bool). (b || is_registered q pids) ≡ true) e r)
      ]

  pub remove_if-registered :
      (q : ℕ) (pids : List ℕ) (c : Checked)
      → is_registered q pids ≡ false
      → is_registered q (remove_if can_remove me pids c).0 ≡ false
  unfolding remove_if is_registered
  remove_if-registered q [] c h = refl
  remove_if-registered q (pid ∷ pids) c h =
      let later = remove_if-registered q pids (check_lock can_remove me pid c).1 in
      elim (Bool-cases (pid == q)) [
        | inl e ↦
            absurd (true≢false (subst (λ (b : Bool). (b || is_registered q pids) ≡ false) e h))
        | inr e ↦
            if-elim (λ (l : List ℕ). is_registered q l ≡ false) (check_lock can_remove me pid c).0 _
              _ (λ _. later (subst (λ (b : Bool). (b || is_registered q pids) ≡ false) e h))
              λ _. rw (e) (later (subst (λ (b : Bool). (b || is_registered q pids) ≡ false) e h))
      ]
