-- ===== src/Registry/Check.antt =====
-- database_registry.tcc: what the loop of check_need_for_recovery keeps and finds.
use stldb.Prelude.{
  if-elim, ℕ, ◌≡◌, ◌≢◌, ◌⊎◌, inl, inr, refl, Bool, true, false, List, [], ◌∷◌, ◌==◌, ◌||◌, arith,
  ==→eq, eq→==, ==_refl, Bool-cases, sym, ap, ◌∙◌, subst,
}
use mathlib.Core.Bool.{true≢false}
use stldb.Registry.{
  LockFile, absent, unlocked, locked, Checked, is_registered, check_lock, remove_if,
}

pub LockFile-cases : (f : LockFile) → (f ≡ absent) ⊎ (f ≡ unlocked) ⊎ (f ≡ locked)
LockFile-cases absent = inl refl
LockFile-cases unlocked = inr (inl refl)
LockFile-cases locked = inr (inr refl)

module _ (can_remove : ℕ → Bool) (me : ℕ) where
  check_lock-invalid :
      (pid : ℕ) (c : Checked)
      → c.invalid_ind ≡ true
      → (check_lock can_remove me pid c).1.invalid_ind ≡ true
  unfolding check_lock
  check_lock-invalid pid c h = elim (LockFile-cases (c.files pid)) [
    | inl e ↦ ground (arith, e)
    | inr (inl e) ↦ ground (arith, e)
    | inr (inr e) ↦ ground (arith, e)
  ]

  check_lock-files :
      (pid q : ℕ) (c : Checked)
      → (q ≡ me) ⊎ (c.files q ≡ locked) ⊎ (q ≢ pid)
      → (check_lock can_remove me pid c).1.files q ≡ c.files q
  unfolding check_lock
  check_lock-files pid q c h = elim h [
    | inl e ↦ ground (arith, e)
    | inr (inl e) ↦ ground (arith, e)
    | inr (inr e) ↦ ground (arith, e)
  ]

  check_lock-connected :
      (pid : ℕ) (c : Checked)
      → (pid ≡ me) ⊎ (c.files pid ≡ locked)
      → check_lock can_remove me pid c ≡ (false, c)
  unfolding check_lock
  check_lock-connected pid c h = ground arith

  check_lock-died :
      (pid : ℕ) (c : Checked)
      → pid ≢ me
      → c.files pid ≡ unlocked
      → (check_lock can_remove me pid c).1.invalid_ind ≡ true
  unfolding check_lock
  check_lock-died pid c n h = ground (arith, n, h)

  pub remove_if-invalid :
      (pids : List ℕ) (c : Checked)
      → c.invalid_ind ≡ true
      → (remove_if can_remove me pids c).1.invalid_ind ≡ true
  unfolding remove_if
  remove_if-invalid [] c h = h
  remove_if-invalid (pid ∷ pids) c h =
      remove_if-invalid pids (check_lock can_remove me pid c).1 (check_lock-invalid pid c h)

  -- A process that is connected, or that runs the check, stays, and so does its file.
  pub remove_if-files :
      (q : ℕ) (pids : List ℕ) (c : Checked)
      → (q ≡ me) ⊎ (c.files q ≡ locked)
      → (remove_if can_remove me pids c).1.files q ≡ c.files q
  unfolding remove_if
  remove_if-files q [] c h = refl
  remove_if-files q (pid ∷ pids) c h =
      let this = check_lock-files pid q c (elim h [ inl e ↦ inl e | inr e ↦ inr (inl e) ]) in
      remove_if-files q pids (check_lock can_remove me pid c).1
        (elim h [ inl e ↦ inl e | inr e ↦ inr (this ∙ e) ])
      ∙ this

  pub remove_if-stays :
      (q : ℕ) (pids : List ℕ) (c : Checked)
      → (q ≡ me) ⊎ (c.files q ≡ locked)
      → is_registered q pids ≡ true
      → is_registered q (remove_if can_remove me pids c).0 ≡ true
  unfolding remove_if is_registered
  remove_if-stays q [] c h r = r
  remove_if-stays q (pid ∷ pids) c h r =
      let this = check_lock-files pid q c (elim h [ inl e ↦ inl e | inr e ↦ inr (inl e) ]) in
      let later =
        remove_if-stays q pids (check_lock can_remove me pid c).1
          (elim h [ inl e ↦ inl e | inr e ↦ inr (this ∙ e) ]) in
      elim (Bool-cases (pid == q)) [
        | inl e ↦
            let k =
              ap (λ (x : Bool × Checked). x.0)
                (check_lock-connected pid c
                  (subst (λ (z : ℕ). (z ≡ me) ⊎ (c.files z ≡ locked)) (sym (==→eq pid q e)) h)) in
            rw (k, e) refl
        | inr e ↦
            if-elim (λ (l : List ℕ). is_registered q l ≡ true) (check_lock can_remove me pid c).0 _
              _ (λ _. later (subst (λ (b : Bool). (b || is_registered q pids) ≡ true) e r))
              λ _. rw (e, later (subst (λ (b : Bool). (b || is_registered q pids) ≡ true) e r)) refl
      ]

  -- The check finds a process that died.
  pub remove_if-died :
      (q : ℕ) (pids : List ℕ) (c : Checked)
      → q ≢ me
      → c.files q ≡ unlocked
      → is_registered q pids ≡ true
      → (remove_if can_remove me pids c).1.invalid_ind ≡ true
  unfolding remove_if is_registered
  remove_if-died q [] c n h r = absurd (true≢false (sym r))
  remove_if-died q (pid ∷ pids) c n h r = elim (Bool-cases (pid == q)) [
    | inl e ↦
        remove_if-invalid pids (check_lock can_remove me pid c).1 (
          check_lock-died pid c (λ p. n (sym (==→eq pid q e) ∙ p)) (ap c.files (==→eq pid q e) ∙ h))
    | inr e ↦
        remove_if-died q pids (check_lock can_remove me pid c).1 n
          (check_lock-files pid q c (inr (inr λ p. true≢false (sym (eq→== pid q (sym p)) ∙ e))) ∙ h)
          (subst (λ (b : Bool). (b || is_registered q pids) ≡ true) e r)
  ]

  -- It leaves all as it is if each process is connected.
  pub remove_if-connected :
      (pids : List ℕ) (c : Checked)
      → ((q : ℕ) → is_registered q pids ≡ true → (q ≡ me) ⊎ (c.files q ≡ locked))
      → remove_if can_remove me pids c ≡ (pids, c)
  unfolding remove_if is_registered
  remove_if-connected [] c h = refl
  remove_if-connected (pid ∷ pids) c h =
      rw (check_lock-connected pid c (h pid (rw (==_refl pid) refl))) (
        ap (λ (k : List ℕ × Checked). (pid ∷ k.0, k.1))
          (remove_if-connected pids c λ q r. h q (ground (arith, r))))
