-- ===== src/Registry/Absent.antt =====
-- database_registry.tcc: a registered process whose lock file does not exist, as after a death
-- between push_back and the creation of the file in register_pid.
use mathlib.Core.Bool.{true≢false}
use stldb.Prelude.{
  ℕ, ◌≡◌, ◌≢◌, ◌⊎◌, inl, inr, refl, sym, ap, ◌∙◌, subst, Bool, true, false, List, [], ◌∷◌, if-elim,
  arith, ==_refl, Bool-cases,
}
use stldb.Registry.{
  absent, locked, Files, Registry, Checked, is_valid, is_registered, check_lock, remove_if,
  check_need_for_recovery,
}
use stldb.Registry.Pids.{is_registered-cons}
use stldb.Registry.Need.{AreConnected, IsSound, check_need_for_recovery-exact}

-- No registered process holds a file without its lock.
abbrev pub HaveNoUnlocked : ℕ → List ℕ → Files → Type 0
HaveNoUnlocked me pids files =
    (q : ℕ) → is_registered q pids ≡ true → (q ≡ me) ⊎ (files q ≡ locked) ⊎ (files q ≡ absent)

module _ (can_remove : ℕ → Bool) (me : ℕ) where
  check_lock-absent :
      (pid : ℕ) (c : Checked)
      → (pid ≡ me) ⊎ (c.files pid ≡ locked) ⊎ (c.files pid ≡ absent)
      → (check_lock can_remove me pid c).1 ≡ c
  unfolding check_lock
  check_lock-absent pid c h = elim h [
    | inl e ↦ ground (arith, e)
    | inr (inl e) ↦ ground (arith, e)
    | inr (inr e) ↦ ground (arith, e)
  ]

  check_lock-stays :
      (pid : ℕ) (c : Checked)
      → (pid ≡ me) ⊎ (c.files pid ≡ locked) ⊎ (c.files pid ≡ absent)
      → (check_lock can_remove me pid c).0 ≡ false
      → (pid ≡ me) ⊎ (c.files pid ≡ locked)
  unfolding check_lock
  check_lock-stays pid c h f = elim h [
    | inl e ↦ inl e
    | inr (inl e) ↦ inr e
    | inr (inr e) ↦ ground (arith, e, f)
  ]

  -- The loop removes them and changes nothing else.
  remove_if-absent :
      (pids : List ℕ) (c : Checked)
      → HaveNoUnlocked me pids c.files
      → ((remove_if can_remove me pids c).1 ≡ c)
        × AreConnected me (remove_if can_remove me pids c).0 c.files
  unfolding remove_if is_registered
  remove_if-absent [] c h = (refl, λ q r. absurd (true≢false (sym r)))
  remove_if-absent (pid ∷ pids) c h =
      let this = h pid (rw (==_refl pid) refl) in
      let later = remove_if-absent pids c λ q r. h q (ground (arith, r)) in
      rw (check_lock-absent pid c this) (
        later.0,
        if-elim (λ (l : List ℕ). AreConnected me l c.files) (check_lock can_remove me pid c).0 _ _
            (λ _. later.1)
            λ e q r. elim (is_registered-cons q pid _ r) [
              | inl p ↦
                  subst (λ (z : ℕ). (z ≡ me) ⊎ (c.files z ≡ locked)) p
                    (check_lock-stays pid c this e)
              | inr p ↦ later.1 q p
            ],
      )

  left-IsSound :
      (r : Registry) (files : Files)
      → r.registry_construct_complete ≡ true
      → r.database_construct_complete ≡ true
      → r.database_invalid ≡ false
      → HaveNoUnlocked me r.registry files
      → IsSound me
          (check_need_for_recovery can_remove me r files).1.0
          (check_need_for_recovery can_remove me r files).1.1
  unfolding check_need_for_recovery
  left-IsSound r files rc dc v h =
      let c : Checked = record { invalid_ind = r.database_invalid; files = files } in
      let k = remove_if-absent r.registry c h in
      rw (rc) (record {
        registry_complete = refl;
        database_complete = dc;
        not_invalid = ap (λ (x : Checked). x.invalid_ind) k.0 ∙ v;
        connected =
            subst
              (λ (x : Checked). AreConnected me (remove_if can_remove me r.registry c).0 x.files)
              (sym k.0) k.1;
      })

  -- Where the construction is complete, the database not invalid, and every other registered
  -- process holds its lock or has no lock file, check_need_for_recovery leaves the database valid
  -- and a check after it finds no need, though it finds one itself if the file of a process is missing.
  pub check_need_for_recovery-forgets :
      (r : Registry) (files : Files) (pid : ℕ)
      → r.registry_construct_complete ≡ true
      → r.database_construct_complete ≡ true
      → r.database_invalid ≡ false
      → HaveNoUnlocked me r.registry files
      → is_registered pid r.registry ≡ true
      → pid ≢ me
      → files pid ≡ absent
      → let now = check_need_for_recovery can_remove me r files in
        (now.0 ≡ true)
        × (is_valid now.1.0 ≡ true)
        × ((check_need_for_recovery can_remove me now.1.0 now.1.1).0 ≡ false)
  check_need_for_recovery-forgets r files pid rc dc v h p n a = (
    elim (Bool-cases (check_need_for_recovery can_remove me r files).0) [
      | inl e ↦ e
      | inr e ↦ elim (((check_need_for_recovery-exact can_remove me r files).0 e).connected pid p) [
        | inl q ↦ absurd (n q)
        | inr q ↦ ground (arith, a, q)
      ]
    ],
    rw (sound.registry_complete, sound.not_invalid) refl,
    ap (λ (x : Bool × (Registry × Files)). x.0)
        ((check_need_for_recovery-exact can_remove me _ _).1 sound),
  )
    where
      sound :
          IsSound me
            (check_need_for_recovery can_remove me r files).1.0
            (check_need_for_recovery can_remove me r files).1.1
      sound = left-IsSound r files rc dc v h
