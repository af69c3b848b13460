-- ===== src/Registry/Round.antt =====
-- database_registry.tcc: a round of await_complete_disconnect leaves fewer processes.
use mathlib.Core.Bool.{true≢false}
use stldb.Prelude.{
  ℕ, ◌≡◌, ◌≢◌, ◌≤◌, ◌<◌, inl, inr, refl, sym, Bool, true, false, List, [], ◌∷◌, length, arith,
  Bool-cases, ◌∙◌, ◌==◌, ==→eq,
}
use stldb.Registry.{
  locked, unlocked, Files, Registry, Checked, set_at, unregister_pid, is_registered, erase_pid,
  remove_if, check_need_for_recovery,
}
use stldb.Registry.Kept.{remove_if-shrinks, remove_if-none_removed, remove_if-registered}
use stldb.Registry.Pids.{length-erase_pid, erase_pid-shorter, is_registered-erased}
use stldb.Registry.Disconnect.{Leave, unregisters, dies, leave, wait, after_wait}

module _ (can_remove : ℕ → Bool) where
  leave_complete :
      (ls : List Leave) (s : Registry × Files)
      → (leave can_remove ls s).0.registry_construct_complete ≡ s.0.registry_construct_complete
  unfolding leave unregister_pid
  leave_complete [] s = refl
  leave_complete (unregisters pid ∷ ls) s =
      leave_complete ls (unregister_pid can_remove pid s.0 s.1)
  leave_complete (dies pid ∷ ls) s = leave_complete ls (s.0, set_at pid unlocked s.1)

  leave-registered :
      (q : ℕ) (ls : List Leave) (s : Registry × Files)
      → is_registered q s.0.registry ≡ false
      → is_registered q (leave can_remove ls s).0.registry ≡ false
  unfolding leave unregister_pid
  leave-registered q [] s h = h
  leave-registered q (unregisters pid ∷ ls) s h =
      leave-registered q ls (unregister_pid can_remove pid s.0 s.1)
        (is_registered-erased q pid s.0.registry h)
  leave-registered q (dies pid ∷ ls) s h = leave-registered q ls (s.0, set_at pid unlocked s.1) h

  leave-shrinks :
      (ls : List Leave) (s : Registry × Files)
      → length (leave can_remove ls s).0.registry ≤ length s.0.registry
  unfolding leave unregister_pid
  leave-shrinks [] s = omega arith
  leave-shrinks (unregisters pid ∷ ls) s =
      let later = leave-shrinks ls (unregister_pid can_remove pid s.0 s.1) in
      let this = length-erase_pid pid s.0.registry in omega (arith, later, this)
  leave-shrinks (dies pid ∷ ls) s = leave-shrinks ls (s.0, set_at pid unlocked s.1)

  -- A process that is no longer registered has made the registry shorter.
  leave-shorter :
      (q : ℕ) (ls : List Leave) (s : Registry × Files)
      → is_registered q s.0.registry ≡ true
      → is_registered q (leave can_remove ls s).0.registry ≡ false
      → length (leave can_remove ls s).0.registry < length s.0.registry
  unfolding leave unregister_pid
  leave-shorter q [] s h n = absurd (true≢false (sym h ∙ n))
  leave-shorter q (unregisters pid ∷ ls) s h n =
      let this = unregister_pid can_remove pid s.0 s.1 in
      let less = length-erase_pid pid s.0.registry in
      let kept = leave-shrinks ls this in
      elim (Bool-cases (is_registered q (erase_pid pid s.0.registry))) [
        | inl e ↦ omega (arith, leave-shorter q ls this e n, less)
        | inr e ↦ omega (arith, erase_pid-shorter q pid s.0.registry h e, kept)
      ]
  leave-shorter q (dies pid ∷ ls) s h n = leave-shorter q ls (s.0, set_at pid unlocked s.1) h n

  -- The check drops a registered process that does not hold its lock.
  remove_if-shorter :
      (me q : ℕ) (pids : List ℕ) (c : Checked)
      → is_registered q pids ≡ true
      → q ≢ me
      → c.files q ≢ locked
      → length (remove_if can_remove me pids c).0 < length pids
  remove_if-shorter me q pids c r n l =
      let less = remove_if-shrinks can_remove me pids c in
      elim (Bool-cases (length (remove_if can_remove me pids c).0 == length pids)) [
        | inl e ↦ elim (remove_if-none_removed can_remove me q pids c (==→eq _ _ e) r) [
          | inl p ↦ absurd (n p)
          | inr p ↦ absurd (l p)
        ]
        | inr e ↦ ground (arith, less, e)
      ]

  check-registry :
      (me : ℕ) (r : Registry) (files : Files)
      → r.registry_construct_complete ≡ true
      → ((check_need_for_recovery can_remove me r files).1.0.registry
          ≡ (remove_if can_remove me r.registry
              (record { invalid_ind = r.database_invalid; files = files })).0)
        × ((check_need_for_recovery can_remove me r files).1.0.registry_construct_complete ≡ true)
  unfolding check_need_for_recovery
  check-registry me r files h = rw (h) (refl, refl)

  module _ (others : ℕ → Registry → Files → List Leave) (me : ℕ) where
    after_wait-registry :
        (pid : ℕ) (r : Registry) (files : Files)
        → r.registry_construct_complete ≡ true
        → (after_wait can_remove others me pid r files).0.registry
          ≡ (remove_if can_remove me (wait can_remove others me pid r files).0.registry (record {
            invalid_ind = (wait can_remove others me pid r files).0.database_invalid;
            files = (wait can_remove others me pid r files).1;
          })).0
    unfolding after_wait
    after_wait-registry pid r files rc =
        (check-registry me (wait can_remove others me pid r files).0
          (wait can_remove others me pid r files).1
          (leave_complete (others pid r files) (r, files) ∙ rc)).0

    pub after_wait_complete :
        (pid : ℕ) (r : Registry) (files : Files)
        → r.registry_construct_complete ≡ true
        → (after_wait can_remove others me pid r files).0.registry_construct_complete ≡ true
    unfolding after_wait
    after_wait_complete pid r files rc =
        (check-registry me (wait can_remove others me pid r files).0
          (wait can_remove others me pid r files).1
          (leave_complete (others pid r files) (r, files) ∙ rc)).1

    pub after_wait-registered :
        (pid : ℕ) (r : Registry) (files : Files)
        → r.registry_construct_complete ≡ true
        → is_registered me r.registry ≡ false
        → is_registered me (after_wait can_remove others me pid r files).0.registry ≡ false
    after_wait-registered pid r files rc m = rw (after_wait-registry pid r files rc) (
        remove_if-registered can_remove me me (wait can_remove others me pid r files).0.registry _
          (leave-registered me (others pid r files) (r, files) m))

    -- Each round leaves fewer processes.
    pub after_wait-shorter :
        (pid : ℕ) (r : Registry) (files : Files)
        → r.registry_construct_complete ≡ true
        → is_registered pid r.registry ≡ true
        → pid ≢ me
        → (wait can_remove others me pid r files).1 pid ≢ locked
        → length (after_wait can_remove others me pid r files).0.registry < length r.registry
    after_wait-shorter pid r files rc p n h =
        let now = (wait can_remove others me pid r files).0.registry in
        let less = leave-shrinks (others pid r files) (r, files) in
        let c : Checked = record {
          invalid_ind = (wait can_remove others me pid r files).0.database_invalid;
          files = (wait can_remove others me pid r files).1;
        } in
        rw (after_wait-registry pid r files rc) (elim (Bool-cases (is_registered pid now)) [
          | inl e ↦ omega (arith, remove_if-shorter me pid now c e n h, less)
          | inr e ↦ omega (
            arith,
            leave-shorter pid (others pid r files) (r, files) p e,
            remove_if-shrinks can_remove me now c,
          )
        ])
