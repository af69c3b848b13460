-- ===== src/Registry/Await.antt =====
-- database_registry.tcc: await_complete_disconnect ends with an empty registry.
use mathlib.Core.Bool.{true≢false}
use stldb.Prelude.{
  ℕ, zero, suc, ◌≡◌, ◌≢◌, ◌≤◌, refl, sym, Bool, true, false, not, Option, none, some, List, [], ◌∷◌,
  if◌then◌else◌, length, arith, ◌∙◌, eq→==, ==_refl, ap,
}
use stldb.Registry.{connected_pids, locked, Files, Registry, is_registered}
use stldb.Registry.Round.{after_wait_complete, after_wait-registered, after_wait-shorter}
use stldb.Registry.Disconnect.{
  Leave, Awaited, disconnected, usage_error, wait, after_wait, await_pids,
  await_complete_disconnect,
}

first : (pid : ℕ) (pids : List ℕ) → is_registered pid (pid ∷ pids) ≡ true
unfolding is_registered
first pid pids = rw (==_refl pid) refl

other : {me : ℕ} (pid : ℕ) (pids : List ℕ) → is_registered me (pid ∷ pids) ≡ false → pid ≢ me
unfolding is_registered
other {me} pid pids h e = absurd (true≢false (sym (rw (eq→== pid me e) refl) ∙ h))

module _ (can_remove : ℕ → Bool) where
  module _ (others : ℕ → Registry → Files → List Leave) (me : ℕ) where
    await_pids-returns :
        (n : ℕ) (r : Registry) (files : Files) (pids : List ℕ)
        → ((pid : ℕ) (q : Registry) (f : Files)
            → (wait can_remove others me pid q f).1 pid ≢ locked)
        → r.registry ≡ pids
        → r.registry_construct_complete ≡ true
        → is_registered me pids ≡ false
        → length pids ≤ n
        → (u : Registry) × (left : Files) × (await_pids can_remove others me n r files
            ≡ some (disconnected u left))
          × (u.registry ≡ [])
    unfolding await_pids
    await_pids-returns zero r files [] w e rc m l = (r, files, rw (e) refl, e)
    await_pids-returns zero r files (pid ∷ pids) w e rc m l = absurd (omega (arith, l))
    await_pids-returns (suc n) r files [] w e rc m l = (r, files, rw (e) refl, e)
    await_pids-returns (suc n) r files (pid ∷ pids) w e rc m l =
        let less =
          after_wait-shorter can_remove others me pid r files rc (rw (e) (first pid pids))
            (other pid pids m) (w pid r files) in
        let later =
          await_pids-returns n (after_wait can_remove others me pid r files).0
            (after_wait can_remove others me pid r files).1 _ w refl
            (after_wait_complete can_remove others me pid r files rc)
            (after_wait-registered can_remove others me pid r files rc (rw (e) m))
            (omega (arith, less, ap (λ (x : List ℕ). length x) e, l)) in
        (
          later.0,
          later.1,
          ap
                (λ (x : List ℕ). elim x as (λ _. Option Awaited) [
                  | [] ↦ some (disconnected r files)
                  | p ∷ ps ↦
                      if is_registered me x
                      then some usage_error
                      else await_pids can_remove others me n
                          (after_wait can_remove others me p r files).0
                          (after_wait can_remove others me p r files).1
                ])
                e
              ∙ (rw (m) later.2),
          later.3,
        )

    await_pids-usage_error :
        (n : ℕ) (r : Registry) (files : Files) (pids : List ℕ)
        → r.registry ≡ pids
        → is_registered me pids ≡ true
        → await_pids can_remove others me n r files ≡ some usage_error
    unfolding await_pids
    await_pids-usage_error n r files [] e m = absurd (true≢false (sym m))
    await_pids-usage_error zero r files (pid ∷ pids) e m =
        ap
          (λ (x : List ℕ). elim x as (λ _. Option Awaited) [
            | [] ↦ some (disconnected r files)
            | p ∷ ps ↦ if is_registered me x then some usage_error else none
          ])
          e
        ∙ (rw (m) refl)
    await_pids-usage_error (suc n) r files (pid ∷ pids) e m =
        ap
          (λ (x : List ℕ). elim x as (λ _. Option Awaited) [
            | [] ↦ some (disconnected r files)
            | p ∷ ps ↦
                if is_registered me x
                then some usage_error
                else await_pids can_remove others me n (after_wait can_remove others me p r files).0
                    (after_wait can_remove others me p r files).1
          ])
          e
        ∙ (rw (m) refl)

    complete :
        (r : Registry) (files : Files)
        → r.registry_construct_complete ≡ true
        → await_complete_disconnect can_remove others me (connected_pids r) r files
          ≡ await_pids can_remove others me (connected_pids r) r files
    unfolding await_complete_disconnect
    complete r files rc =
        ap
          (λ (b : Bool).
            if not b
            then some (disconnected r files)
            else await_pids can_remove others me (connected_pids r) r files)
          rc

    -- In a registry whose construction is complete, await_complete_disconnect throws if the calling
    -- process is registered. Otherwise, if each wait for the lock file of a pid ends with its lock
    -- released, it returns with no process registered, after at most one round for each of them.
    pub await_complete_disconnect-returns :
        (r : Registry) (files : Files)
        → ((pid : ℕ) (q : Registry) (f : Files)
            → (wait can_remove others me pid q f).1 pid ≢ locked)
        → r.registry_construct_complete ≡ true
        → (is_registered me r.registry ≡ true
            → await_complete_disconnect can_remove others me (connected_pids r) r files
              ≡ some usage_error)
          × (is_registered me r.registry ≡ false
              → (u : Registry) × (left : Files) × (await_complete_disconnect can_remove others me
                    (connected_pids r)
                    r
                    files
                  ≡ some (disconnected u left))
                × (u.registry ≡ []))
    await_complete_disconnect-returns r files w rc = (
      λ m.
          complete r files rc ∙ await_pids-usage_error (connected_pids r) r files r.registry refl m,
      λ m.
          let done =
            await_pids-returns (connected_pids r) r files r.registry w refl rc m (omega arith) in
          (done.0, done.1, complete r files rc ∙ done.2, done.3),
    )
