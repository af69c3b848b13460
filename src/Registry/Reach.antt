-- ===== src/Registry/Reach.antt =====
-- database_registry.tcc: the registry is consistent with the processes in every world that the steps
-- reach, so that no death goes unnoticed.
use mathlib.Core.Bool.{true≢false}
use stldb.Prelude.{
  ℕ, ◌≡◌, inl, inr, refl, sym, ◌∙◌, subst, Bool, true, false, [], ◌∷◌, ◌++◌, ◌==◌, arith, eq→==,
  ==→eq, Bool-cases,
}
use stldb.Registry.{
  unlocked, locked, Files, Registry, Checked, set_at, is_registered, erase_pid, unregister_pid,
  check_need_for_recovery,
}
use stldb.Registry.Check.{remove_if-invalid, remove_if-files, remove_if-stays, remove_if-died}
use stldb.Registry.Pids.{is_registered-append, is_registered-last, is_registered-erase}
use stldb.Registry.Registered.{register_pid-some}
use stldb.Registry.Steps.{
  World, start, Step, opens, closes, checks, constructs, invalidates, dies, dies_opening,
  dies_closing, Reach, here, next, IsConsistent,
}

opens-IsConsistent :
    (w : World) (me : ℕ)
    → IsConsistent w
    → is_registered me w.registry.registry ≡ false
    → IsConsistent (record w {
      registry = record w.registry { registry = w.registry.registry ++ (me ∷ []) };
      files = set_at me locked w.files;
      running = set_at me true w.running;
    })
opens-IsConsistent w me i n = record {
  complete = i.complete;
  running = λ q h. ground (
    arith,
    h,
    i.running q,
    is_registered-append q w.registry.registry (me ∷ []),
    is_registered-last q w.registry.registry,
  );
  died =
      λ q h. ground (arith, h, n, i.died q, is_registered-append q w.registry.registry (me ∷ []));
}

module _ (can_remove : ℕ → Bool) where
  closes-IsConsistent :
      (w : World) (me : ℕ)
      → IsConsistent w
      → w.running me ≡ true
      → IsConsistent (record w {
        registry = (unregister_pid can_remove me w.registry w.files).0;
        files = (unregister_pid can_remove me w.registry w.files).1;
        running = set_at me false w.running;
      })
  unfolding unregister_pid
  closes-IsConsistent w me i n = record {
    complete = i.complete;
    running = λ q h. ground (arith, h, i.running q, is_registered-erase q me w.registry.registry);
    died = λ q h.
        ground
          (arith, h, n, i.running me n, i.died q, is_registered-erase q me w.registry.registry);
  }

  checks-IsConsistent :
      (w : World) (me : ℕ)
      → IsConsistent w
      → IsConsistent (record w {
        registry = (check_need_for_recovery can_remove me w.registry w.files).1.0;
        files = (check_need_for_recovery can_remove me w.registry w.files).1.1;
      })
  unfolding check_need_for_recovery
  checks-IsConsistent w me i = rw (i.complete) (record {
    complete = refl;
    running = λ q h.
        let k = i.running q h in
        (
          remove_if-stays can_remove me q w.registry.registry c (inr k.1) k.0,
          remove_if-files can_remove me q w.registry.registry c (inr k.1) ∙ k.1,
        );
    died = λ q h. elim (i.died q h) [
      | inl e ↦ inl (remove_if-invalid can_remove me w.registry.registry c e)
      | inr (r, e) ↦ elim (Bool-cases (q == me)) [
        | inl p ↦ inr (
          remove_if-stays can_remove me q w.registry.registry c (inl (==→eq q me p)) r,
          remove_if-files can_remove me q w.registry.registry c (inl (==→eq q me p)) ∙ e,
        )
        | inr p ↦ inl (
            remove_if-died can_remove me q w.registry.registry c
              (λ z. true≢false (sym (eq→== q me z) ∙ p)) e r)
      ]
    ];
  })
    where
      c : Checked
      c = record { invalid_ind = w.registry.database_invalid; files = w.files }

  dies-IsConsistent :
      (w : World) (me : ℕ)
      → IsConsistent w
      → w.running me ≡ true
      → IsConsistent (record w {
        files = set_at me unlocked w.files;
        running = set_at me false w.running;
        died = set_at me true w.died;
      })
  dies-IsConsistent w me i n = record {
    complete = i.complete;
    running = λ q h. ground (arith, h, i.running q);
    died = λ q h. ground (arith, h, n, i.running me n, i.died q);
  }

  dies_opening-IsConsistent :
      (w : World) (me : ℕ)
      → IsConsistent w
      → IsConsistent (record w {
        registry = record w.registry { registry = w.registry.registry ++ (me ∷ []) };
      })
  dies_opening-IsConsistent w me i = record {
    complete = i.complete;
    running =
        λ q h. ground (arith, h, i.running q, is_registered-append q w.registry.registry (me ∷ []));
    died = λ q h. ground (arith, h, i.died q, is_registered-append q w.registry.registry (me ∷ []));
  }

  dies_closing-IsConsistent :
      (w : World) (me : ℕ)
      → IsConsistent w
      → w.running me ≡ true
      → IsConsistent (record w {
        registry = record w.registry { registry = erase_pid me w.registry.registry };
        files = set_at me unlocked w.files;
        running = set_at me false w.running;
      })
  dies_closing-IsConsistent w me i n = record {
    complete = i.complete;
    running = λ q h. ground (arith, h, i.running q, is_registered-erase q me w.registry.registry);
    died = λ q h.
        ground
          (arith, h, n, i.running me n, i.died q, is_registered-erase q me w.registry.registry);
  }

  -- Each step keeps the registry consistent.
  Step-IsConsistent : {w u : World} → Step can_remove w u → IsConsistent w → IsConsistent u
  Step-IsConsistent {w} {u} (opens me r files n g e) i =
      let k = register_pid-some me w.registry w.files (r, files) g in
      subst IsConsistent (sym e) (
        subst
          (λ (x : Registry × Files).
            IsConsistent
              (record w { registry = x.0; files = x.1; running = set_at me true w.running }))
          k.1 (opens-IsConsistent w me i k.0))
  Step-IsConsistent {w} {u} (closes me n e) i =
      subst IsConsistent (sym e) (closes-IsConsistent w me i n)
  Step-IsConsistent {w} {u} (checks me e) i =
      subst IsConsistent (sym e) (checks-IsConsistent w me i)
  Step-IsConsistent {w} {u} (constructs e) i =
      subst IsConsistent (sym e)
        (record { complete = i.complete; running = i.running; died = i.died })
  Step-IsConsistent {w} {u} (invalidates e) i =
      subst IsConsistent (sym e)
        (record { complete = i.complete; running = i.running; died = λ q h. inl refl })
  Step-IsConsistent {w} {u} (dies me n e) i =
      subst IsConsistent (sym e) (dies-IsConsistent w me i n)
  Step-IsConsistent {w} {u} (dies_opening me n g e) i =
      subst IsConsistent (sym e) (dies_opening-IsConsistent w me i)
  Step-IsConsistent {w} {u} (dies_closing me n e) i =
      subst IsConsistent (sym e) (dies_closing-IsConsistent w me i n)

  pub Reach-IsConsistent : {w u : World} → IsConsistent w → Reach can_remove w u → IsConsistent u
  Reach-IsConsistent i here = i
  Reach-IsConsistent i (next r s) = Step-IsConsistent s (Reach-IsConsistent i r)

  pub start-IsConsistent : (files : Files) → IsConsistent (start files)
  start-IsConsistent files = record {
    complete = refl;
    running = λ q h. absurd (true≢false (sym h));
    died = λ q h. absurd (true≢false (sym h));
  }
