-- ===== src/Database/Ready.antt =====
-- stldb/Database.tcc: the registry that the constructor of Database goes on with.
use mathlib.Core.Bool.{true≢false}
use stldb.Prelude.{
  ℕ, ◌≡◌, inl, inr, refl, sym, subst, Bool, true, false, not, Option, none, some, if-elim,
  Bool-cases,
}
use stldb.Registry.{Files, Registry, is_registered, register_pid, check_need_for_recovery}
use stldb.Registry.Need.{AreConnected, check_need_for_recovery-exact}
use stldb.Registry.Registered.{register_pid-some, entered-AreConnected}
use stldb.Database.Info.{Region, Arguments}
use stldb.Database.Open.{Attached, fresh, checked, found_registry, attach}

module _ (me : ℕ) where
  -- The registry when the constructor goes on to the database info.
  pub record IsReady (creating : Bool) (g : Registry) (files : Files) : Type 0 where
    pub complete : g.registry_construct_complete ≡ true
    pub not_invalid : g.database_invalid ≡ false
    pub built : g.database_construct_complete ≡ not creating
    pub connected : (q : ℕ) → AreConnected q g.registry files

  module _ {State : Type 0} where
    -- What the constructor finds: a new registry, or one in which a check found no need.
    unfoldable pub AttachedIsReady : Attached State → Type 0
    AttachedIsReady t =
        (t.registry.registry_construct_complete ≡ true)
        × (t.registry.database_invalid ≡ false)
        × (t.registry.database_construct_complete ≡ not t.creating_region)
        × AreConnected me t.registry.registry t.files

    pub entered-IsReady :
        (t : Attached State) (k : Registry × Files)
        → AttachedIsReady t
        → register_pid me t.registry t.files ≡ some k
        → IsReady t.creating_region k.0 k.1
    unfolding AttachedIsReady
    entered-IsReady t k h e =
        let p = register_pid-some me t.registry t.files k e in
        subst (λ (x : Registry × Files). IsReady t.creating_region x.0 x.1) p.1
          (record {
            complete = h.0;
            not_invalid = h.1;
            built = h.2;
            connected = λ q. entered-AreConnected me q t.registry t.files h.3;
          })

    module _ (can_remove : ℕ → Bool) (a : Arguments) (sane : Region State → Bool)
        (empty : State) where
      checked-IsReady :
          (r : Region State) (g : Registry) (files : Files)
          → AttachedIsReady
              (checked can_remove me a sane empty r (check_need_for_recovery can_remove me g files))
      unfolding AttachedIsReady is_registered
      checked-IsReady r g files =
          elim (Bool-cases (check_need_for_recovery can_remove me g files).0) [
            | inl e ↦ rw (e) (refl, refl, refl, λ q k. absurd (true≢false (sym k)))
            | inr e ↦
                let s = (check_need_for_recovery-exact can_remove me g files).0 e in
                rw ((check_need_for_recovery-exact can_remove me g files).1 s) (
                  if-elim AttachedIsReady (not (sane r)) _ _
                    (λ _. (refl, refl, refl, λ q k. absurd (true≢false (sym k))))
                    λ _. (s.registry_complete, s.not_invalid, s.database_complete, s.connected))
          ]

      found_registry-IsReady :
          (r : Region State) (files : Files) (o : Option Registry)
          → AttachedIsReady (found_registry can_remove me a sane empty r files o)
      unfolding AttachedIsReady is_registered
      found_registry-IsReady r files none = (refl, refl, refl, λ q k. absurd (true≢false (sym k)))
      found_registry-IsReady r files (some g) = checked-IsReady r g files

      pub attach-IsReady :
          (region : Option (Region State)) (files : Files)
          → AttachedIsReady (attach can_remove me a sane empty region files)
      unfolding attach
      attach-IsReady none files =
          found_registry-IsReady (fresh can_remove me a sane empty) files none
      attach-IsReady (some r) files = found_registry-IsReady r files r.registry
