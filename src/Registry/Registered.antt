-- ===== src/Registry/Registered.antt =====
-- database_registry.tcc: what register_pid leaves.
use mathlib.Core.Option.{some-injective, none-ne-some}
use mathlib.Core.Bool.{true≢false}
use stldb.Prelude.{
  ℕ, ◌≡◌, inl, inr, refl, sym, ◌∙◌, subst, Bool, true, false, none, some, [], ◌∷◌, ◌++◌, ◌==◌,
  if◌then◌else◌, Bool-cases, eq→==,
}
use stldb.Registry.{locked, Files, Registry, set_at, is_registered, register_pid}
use stldb.Registry.Pids.{is_registered-split}
use stldb.Registry.Need.{AreConnected}

-- The registry and the files after register_pid.
abbrev pub entered : ℕ → Registry → Files → Registry × Files
entered me r files = (record r { registry = r.registry ++ (me ∷ []) }, set_at me locked files)

pub register_pid-some :
    (me : ℕ) (r : Registry) (files : Files) (u : Registry × Files)
    → register_pid me r files ≡ some u
    → (is_registered me r.registry ≡ false) × (entered me r files ≡ u)
unfolding register_pid
register_pid-some me r files u h = elim (Bool-cases (is_registered me r.registry)) [
  | inl e ↦ absurd (
      none-ne-some u
        (subst (λ (b : Bool). (if b then none else some (entered me r files)) ≡ some u) e h))
  | inr e ↦ (
    e,
    some-injective _ u
        (subst (λ (b : Bool). (if b then none else some (entered me r files)) ≡ some u) e h),
  )
]

pub register_pid-none :
    (me : ℕ) (r : Registry) (files : Files)
    → register_pid me r files ≡ none
    → is_registered me r.registry ≡ true
unfolding register_pid
register_pid-none me r files h = elim (Bool-cases (is_registered me r.registry)) [
  | inl e ↦ e
  | inr e ↦ absurd (
      none-ne-some (entered me r files) (
        sym h
        ∙ subst
            (λ (b : Bool).
              (if b then none else some (entered me r files)) ≡ some (entered me r files))
            (sym e) refl))
]

-- Where every process but the one that registers was connected, every process is.
pub entered-AreConnected :
    (me q : ℕ) (r : Registry) (files : Files)
    → AreConnected me r.registry files
    → AreConnected q (entered me r files).0.registry (entered me r files).1
entered-AreConnected me q r files h p k = elim (Bool-cases (me == p)) [
  | inl e ↦ inr (rw (e) refl)
  | inr e ↦ elim (is_registered-split p me r.registry k) [
    | inr m ↦ absurd (true≢false (sym (eq→== me p m) ∙ e))
    | inl m ↦ elim (h p m) [
      | inl z ↦ absurd (true≢false (sym (eq→== me p (sym z)) ∙ e))
      | inr z ↦ inr (rw (e) z)
    ]
  ]
]
