-- ===== src/Registry/Pids.antt =====
-- database_registry.tcc: the search for a pid in the registry, after push_back and erase.
use mathlib.Core.Bool.{true≢false}
use stldb.Prelude.{
  ℕ, ◌≡◌, ◌≢◌, ◌⊎◌, inl, inr, refl, sym, ◌∙◌, subst, Bool, true, false, ◌||◌, List, [], ◌∷◌, ◌++◌,
  ◌==◌, if◌then◌else◌, if-elim, length, arith, ◌≤◌, ◌<◌, eq→==, ==_refl, ==→eq, Bool-cases,
  or-false,
}
use stldb.Registry.{is_registered, erase_pid}

pub is_registered-cons :
    (q pid : ℕ) (pids : List ℕ)
    → is_registered q (pid ∷ pids) ≡ true
    → (pid ≡ q) ⊎ (is_registered q pids ≡ true)
unfolding is_registered
is_registered-cons q pid pids h = elim (Bool-cases (pid == q)) [
  | inl e ↦ inl (==→eq pid q e)
  | inr e ↦ inr (subst (λ (b : Bool). (b || is_registered q pids) ≡ true) e h)
]

pub is_registered-append :
    (q : ℕ) (pids more : List ℕ)
    → is_registered q pids ≡ true
    → is_registered q (pids ++ more) ≡ true
unfolding is_registered
is_registered-append q [] more h = absurd (true≢false (sym h))
is_registered-append q (pid ∷ pids) more h = elim (Bool-cases (pid == q)) [
  | inl e ↦ rw (e) refl
  | inr e ↦ rw (e) (
      is_registered-append q pids more
        (subst (λ (b : Bool). (b || is_registered q pids) ≡ true) e h))
]

pub is_registered-last : (q : ℕ) (pids : List ℕ) → is_registered q (pids ++ (q ∷ [])) ≡ true
unfolding is_registered
is_registered-last q [] = rw (==_refl q) refl
is_registered-last q (pid ∷ pids) = rw (is_registered-last q pids) (ground arith)

pub is_registered-erase :
    (q me : ℕ) (pids : List ℕ)
    → q ≢ me
    → is_registered q pids ≡ true
    → is_registered q (erase_pid me pids) ≡ true
unfolding is_registered erase_pid
is_registered-erase q me [] n h = h
is_registered-erase q me (pid ∷ pids) n h = elim (is_registered-cons q pid pids h) [
  | inl e ↦
      if-elim (λ (l : List ℕ). is_registered q l ≡ true) (pid == me) _ _
        (λ p. absurd (n (sym e ∙ ==→eq pid me p))) λ _. rw (e, ==_refl q) refl
  | inr e ↦
      if-elim (λ (l : List ℕ). is_registered q l ≡ true) (pid == me) _ _ (λ _. e)
        λ _. rw (is_registered-erase q me pids n e) (ground arith)
]

pub length-erase_pid : (me : ℕ) (pids : List ℕ) → length (erase_pid me pids) ≤ length pids
unfolding erase_pid
length-erase_pid me [] = omega arith
length-erase_pid me (pid ∷ pids) = let later = length-erase_pid me pids in ground (arith, later)

-- What is no longer there was erased, so the list is shorter.
pub erase_pid-shorter :
    (q me : ℕ) (pids : List ℕ)
    → is_registered q pids ≡ true
    → is_registered q (erase_pid me pids) ≡ false
    → length (erase_pid me pids) < length pids
unfolding erase_pid is_registered
erase_pid-shorter q me [] r e = absurd (true≢false (sym r))
erase_pid-shorter q me (pid ∷ pids) r e = elim (Bool-cases (pid == me)) [
  | inl p ↦ rw (p) (omega arith)
  | inr p ↦
      let rest = or-false (pid == q) _ (
        subst (λ (b : Bool). is_registered q (if b then pids else pid ∷ erase_pid me pids) ≡ false)
          p e) in
      let later : length (erase_pid me pids) < length pids =
        elim (is_registered-cons q pid pids r) [
          | inl k ↦ absurd (true≢false (sym (eq→== pid q k) ∙ rest.0))
          | inr k ↦ erase_pid-shorter q me pids k rest.1
        ] in
      rw (p) (omega (arith, later))
]

pub is_registered-erased :
    (q me : ℕ) (pids : List ℕ)
    → is_registered q pids ≡ false
    → is_registered q (erase_pid me pids) ≡ false
unfolding erase_pid is_registered
is_registered-erased q me [] h = h
is_registered-erased q me (pid ∷ pids) h =
    let rest = or-false (pid == q) _ h in
    if-elim (λ (l : List ℕ). is_registered q l ≡ false) (pid == me) _ _ (λ _. rest.1)
      λ _. rw (rest.0, is_registered-erased q me pids rest.1) refl

pub is_registered-split :
    (q me : ℕ) (pids : List ℕ)
    → is_registered q (pids ++ (me ∷ [])) ≡ true
    → (is_registered q pids ≡ true) ⊎ (me ≡ q)
unfolding is_registered
is_registered-split q me [] h = elim (is_registered-cons q me [] h) [
  | inl e ↦ inr e
  | inr e ↦ absurd (true≢false (sym e))
]
is_registered-split q me (pid ∷ pids) h = elim (is_registered-cons q pid (pids ++ (me ∷ [])) h) [
  | inl e ↦ inl (rw (e, ==_refl q) refl)
  | inr e ↦ elim (is_registered-split q me pids e) [
    | inl k ↦ inl (rw (k) (ground arith))
    | inr k ↦ inr k
  ]
]
