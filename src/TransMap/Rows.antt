-- ===== src/TransMap/Rows.antt =====
-- The container under a trans_map (its `baseclass`, a sorted map with unique keys), as the list of
-- its entries in key order, and the calls of it that trans_map makes.
use mathlib.Core.Option
use stldb.Prelude.{
  ◌≡◌, ◌↔◌, refl, Bool, true, false, Option, none, some, List, [], ◌∷◌, arith, if◌then◌else◌,
  Bool-cases, inl, inr,
}

-- The Comparator template argument: `less`, and the equivalence of keys that the container
-- derives from it (neither is less), which identifies equal keys only.
pub record Comparator {ℓ} (K : Type ℓ) : Type ℓ where
  pub less : K → K → Bool
  pub same : K → K → Bool
  pub same_iff : (a b : K) → (same a b ≡ true) ↔ (a ≡ b)

module _ {ℓ} {K : Type ℓ} ⦃c : Comparator K⦄ where
  pub same_self : (k : K) → c.same k k ≡ true
  same_self k = (c.same_iff k k).1 refl

module _ {ℓ κ} {K : Type ℓ} {R : Type κ} ⦃c : Comparator K⦄ where
  -- baseclass::find
  unfoldable pub find : K → List (K × R) → Option R
  find k [] = none
  find k ((j, r) ∷ m) = if c.same j k then some r else find k m

  -- baseclass::insert of a key that the container does not hold.
  unfoldable pub insert_new : K → R → List (K × R) → List (K × R)
  insert_new k r [] = (k, r) ∷ []
  insert_new k r ((j, w) ∷ m) =
      if c.less k j then (k, r) ∷ (j, w) ∷ m else (j, w) ∷ insert_new k r m

  -- baseclass::erase
  unfoldable pub erase : K → List (K × R) → List (K × R)
  erase k [] = []
  erase k ((j, w) ∷ m) = let rest = erase k m in if c.same j k then rest else (j, w) ∷ rest

  -- A write through an iterator at the key.
  unfoldable pub modify : K → (R → R) → List (K × R) → List (K × R)
  modify k f [] = []
  modify k f ((j, w) ∷ m) = if c.same j k then (j, f w) ∷ m else (j, w) ∷ modify k f m

  pub find-insert_new :
      (k j : K) (r : R) (m : List (K × R))
      → find k m ≡ none
      → find j (insert_new k r m) ≡ (if c.same k j then some r else find j m)
  unfolding find insert_new
  find-insert_new k j r [] h = refl
  find-insert_new k j r ((i, w) ∷ m) h =
      ground (arith, c.same_iff i k, c.same_iff i j, c.same_iff k j, find-insert_new k j r m)

  pub find-erase :
      (k j : K) (m : List (K × R)) → find j (erase k m) ≡ (if c.same k j then none else find j m)
  unfolding find erase
  find-erase k j [] = ground arith
  find-erase k j ((i, w) ∷ m) =
      ground (arith, c.same_iff i k, c.same_iff i j, c.same_iff k j, find-erase k j m)

  pub find-modify :
      (k j : K) (f : R → R) (m : List (K × R))
      → find j (modify k f m) ≡ (if c.same k j then Option.map f (find j m) else find j m)
  unfolding find modify
  find-modify k j f [] = ground arith
  find-modify k j f ((i, w) ∷ m) =
      ground (arith, c.same_iff i k, c.same_iff i j, c.same_iff k j, find-modify k j f m)

  erase_absent : (k : K) (m : List (K × R)) → find k m ≡ none → erase k m ≡ m
  unfolding find erase
  erase_absent k [] h = refl
  erase_absent k ((i, w) ∷ m) h = ground (arith, erase_absent k m)

  pub erase-insert_new :
      (k : K) (r : R) (m : List (K × R)) → find k m ≡ none → erase k (insert_new k r m) ≡ m
  unfolding find erase insert_new
  erase-insert_new k r [] h = ground (arith, same_self k)
  erase-insert_new k r ((i, w) ∷ m) h =
      ground (arith, same_self k, erase_absent k m, erase-insert_new k r m)

  pub modify-modify :
      (k : K) (f g : R → R) (m : List (K × R))
      → modify k f (modify k g m) ≡ modify k (λ r. f (g r)) m
  unfolding modify
  modify-modify k f g [] = refl
  modify-modify k f g ((i, w) ∷ m) = ground (arith, modify-modify k f g m)

  pub modify_id :
      (k : K) (f : R → R) (r : R) (m : List (K × R))
      → find k m ≡ some r
      → f r ≡ r
      → modify k f m ≡ m
  unfolding find modify
  modify_id k f r [] h e = cc
  modify_id k f r ((i, w) ∷ m) h e = ground (arith, modify_id k f r m)

  -- Writes that commute at one entry commute on the container.
  pub modify_comm :
      (k j : K) (f g : R → R) (m : List (K × R))
      → ((r : R) → f (g r) ≡ g (f r))
      → modify k f (modify j g m) ≡ modify j g (modify k f m)
  unfolding modify
  modify_comm k j f g [] h = refl
  modify_comm k j f g ((i, w) ∷ m) h = ground (arith, h w, modify_comm k j f g m h)

  pub erase-modify_self :
      (k : K) (f : R → R) (m : List (K × R)) → erase k (modify k f m) ≡ erase k m
  unfolding erase modify
  erase-modify_self k f [] = refl
  erase-modify_self k f ((i, w) ∷ m) = ground (arith, erase-modify_self k f m)

  modify_absent : (k : K) (f : R → R) (m : List (K × R)) → find k m ≡ none → modify k f m ≡ m
  unfolding find modify
  modify_absent k f [] h = refl
  modify_absent k f ((i, w) ∷ m) h = ground (arith, modify_absent k f m)

  erase-modify_ne :
      (j k : K) (f : R → R) (m : List (K × R))
      → c.same k j ≡ false
      → erase j (modify k f m) ≡ modify k f (erase j m)
  unfolding erase modify
  erase-modify_ne j k f [] h = refl
  erase-modify_ne j k f ((i, w) ∷ m) h =
      ground (arith, c.same_iff i k, c.same_iff i j, c.same_iff k j, erase-modify_ne j k f m h)

  pub erase-modify_comm :
      (j k : K) (f : R → R) (m : List (K × R)) → erase j (modify k f m) ≡ modify k f (erase j m)
  erase-modify_comm j k f m = elim (Bool-cases (c.same k j)) [
    | inl e ↦ ground (
      arith,
      c.same_iff k j,
      erase-modify_self k f m,
      modify_absent k f (erase k m),
      find-erase k k m,
      same_self k,
    )
    | inr e ↦ erase-modify_ne j k f m e
  ]
