-- ===== src/TransMap/Iterator/Scan.antt =====
-- trans_assoc_iterator.h: iterating a map with operator++.
use stldb.Prelude.{
  ℕ, zero, suc, ◌≡◌, ◌≤◌, refl, false, [], ◌∷◌, ◌∙◌, ap, arith, length, Bool-cases, inl, inr,
}
use stldb.TransMap.Op.{TransMap}
use stldb.TransMap.Iterator.{Iter, hidden, skip_forward, begin, scan, visible_rows}

module _ {K V : Type 0} where
  -- An iterator rests on an entry that its reader may see.
  abbrev AtVisible : ℕ → Iter K V → Type 0
  AtVisible locker [] = Unit {0}
  AtVisible locker ((k, e) ∷ rest) = hidden locker e ≡ false

  skip_forward-AtVisible : (locker : ℕ) (i : Iter K V) → AtVisible locker (skip_forward locker i)
  unfolding skip_forward
  skip_forward-AtVisible locker [] = tt
  skip_forward-AtVisible locker ((k, e) ∷ rest) = elim (Bool-cases (hidden locker e)) [
    | inl h ↦ rw h (skip_forward-AtVisible locker rest)
    | inr s ↦ rw s s
  ]

  visible_rows-skip_forward :
      (locker : ℕ) (i : Iter K V)
      → visible_rows locker (skip_forward locker i) ≡ visible_rows locker i
  unfolding skip_forward
  visible_rows-skip_forward locker [] = refl
  visible_rows-skip_forward locker ((k, e) ∷ rest) =
      ground (arith, visible_rows-skip_forward locker rest)

  length-skip_forward : (locker : ℕ) (i : Iter K V) → length (skip_forward locker i) ≤ length i
  unfolding skip_forward
  length-skip_forward locker [] = omega arith
  length-skip_forward locker ((k, e) ∷ rest) = ground (arith, length-skip_forward locker rest)

  scan-visible_rows :
      (fuel locker : ℕ) (i : Iter K V)
      → length i ≤ fuel
      → AtVisible locker i
      → scan fuel locker i ≡ visible_rows locker i
  unfolding scan
  scan-visible_rows zero locker [] h v = refl
  scan-visible_rows zero locker (x ∷ i) h v = absurd (omega arith)
  scan-visible_rows (suc fuel) locker [] h v = refl
  scan-visible_rows (suc fuel) locker ((k, e) ∷ rest) h v = rw v (
      ap (λ (r : Iter K V). (k, e) ∷ r)
        (scan-visible_rows fuel locker (skip_forward locker rest)
            (omega (arith, length-skip_forward locker rest)) (skip_forward-AtVisible locker rest)
          ∙ visible_rows-skip_forward locker rest))

  -- A loop from begin() by operator++ to end() ends within one round for each entry of the map,
  -- and visits exactly the entries that are neither another transaction's pending insert nor the
  -- reader's own delete, in the order of the container.
  pub scan-begin :
      (locker fuel : ℕ) (m : TransMap K V)
      → length m.rows ≤ fuel
      → scan fuel locker (begin locker m) ≡ visible_rows locker m.rows
  unfolding begin
  scan-begin locker fuel m h =
      scan-visible_rows fuel locker (skip_forward locker m.rows)
        (omega (arith, length-skip_forward locker m.rows)) (skip_forward-AtVisible locker m.rows)
      ∙ visible_rows-skip_forward locker m.rows
