-- ===== src/Checkpoint/Skip.antt =====
-- stldb/checkpoint.h: a checkpoint file as a sequence of entries and free regions, and where
-- the loop of forward() over the free regions stops.
use stldb.Prelude.{
  ℕ, zero, suc, ◌+◌, ◌≤◌, ◌<◌, ◌≡◌, refl, ap, ◌∙◌, Bool, true, false, not, Option, none, some, List,
  [], ◌∷◌, arith, ◌==◌, leb, length, ok, if-elim, ==_refl, inl, inr, ◌⊎◌,
}
use stldb.Checkpoint.Iterator.{lower_bound, skip_free, CheckpointIfstream}

-- A checkpoint file is a sequence of free regions and entries.
pub data Piece (T : Type 0) : Type 0 where
  free : ℕ → Piece T
  entry : ℕ → T → Piece T

module _ {T : Type 0} where
  -- The free regions of the pieces, which start at an offset.
  unfoldable pub free_regions : ℕ → List (Piece T) → List (ℕ × ℕ)
  free_regions offset [] = []
  free_regions offset (free s ∷ ps) = (offset, s) ∷ free_regions (offset + s) ps
  free_regions offset (entry s v ∷ ps) = free_regions (offset + s) ps

  -- The entries with their locations.
  unfoldable pub entries : ℕ → List (Piece T) → List (T × (ℕ × ℕ))
  entries offset [] = []
  entries offset (free s ∷ ps) = entries (offset + s) ps
  entries offset (entry s v ∷ ps) = (v, (offset, s)) ∷ entries (offset + s) ps

  -- The entries, but for one that ends the file.
  unfoldable pub entries_before_last : ℕ → List (Piece T) → List (T × (ℕ × ℕ))
  entries_before_last offset [] = []
  entries_before_last offset (free s ∷ ps) = entries_before_last (offset + s) ps
  entries_before_last offset (entry s v ∷ []) = []
  entries_before_last offset (entry s v ∷ p ∷ ps) =
      (v, (offset, s)) ∷ entries_before_last (offset + s) (p ∷ ps)

  module _ (f : CheckpointIfstream T) where
    -- The pieces fill the file from the offset to its end, and the entries are read back.
    abbrev pub IsLaid : ℕ → List (Piece T) → Type 0
    IsLaid offset [] = offset ≡ f.file_length
    IsLaid offset (free s ∷ ps) = (0 < s) × IsLaid (offset + s) ps
    IsLaid offset (entry s v ∷ ps) = (0 < s) × (f.read offset ≡ ok (s, v)) × IsLaid (offset + s) ps

    -- From here on, the map of the free regions is that of the pieces left.
    abbrev pub FindsIn : ℕ → List (Piece T) → Type 0
    FindsIn offset ps =
        (k : ℕ)
        → offset ≤ k
        → lower_bound k f.free_by_offset ≡ lower_bound k (free_regions offset ps)

    -- No region starts at the offset.
    abbrev pub misses : ℕ → Option (ℕ × ℕ) → Bool
    misses k none = true
    misses k (some region) = not (region.0 == k)

    lower_bound-misses :
        (k offset : ℕ) (ps : List (Piece T))
        → k < offset
        → misses k (lower_bound k (free_regions offset ps)) ≡ true
    unfolding free_regions lower_bound
    lower_bound-misses k offset [] l = refl
    lower_bound-misses k offset (free s ∷ ps) l =
        if-elim (λ r. misses k r ≡ true) (leb k offset) (some (offset, s))
          (lower_bound k (free_regions (offset + s) ps)) (λ e. ground arith)
          (λ e. ground (arith, e))
    lower_bound-misses k offset (entry s v ∷ ps) l =
        lower_bound-misses k (offset + s) ps (omega arith)

    pub skip_free-miss :
        (n offset : ℕ)
        → misses offset (lower_bound offset f.free_by_offset) ≡ true
        → skip_free n f.free_by_offset offset ≡ offset
    unfolding skip_free
    skip_free-miss zero offset h = refl
    skip_free-miss (suc n) offset h = go (lower_bound offset f.free_by_offset) h
      where
        go :
            (r : Option (ℕ × ℕ))
            → misses offset r ≡ true
            → (elim r as (λ r. ℕ) [
              | none ↦ offset
              | some region ↦ elim (region.0 == offset) as (λ b. ℕ) [
                | true ↦ skip_free n f.free_by_offset (offset + region.1)
                | false ↦ offset
              ]
            ])
              ≡ offset
        go none h = refl
        go (some (o, s)) h = ground (arith, h)

    skip_free-hit :
        (n offset s : ℕ)
        → lower_bound offset f.free_by_offset ≡ some (offset, s)
        → skip_free (suc n) f.free_by_offset offset ≡ skip_free n f.free_by_offset (offset + s)
    unfolding skip_free
    skip_free-hit n offset s h = rw (h, skip_free) (rw (==_refl offset) refl)

    FindsIn-next :
        (offset s : ℕ) (ps : List (Piece T))
        → FindsIn offset (free s ∷ ps)
        → 0 < s
        → FindsIn (offset + s) ps
    unfolding free_regions lower_bound
    FindsIn-next offset s ps h l = λ k u. ground (arith, h k (omega arith))

    pub laid-le :
        (offset : ℕ) (ps : List (Piece T)) → IsLaid offset ps → offset + length ps ≤ f.file_length
    laid-le offset [] h = omega (arith, h)
    laid-le offset (free s ∷ ps) h = omega (arith, h.0, laid-le (offset + s) ps h.1)
    laid-le offset (entry s v ∷ ps) h = omega (arith, h.0, laid-le (offset + s) ps h.2)

    -- The loop over the free regions stops at an entry.
    pub record StopsAtEntry (n offset : ℕ) (ps : List (Piece T)) : Type 0 where
      pub next : ℕ
      pub size : ℕ
      pub value : T
      pub left : List (Piece T)
      pub skips : skip_free n f.free_by_offset offset ≡ next
      pub laid : IsLaid next (entry size value ∷ left)
      pub finds : FindsIn (next + size) left
      pub shorter : length left < length ps
      pub rest : entries_before_last offset ps ≡ entries_before_last next (entry size value ∷ left)

    -- The loop over the free regions stops at the end of the file.
    pub record StopsAtEnd (n offset : ℕ) (ps : List (Piece T)) : Type 0 where
      pub skips : skip_free n f.free_by_offset offset ≡ f.file_length
      pub rest : entries_before_last offset ps ≡ []

    pub skip_free-stops :
        (n offset : ℕ) (ps : List (Piece T))
        → length ps ≤ n
        → IsLaid offset ps
        → FindsIn offset ps
        → StopsAtEntry n offset ps ⊎ StopsAtEnd n offset ps
    unfolding free_regions entries_before_last lower_bound
    skip_free-stops n offset [] l h u = inr (record {
      skips = skip_free-miss n offset (ap (misses offset) (u offset (omega arith))) ∙ h;
      rest = refl;
    })
    skip_free-stops n offset (entry s v ∷ ps) l h u = inl (record {
      next = offset;
      size = s;
      value = v;
      left = ps;
      skips = skip_free-miss n offset (
          ap (misses offset) (u offset (omega arith))
          ∙ lower_bound-misses offset (offset + s) ps (omega (arith, h.0)));
      laid = h;
      finds = λ k le. u k (omega arith);
      shorter = omega arith;
      rest = refl;
    })
    skip_free-stops zero offset (free s ∷ ps) l h u = absurd (omega (arith, l))
    skip_free-stops (suc n) offset (free s ∷ ps) l h u =
        elim (skip_free-stops n (offset + s) ps (omega (arith, l)) h.1
          (FindsIn-next offset s ps u h.0)) [
            | inl r ↦ inl (record {
              next = r.next;
              size = r.size;
              value = r.value;
              left = r.left;
              skips = hit ∙ r.skips;
              laid = r.laid;
              finds = r.finds;
              shorter = omega (arith, r.shorter);
              rest = r.rest;
            })
            | inr r ↦ inr (record { skips = hit ∙ r.skips; rest = r.rest })
          ]
      where
        hit : skip_free (suc n) f.free_by_offset offset ≡ skip_free n f.free_by_offset (offset + s)
        hit = skip_free-hit n offset s (u offset (omega arith) ∙ ground arith)
