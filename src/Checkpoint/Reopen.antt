-- ===== src/Checkpoint/Reopen.antt =====
-- src/checkpoint.cpp, prepare_free_by_offset: the map by offset is made again from the metafile.
use stldb.Prelude.{
  ℕ, ◌+◌, ◌≤◌, ◌<◌, ◌≡◌, refl, sym, ap, ◌∙◌, subst, true, false, ◌&&◌, List, [], ◌∷◌, arith, ◌==◌,
  ltb, Bool-cases, inl, inr, ltb→lt,
}
use stldb.Checkpoint.Regions.{insert_region, within, is_free, Apart, count}
use stldb.Checkpoint.File.{CheckpointOfstream, prepare_free_by_offset, open_info}
use stldb.Checkpoint.Count.{insert_region-Apart, Apart-le}
use stldb.Checkpoint.Extend.{IsValid}

-- An entry of regions that lie apart starts and ends between their bounds.
count-bounds :
    (a b lo hi : ℕ) (xs : List (ℕ × ℕ))
    → Apart lo xs hi
    → 0 < count a b xs
    → (lo ≤ a) × (0 < b) × (a + b ≤ hi)
unfolding count
count-bounds a b lo hi [] h p = absurd (omega (arith, p))
count-bounds a b lo hi ((o, s) ∷ xs) h p = elim (Bool-cases ((a == o) && (b == s))) [
  | inl e ↦ ground (arith, e, h.0, h.1, Apart-le (o + s) hi xs h.2)
  | inr e ↦ ground (arith, h.0, h.1, count-bounds a b (o + s) hi xs h.2 (ground (arith, e, p)))
]

-- Two entries that share a byte are the same, and it stands once.
count-shared :
    (a b p t x lo hi : ℕ) (xs : List (ℕ × ℕ))
    → Apart lo xs hi
    → 0 < count a b xs
    → 0 < count p t xs
    → within a b x ≡ true
    → within p t x ≡ true
    → (a ≡ p) × (b ≡ t) × (count a b xs ≡ 1)
unfolding count
count-shared a b p t x lo hi [] h m n w w' = absurd (omega (arith, m))
count-shared a b p t x lo hi ((o, s) ∷ xs) h m n w w' = elim (Bool-cases ((a == o) && (b == s))) [
  | inl e ↦ elim (Bool-cases ((p == o) && (t == s))) [
    | inl e' ↦ (ground (arith, e, e'), ground (arith, e, e'), rw e (omega (arith, absent a b e)))
    | inr e' ↦
        absurd (ground (arith, e, w, w', count-bounds p t (o + s) hi xs h.2 (positive p t e' n)))
  ]
  | inr e ↦ elim (Bool-cases ((p == o) && (t == s))) [
    | inl e' ↦
        absurd (ground (arith, e', w, w', count-bounds a b (o + s) hi xs h.2 (positive a b e m)))
    | inr e' ↦
        (let (first, second, once) =
            count-shared a b p t x (o + s) hi xs h.2 (positive a b e m) (positive p t e' n) w w' in
          (first, second, rw e (omega (arith, once))))
  ]
]
  where
    positive :
        (k v : ℕ) → ((k == o) && (v == s)) ≡ false → 0 < count k v ((o, s) ∷ xs) → 0 < count k v xs
    positive k v e l = ground (arith, e, l)

    absent : (k v : ℕ) → ((k == o) && (v == s)) ≡ true → count k v xs ≡ 0
    absent k v e = elim (Bool-cases (ltb 0 (count k v xs))) [
      | inl l ↦
          absurd
            (ground (arith, e, h.1, count-bounds k v (o + s) hi xs h.2 (ltb→lt 0 (count k v xs) l)))
      | inr l ↦ ground (arith, l)
    ]

-- A free byte lies in an entry.
is_free-entry :
    (x : ℕ) (xs : List (ℕ × ℕ))
    → is_free x xs ≡ true
    → (o : ℕ) × (s : ℕ) × (0 < count o s xs) × (within o s x ≡ true)
unfolding is_free count
is_free-entry x [] f = cc
is_free-entry x ((o, s) ∷ xs) f = elim (Bool-cases (within o s x)) [
  | inl e ↦ (o, s, ground arith, e)
  | inr e ↦
      (let (p, t, m, w) = is_free-entry x xs (ground (arith, f, e)) in (p, t, ground (arith, m), w))
]

-- Regions that lie apart are the same list if they have the same entries.
Apart-unique :
    (lo hi lo' hi' : ℕ) (xs ys : List (ℕ × ℕ))
    → Apart lo xs hi
    → Apart lo' ys hi'
    → ((o s : ℕ) → count o s xs ≡ count o s ys)
    → xs ≡ ys
unfolding count
Apart-unique lo hi lo' hi' [] [] h h' e = refl
Apart-unique lo hi lo' hi' [] ((p, t) ∷ ys) h h' e = absurd (ground (arith, e p t))
Apart-unique lo hi lo' hi' ((o, s) ∷ xs) [] h h' e = absurd (ground (arith, e o s))
Apart-unique lo hi lo' hi' ((o, s) ∷ xs) ((p, t) ∷ ys) h h' e =
    elim (Bool-cases ((o == p) && (s == t))) [
      | inl q ↦
          (let first : o ≡ p = ground (arith, q) in
            let second : s ≡ t = ground (arith, q) in
            ap (λ z. (z, s) ∷ xs) first
            ∙ ap (λ z. (p, z) ∷ xs) second
            ∙ ap (λ zs. (p, t) ∷ zs)
                (Apart-unique (o + s) hi (p + t) hi' xs ys h.2 h'.2
                  (λ a b. ground (arith, e a b, first, second))))
      | inr q ↦
          (let in_ys : 0 < count o s ys = ground (arith, e o s, q) in
            let in_xs : 0 < count p t xs = ground (arith, e p t, q) in
            absurd (
              omega (
                arith,
                count-bounds o s (p + t) hi' ys h'.2 in_ys,
                count-bounds p t (o + s) hi xs h.2 in_xs,
                h.1,
                h'.1,
              )))
    ]

-- The regions of a metafile, which are those that lie apart and are not in the map yet, join the others.
prepare_free_by_offset-Apart :
    (hi : ℕ) (spaces by_offset xs : List (ℕ × ℕ))
    → Apart 0 xs hi
    → Apart 0 by_offset hi
    → ((o s : ℕ) → count o s xs ≡ count s o spaces + count o s by_offset)
    → prepare_free_by_offset spaces by_offset ≡ xs
unfolding prepare_free_by_offset count
prepare_free_by_offset-Apart hi [] by_offset xs h h' e =
    Apart-unique 0 hi 0 hi by_offset xs h' h (λ o s. omega (arith, e o s))
prepare_free_by_offset-Apart hi ((s, o) ∷ spaces) by_offset xs h h' e =
    let here : 0 < count o s xs = ground (arith, e o s) in
    let (low, pos, high) = count-bounds o s 0 hi xs h here in
    let (apart, counts, bytes) =
      insert_region-Apart 0 hi o s by_offset h' low pos high (λ x w. not_free x w) in
    prepare_free_by_offset-Apart hi spaces (insert_region o s by_offset) xs h apart
      (λ a b. ground (arith, e a b, counts a b))
  where
    not_free : (x : ℕ) → within o s x ≡ true → is_free x by_offset ≡ false
    not_free x w = elim (Bool-cases (is_free x by_offset)) [
      | inr f ↦ f
      | inl f ↦
          (let (p, t, m, w') = is_free-entry x by_offset f in
            let (first, second, once) =
              count-shared o s p t x 0 hi xs h (ground (arith, e o s)) (ground (arith, e p t, m)) w
                w' in
            let twice : count o s by_offset ≡ count p t by_offset =
              ap (λ z. count z s by_offset) first ∙ ap (λ z. count p z by_offset) second in
            absurd (ground (arith, e o s, once, m, twice)))
    ]

-- Opening the metafile of a valid file gives the map by offset of that file, and a valid file without new free regions.
pub open_info-IsValid :
    (c : CheckpointOfstream)
    → IsValid c
    → ((open_info c.info).free_by_offset ≡ c.free_by_offset)
      × IsValid (open_info c.info)
      × ((open_info c.info).new_free_space ≡ [])
unfolding open_info count
open_info-IsValid c h =
    let same =
      prepare_free_by_offset-Apart c.info.file_length c.info.free_space [] c.free_by_offset h.apart
        (omega arith) (λ o s. omega (arith, h.agree o s)) in
    (
      same,
      record {
        apart = subst (λ xs. Apart 0 xs c.info.file_length) (sym same) h.apart;
        agree = λ o s. h.agree o s ∙ ap (count o s) (sym same);
      },
      refl,
    )
