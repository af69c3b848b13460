-- ===== src/Checkpoint/Count.antt =====
-- How the operations on the maps of free space change which entries they hold, and which bytes.
use mathlib.Core.Option
use stldb.Prelude.{
  ℕ, ◌+◌, ◌≤◌, ◌<◌, ◌≡◌, refl, Bool, true, false, ◌&&◌, ◌||◌, Option, none, some, List, [], ◌∷◌,
  arith, ◌==◌, ltb, leb, if◌then◌else◌, Bool-cases, if-elim, ==→eq, inl, inr,
}
use stldb.Checkpoint.Regions.{
  insert_multi, lower_bound_multi, insert_region, within, is_free, Apart, count,
}

pub count-insert_multi :
    (a b k v : ℕ) (xs : List (ℕ × ℕ))
    → count a b (insert_multi k v xs) ≡ (if (a == k) && (b == v) then 1 else 0) + count a b xs
unfolding insert_multi count
count-insert_multi a b k v [] = refl
count-insert_multi a b k v ((j, w) ∷ xs) = ground (arith, count-insert_multi a b k v xs)

-- What lower_bound gives is an entry that is large enough, and the others; if nothing, none is.
abbrev pub IsBound : ℕ → List (ℕ × ℕ) → Option ((ℕ × ℕ) × List (ℕ × ℕ)) → Type 0
IsBound k xs none = (a b : ℕ) → k ≤ a → count a b xs ≡ 0
IsBound k xs (some ((j, w), others)) =
    (k ≤ j)
    × ((a b : ℕ) → count a b xs ≡ (if (a == j) && (b == w) then 1 else 0) + count a b others)

IsBound-map :
    (k j w : ℕ) (xs : List (ℕ × ℕ)) (r : Option ((ℕ × ℕ) × List (ℕ × ℕ)))
    → j < k
    → IsBound k xs r
    → IsBound k ((j, w) ∷ xs) (Option.map (λ r. (r.0, (j, w) ∷ r.1)) r)
unfolding count
IsBound-map k j w xs none l h = λ a b u. ground (arith, h a b u)
IsBound-map k j w xs (some ((i, v), others)) l h = (h.0, λ a b. omega (arith, h.1 a b))

pub lower_bound_multi-IsBound : (k : ℕ) (xs : List (ℕ × ℕ)) → IsBound k xs (lower_bound_multi k xs)
unfolding lower_bound_multi count
lower_bound_multi-IsBound k [] = λ a b u. refl
lower_bound_multi-IsBound k ((j, w) ∷ xs) =
    if-elim (IsBound k ((j, w) ∷ xs)) (leb k j) (some ((j, w), xs))
      (Option.map (λ r. (r.0, (j, w) ∷ r.1)) (lower_bound_multi k xs))
      (λ e. (ground (arith, e), λ a b. refl))
      (λ e.
        IsBound-map k j w xs (lower_bound_multi k xs) (ground (arith, e))
          (lower_bound_multi-IsBound k xs))

pub Apart-le : (lo hi : ℕ) (xs : List (ℕ × ℕ)) → Apart lo xs hi → lo ≤ hi
Apart-le lo hi [] h = h
Apart-le lo hi ((o, s) ∷ xs) h = omega (arith, h.0, Apart-le (o + s) hi xs h.2)

-- The bytes of regions that lie apart lie between their bounds.
pub is_free-bounds :
    (x lo hi : ℕ) (xs : List (ℕ × ℕ)) → Apart lo xs hi → is_free x xs ≡ true → (lo ≤ x) × (x < hi)
unfolding is_free
is_free-bounds x lo hi [] h f = cc
is_free-bounds x lo hi ((o, s) ∷ xs) h f =
    ground (arith, h.0, h.1, f, is_free-bounds x (o + s) hi xs h.2, Apart-le (o + s) hi xs h.2)

pub Apart-weaken :
    (lo lo' hi hi' : ℕ) (xs : List (ℕ × ℕ))
    → lo' ≤ lo
    → hi ≤ hi'
    → Apart lo xs hi
    → Apart lo' xs hi'
Apart-weaken lo lo' hi hi' [] p q h = omega (arith, p, q, h)
Apart-weaken lo lo' hi hi' ((o, s) ∷ xs) p q h =
    (omega (arith, p, h.0), h.1, Apart-weaken (o + s) (o + s) hi hi' xs (omega arith) q h.2)

-- A region that shares no byte with another lies before or after it.
before-within :
    (o s q t : ℕ) (xs : List (ℕ × ℕ))
    → 0 < t
    → ((x : ℕ) → within o s x ≡ true → is_free x ((q, t) ∷ xs) ≡ false)
    → o ≤ q
    → o + s ≤ q
unfolding is_free
before-within o s q t xs p d l = ground (arith, d q, p, l)

after-within :
    (o s q t : ℕ) (xs : List (ℕ × ℕ))
    → 0 < s
    → ((x : ℕ) → within o s x ≡ true → is_free x ((q, t) ∷ xs) ≡ false)
    → q ≤ o
    → q + t ≤ o
unfolding is_free
after-within o s q t xs p d l = ground (arith, d o, p, l)

pub or-right : (a b : Bool) → (a || b) ≡ false → b ≡ false
or-right false b h = h
or-right true b h = cc

-- The insert of a region that lies apart from the others keeps them apart, adds one entry, and
-- adds its bytes.
pub insert_region-Apart :
    (lo hi o s : ℕ) (xs : List (ℕ × ℕ))
    → Apart lo xs hi
    → lo ≤ o
    → 0 < s
    → o + s ≤ hi
    → ((x : ℕ) → within o s x ≡ true → is_free x xs ≡ false)
    → Apart lo (insert_region o s xs) hi
      × ((a b : ℕ)
          → count a b (insert_region o s xs)
            ≡ (if (a == o) && (b == s) then 1 else 0) + count a b xs)
      × ((x : ℕ) → is_free x (insert_region o s xs) ≡ (within o s x || is_free x xs))
unfolding insert_region is_free count
insert_region-Apart lo hi o s [] h l p u d = ((l, p, u), λ a b. refl, λ x. refl)
insert_region-Apart lo hi o s ((q, t) ∷ xs) h l p u d =
    if-elim Holds (ltb o q) ((o, s) ∷ (q, t) ∷ xs)
      (if o == q then (q, t) ∷ xs else (q, t) ∷ insert_region o s xs)
      (λ e.
        let b = before-within o s q t xs h.1 d (ground (arith, e)) in
        ((l, p, (b, h.1, h.2)), λ a b. refl, λ x. refl))
      (λ e.
        if-elim Holds (o == q) ((q, t) ∷ xs) ((q, t) ∷ insert_region o s xs)
          (λ e'. absurd (
            let b = before-within o s q t xs h.1 d (ground (arith, e')) in
            omega (arith, b, p, ==→eq o q e')))
          (λ e'.
            let after = after-within o s q t xs p d (ground (arith, e)) in
            let (apart, counts, bytes) =
              insert_region-Apart (q + t) hi o s xs h.2 after p u
                (λ x w. or-right (within q t x) (is_free x xs) (d x w)) in
            ((h.0, h.1, apart), λ a b. omega (arith, counts a b), λ x. ground (arith, bytes x))))
  where
    Holds : List (ℕ × ℕ) → Type 0
    Holds r =
        Apart lo r hi
        × ((a b : ℕ)
            → count a b r ≡ (if (a == o) && (b == s) then 1 else 0) + count a b ((q, t) ∷ xs))
        × ((x : ℕ) → is_free x r ≡ (within o s x || is_free x ((q, t) ∷ xs)))

-- An entry of the list has its bytes free, and is not empty.
pub count-is_free :
    (a b lo hi : ℕ) (xs : List (ℕ × ℕ))
    → Apart lo xs hi
    → 0 < count a b xs
    → (0 < b) × ((x : ℕ) → within a b x ≡ true → is_free x xs ≡ true)
unfolding count is_free
count-is_free a b lo hi [] h p = absurd (omega (arith, p))
count-is_free a b lo hi ((o, s) ∷ xs) h p = elim (Bool-cases ((a == o) && (b == s))) [
  | inl e ↦ (ground (arith, e, h.1), λ x w. ground (arith, e, w))
  | inr e ↦
      (let (pos, bytes) = count-is_free a b (o + s) hi xs h.2 (ground (arith, e, p)) in
        (pos, λ x w. ground (arith, bytes x w)))
]
