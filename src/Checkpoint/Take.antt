-- ===== src/Checkpoint/Take.antt =====
-- What is left of the free regions when one is taken.
use mathlib.Core.Option
use stldb.Prelude.{
  ℕ, ◌+◌, ◌≤◌, ◌<◌, ◌≡◌, refl, false, not, ◌&&◌, Option, none, some, List, [], ◌∷◌, arith, ◌==◌,
  if◌then◌else◌, if-elim, ==→eq,
}
use stldb.Checkpoint.Regions.{take_region, within, is_free, Apart, count}
use stldb.Checkpoint.Count.{is_free-bounds, Apart-le, Apart-weaken}

-- The region at o has the size s, and the rest are the others.
pub record IsSplit (o s : ℕ) (xs rest : List (ℕ × ℕ)) : Type 0 where
  pub counts : (a b : ℕ) → count a b xs ≡ (if (a == o) && (b == s) then 1 else 0) + count a b rest
  pub apart : (lo hi : ℕ) → Apart lo xs hi → Apart lo rest hi × (lo ≤ o) × (o + s ≤ hi) × (0 < s)
  pub bytes :
      (lo hi : ℕ) → Apart lo xs hi → (x : ℕ) → is_free x rest ≡ (is_free x xs && not (within o s x))

-- What take_region gives: the region at o and the others, or none if no region starts there.
abbrev pub IsTaken : ℕ → List (ℕ × ℕ) → Option (ℕ × List (ℕ × ℕ)) → Type 0
IsTaken o xs none = (s : ℕ) → count o s xs ≡ 0
IsTaken o xs (some (s, rest)) = IsSplit o s xs rest

IsTaken-map :
    (o p t : ℕ) (xs : List (ℕ × ℕ)) (r : Option (ℕ × List (ℕ × ℕ)))
    → (o == p) ≡ false
    → IsTaken o xs r
    → IsTaken o ((p, t) ∷ xs) (Option.map (λ r. (r.0, (p, t) ∷ r.1)) r)
unfolding count is_free
IsTaken-map o p t xs none e h = λ s. ground (arith, e, h s)
IsTaken-map o p t xs (some (s, rest)) e h = record {
  counts = λ a b. omega (arith, h.counts a b);
  apart = λ lo hi u.
      let (left, low, high, pos) = h.apart (p + t) hi u.2 in
      ((u.0, u.1, left), omega (arith, low, u.0), high, pos);
  bytes = λ lo hi u x.
      let (left, low, high, pos) = h.apart (p + t) hi u.2 in
      ground (arith, h.bytes (p + t) hi u.2 x, low);
}

pub take_region-IsTaken : (o : ℕ) (xs : List (ℕ × ℕ)) → IsTaken o xs (take_region o xs)
unfolding take_region count is_free
take_region-IsTaken o [] = λ s. refl
take_region-IsTaken o ((p, t) ∷ xs) =
    if-elim (IsTaken o ((p, t) ∷ xs)) (o == p) (some (t, xs))
      (Option.map (λ r. (r.0, (p, t) ∷ r.1)) (take_region o xs))
      (λ e. record {
        counts = λ a b. ground (arith, e);
        apart = λ lo hi h. (
          Apart-weaken (p + t) lo hi hi xs (omega (arith, h.0)) (omega arith) h.2,
          omega (arith, ==→eq o p e, h.0),
          omega (arith, ==→eq o p e, Apart-le (p + t) hi xs h.2),
          h.1,
        );
        bytes = λ lo hi h x. ground (arith, e, is_free-bounds x (p + t) hi xs h.2);
      })
      (λ e. IsTaken-map o p t xs (take_region o xs) e (take_region-IsTaken o xs))
