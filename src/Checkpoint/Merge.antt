-- ===== src/Checkpoint/Merge.antt =====
-- src/checkpoint.cpp, add_free_space(): the new free regions join the free ones.
use stldb.Prelude.{
  ℕ, ◌+◌, ◌≤◌, ◌<◌, ◌≡◌, refl, ◌∙◌, subst, Bool, true, false, ◌&&◌, ◌||◌, List, [], ◌∷◌, arith, ltb,
  leb, Bool-cases, inl, inr,
}
use stldb.Checkpoint.Regions.{
  insert_multi, insert_region, insert_regions, within, is_free, Apart, count,
}
use stldb.Checkpoint.File.{CheckpointOfstream, absorb, reconcile, by_size, add_free_space}
use stldb.Checkpoint.Count.{count-insert_multi, insert_region-Apart, is_free-bounds, Apart-le}
use stldb.Checkpoint.Extend.{IsValid}

-- Each region starts after a gap behind the one before.
unfoldable gaps_after : ℕ → List (ℕ × ℕ) → Bool
gaps_after e [] = true
gaps_after e ((o, s) ∷ xs) = ltb e o && gaps_after (o + s) xs

-- No two regions can be joined.
unfoldable pub is_defragmented : List (ℕ × ℕ) → Bool
unfolding gaps_after
is_defragmented [] = true
is_defragmented ((o, s) ∷ xs) = gaps_after (o + s) xs

record Joins (lo o s hi : ℕ) (xs ys : List (ℕ × ℕ)) : Type 0 where
  apart : Apart lo ys hi
  bytes : (x : ℕ) → is_free x ys ≡ (within o s x || is_free x xs)
  gaps : (e : ℕ) → e < o → gaps_after e ys ≡ true
  defragmented : is_defragmented ys ≡ true

absorb-Joins :
    (lo o s hi : ℕ) (xs : List (ℕ × ℕ))
    → lo ≤ o
    → 0 < s
    → Apart (o + s) xs hi
    → Joins lo o s hi xs (absorb o s xs)
unfolding absorb is_free gaps_after is_defragmented
absorb-Joins lo o s hi [] l p h = record {
  apart = (l, p, h);
  bytes = λ x. refl;
  gaps = λ e u. ground arith;
  defragmented = refl;
}
absorb-Joins lo o s hi ((q, t) ∷ xs) l p h = elim (Bool-cases (leb q (o + s))) [
  | inl e ↦
      (let r =
          absorb-Joins lo o (s + t) hi xs l (omega arith)
            (subst (λ z. Apart z xs hi) (ground (arith, e, h.0)) h.2) in
        rw (e, absorb)
          (record {
            apart = r.apart;
            bytes = λ x. ground (arith, r.bytes x, e, h.0);
            gaps = r.gaps;
            defragmented = r.defragmented;
          }))
  | inr e ↦
      (let r = absorb-Joins (o + s) q t hi xs h.0 h.1 h.2 in
        rw (e, absorb)
          (record {
            apart = (l, p, r.apart);
            bytes = λ x. ground (arith, r.bytes x);
            gaps = λ z u. ground (arith, r.gaps (o + s) (ground (arith, e)), u);
            defragmented = r.gaps (o + s) (ground (arith, e));
          }))
]

-- What reconcile gives holds the same bytes, in regions with gaps between them.
reconcile-Joins :
    (lo hi : ℕ) (xs : List (ℕ × ℕ))
    → Apart lo xs hi
    → Apart lo (reconcile xs) hi
      × ((x : ℕ) → is_free x (reconcile xs) ≡ is_free x xs)
      × (is_defragmented (reconcile xs) ≡ true)
unfolding reconcile is_defragmented is_free
reconcile-Joins lo hi [] h = (h, λ x. refl, refl)
reconcile-Joins lo hi ((o, s) ∷ xs) h =
    let r = absorb-Joins lo o s hi xs h.0 h.1 h.2 in (r.apart, r.bytes, r.defragmented)

-- Regions that share no byte with the others are inserted as they are.
insert_regions-Apart :
    (lo hi : ℕ) (new xs : List (ℕ × ℕ))
    → Apart lo new hi
    → Apart 0 xs hi
    → ((x : ℕ) → is_free x new ≡ true → is_free x xs ≡ false)
    → Apart 0 (insert_regions new xs) hi
      × ((x : ℕ) → is_free x (insert_regions new xs) ≡ (is_free x xs || is_free x new))
unfolding insert_regions is_free
insert_regions-Apart lo hi [] xs n h d = (h, λ x. ground arith)
insert_regions-Apart lo hi ((o, s) ∷ new) xs n h d =
    let (apart, counts, bytes) =
      insert_region-Apart 0 hi o s xs h (omega arith) n.1 (Apart-le (o + s) hi new n.2)
        (λ x w. d x (ground (arith, w))) in
    let (apart', bytes') =
      insert_regions-Apart (o + s) hi new (insert_region o s xs) n.2 apart
        (λ x f. ground (arith, bytes x, d x, is_free-bounds x (o + s) hi new n.2 f, f)) in
    (apart', λ x. ground (arith, bytes x, bytes' x))

count-by_size :
    (o s : ℕ) (xs ys : List (ℕ × ℕ)) → count s o (by_size xs ys) ≡ count o s xs + count s o ys
unfolding by_size count
count-by_size o s [] ys = omega arith
count-by_size o s ((p, t) ∷ xs) ys =
    ground (arith, count-by_size o s xs (insert_multi t p ys), count-insert_multi s o t p ys)

-- The new free regions are free too, and no two free regions can be joined.
pub record IsReconciled (c c' : CheckpointOfstream) : Type 0 where
  pub valid : IsValid c'
  pub same_length : c'.info.file_length ≡ c.info.file_length
  pub emptied : c'.new_free_space ≡ []
  pub bytes :
      (x : ℕ)
      → is_free x c'.free_by_offset ≡ (is_free x c.free_by_offset || is_free x c.new_free_space)
  pub defragmented : is_defragmented c'.free_by_offset ≡ true

-- The new free regions lie apart in the file, and none of their bytes is free yet.
pub record IsFreed (c : CheckpointOfstream) : Type 0 where
  pub apart : Apart 0 c.new_free_space c.info.file_length
  pub used : (x : ℕ) → is_free x c.new_free_space ≡ true → is_free x c.free_by_offset ≡ false

-- add_free_space() of a valid file with new free regions that lie apart and were in use: the file
-- stays valid and as long, a byte is free if it was or if it is in a new free region, no two free regions
-- touch, and there are no new free regions any more.
pub add_free_space-IsReconciled :
    (c : CheckpointOfstream) → IsValid c → IsFreed c → IsReconciled c (add_free_space c)
unfolding add_free_space count
add_free_space-IsReconciled c h f =
    let len = c.info.file_length in
    let all = insert_regions c.new_free_space c.free_by_offset in
    let (apart, bytes) =
      insert_regions-Apart 0 len c.new_free_space c.free_by_offset f.apart h.apart f.used in
    let (joined, same, gaps) = reconcile-Joins 0 len all apart in
    record {
      valid = record {
        apart = joined;
        agree = λ o s. omega (arith, count-by_size o s (reconcile all) []);
      };
      same_length = refl;
      emptied = refl;
      bytes = λ x. same x ∙ bytes x;
      defragmented = gaps;
    }
