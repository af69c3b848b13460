-- ===== src/Checkpoint/Clear.antt =====
-- src/checkpoint.cpp, clear(): what is in use in the file becomes new free space.
use stldb.Prelude.{
  ℕ, ◌+◌, ◌-◌, ◌≤◌, ◌≡◌, ap, not, ◌&&◌, ◌||◌, List, [], ◌∷◌, arith, ltb, leb, if-elim,
}
use stldb.Checkpoint.Regions.{insert_region, is_free, Apart}
use stldb.Checkpoint.File.{CheckpointOfstream, occupy, occupied, clear, add_free_space}
use stldb.Checkpoint.Count.{insert_region-Apart, is_free-bounds, Apart-weaken, Apart-le}
use stldb.Checkpoint.Extend.{IsValid, not_free_after}
use stldb.Checkpoint.Merge.{IsFreed, add_free_space-IsReconciled}

-- The regions up to an offset, and the bytes of those added.
Covers : ℕ → ℕ → List (ℕ × ℕ) → List (ℕ × ℕ) → Type 0
Covers last next new r =
    Apart 0 r next × ((x : ℕ) → is_free x r ≡ (is_free x new || (leb last x && ltb x next)))

occupy-Covers :
    (last next : ℕ) (new : List (ℕ × ℕ))
    → last ≤ next
    → Apart 0 new last
    → Covers last next new (occupy last next new)
unfolding occupy Covers
occupy-Covers last next new l n =
    if-elim (Covers last next new) (ltb last next) (insert_region last (next - last) new) new
      (λ e.
        let (apart, counts, bytes) =
          insert_region-Apart 0 next last (next - last) new
            (Apart-weaken 0 0 last next new (omega arith) l n) (omega arith) (ground (arith, e))
            (omega arith) (not_free_after last (next - last) new n) in
        (apart, λ x. ground (arith, bytes x)))
      (λ e. (Apart-weaken 0 0 last next new (omega arith) l n, λ x. ground (arith, e)))

occupied-Apart :
    (last len : ℕ) (xs new : List (ℕ × ℕ))
    → Apart last xs len
    → Apart 0 new last
    → Apart 0 (occupied last xs len new) len
      × ((x : ℕ)
          → is_free x (occupied last xs len new)
            ≡ (is_free x new || (leb last x && ltb x len && not (is_free x xs))))
unfolding occupied is_free Covers
occupied-Apart last len [] new h n =
    let (apart, bytes) = occupy-Covers last len new h n in (apart, λ x. ground (arith, bytes x))
occupied-Apart last len ((o, s) ∷ xs) new h n =
    let (apart, bytes) = occupy-Covers last o new h.0 n in
    let (apart', bytes') =
      occupied-Apart (o + s) len xs (occupy last o new) h.2
        (Apart-weaken 0 0 o (o + s) (occupy last o new) (omega arith) (omega arith) apart) in
    (
      apart',
      λ x. ground (
        arith,
        bytes x,
        bytes' x,
        h.0,
        h.1,
        Apart-le (o + s) len xs h.2,
        is_free-bounds x (o + s) len xs h.2,
      ),
    )

-- clear() of a valid file without new free regions: the new free regions are the bytes of the file that
-- are not free, they lie apart and were in use, and the add_free_space() that follows makes every byte of the file
-- free and no other.
pub clear-add_free_space :
    (c : CheckpointOfstream)
    → IsValid c
    → c.new_free_space ≡ []
    → IsFreed (clear c)
      × ((x : ℕ)
          → is_free x (clear c).new_free_space
            ≡ (ltb x c.info.file_length && not (is_free x c.free_by_offset)))
      × ((x : ℕ) → is_free x (add_free_space (clear c)).free_by_offset ≡ ltb x c.info.file_length)
unfolding clear is_free
clear-add_free_space c h e =
    let len = c.info.file_length in
    let (apart, bytes) =
      occupied-Apart 0 len c.free_by_offset c.new_free_space h.apart (rw e (omega arith)) in
    let cleared : (x : ℕ)
        → is_free x (clear c).new_free_space ≡ (ltb x len && not (is_free x c.free_by_offset)) =
      λ x. ground (arith, bytes x, ap (is_free x) e) in
    let freed : IsFreed (clear c) = record {
      apart = apart;
      used = λ x f. ground (arith, cleared x, f);
    } in
    let all =
      add_free_space-IsReconciled (clear c) (record { apart = h.apart; agree = h.agree }) freed in
    (
      freed,
      cleared,
      λ x. ground (arith, all.bytes x, cleared x, is_free-bounds x 0 len c.free_by_offset h.apart),
    )
