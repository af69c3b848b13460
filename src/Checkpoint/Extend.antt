-- ===== src/Checkpoint/Extend.antt =====
-- src/checkpoint.cpp, allocate: how the extension of the file, and what is put back, change the free space.
use stldb.Prelude.{
  ℕ, ◌+◌, ◌%◌, ◌≤◌, ◌<◌, ◌≡◌, ◌≢◌, refl, subst, true, false, ◌&&◌, ◌||◌, none, List, arith, ltb,
  leb, if◌then◌else◌, if-elim, Option-cases, Bool-cases, inl, inr,
}
use stldb.Checkpoint.Regions.{
  insert_multi, lower_bound_multi, insert_region, within, is_free, Apart, count,
}
use stldb.Checkpoint.File.{
  CheckpointOfstream, needed_for, extend, extend_by, ensure_space, put_back, extension_size,
}
use stldb.Checkpoint.Count.{
  count-insert_multi, IsBound, lower_bound_multi-IsBound, insert_region-Apart, is_free-bounds,
  Apart-weaken,
}

-- The free regions lie apart in the file, and the two maps hold the same ones.
pub record IsValid (c : CheckpointOfstream) : Type 0 where
  pub apart : Apart 0 c.free_by_offset c.info.file_length
  pub agree : (o s : ℕ) → count s o c.info.free_space ≡ count o s c.free_by_offset

-- The rounding makes room for the header and wastes less than an alignment.
pub needed_for-bounds :
    (size : ℕ)
    → (size + 8 ≤ needed_for size) × (needed_for size < size + 72) × (needed_for size % 64 ≡ 0)
unfolding needed_for
needed_for-bounds size = ground arith

-- The file, made longer by free space only.
pub record Extends (c c' : CheckpointOfstream) : Type 0 where
  pub valid : IsValid c'
  pub longer : c.info.file_length ≤ c'.info.file_length
  pub bytes :
      (x : ℕ)
      → is_free x c'.free_by_offset
        ≡ (is_free x c.free_by_offset || (leb c.info.file_length x && ltb x c'.info.file_length))

pub not_free_after :
    (len ext : ℕ) (xs : List (ℕ × ℕ))
    → Apart 0 xs len
    → (x : ℕ) → within len ext x ≡ true
    → is_free x xs ≡ false
not_free_after len ext xs h x w = elim (Bool-cases (is_free x xs)) [
  | inl e ↦ ground (arith, w, is_free-bounds x 0 len xs h e)
  | inr e ↦ e
]

extend_by-Extends :
    (ext : ℕ) (c : CheckpointOfstream) → 0 < ext → IsValid c → Extends c (extend_by ext c)
unfolding extend_by
extend_by-Extends ext c p h =
    let len = c.info.file_length in
    let (apart, counts, bytes) =
      insert_region-Apart 0 (len + ext) len ext c.free_by_offset
        (Apart-weaken 0 0 len (len + ext) c.free_by_offset (omega arith) (omega arith) h.apart)
        (omega arith) p (omega arith) (not_free_after len ext c.free_by_offset h.apart) in
    record {
      valid = record {
        apart = apart;
        agree = λ o s.
            ground
              (arith, count-insert_multi s o ext len c.info.free_space, counts o s, h.agree o s);
      };
      longer = omega arith;
      bytes = λ x. ground (arith, bytes x);
    }

Extends-refl : (c : CheckpointOfstream) → IsValid c → Extends c c
Extends-refl c h = record { valid = h; longer = omega arith; bytes = λ x. ground arith }

-- The lookup in an extended file finds the extension.
extend_by-found :
    (needed ext : ℕ) (c : CheckpointOfstream)
    → needed ≤ ext
    → lower_bound_multi needed (extend_by ext c).info.free_space ≢ none
unfolding extend_by
extend_by-found needed ext c l e =
    let len = c.info.file_length in
    let none_found =
      subst (IsBound needed (insert_multi ext len c.info.free_space)) e
        (lower_bound_multi-IsBound needed (insert_multi ext len c.info.free_space)) in
    ground (arith, none_found ext len l, count-insert_multi ext len ext len c.info.free_space)

-- The file with a space for what is needed.
pub record Ensures (needed : ℕ) (c c' : CheckpointOfstream) : Type 0 where
  pub extends : Extends c c'
  pub found : lower_bound_multi needed c'.info.free_space ≢ none

pub ensure_space-Ensures :
    (needed : ℕ) (c : CheckpointOfstream)
    → 0 < needed
    → IsValid c
    → Ensures needed c (ensure_space needed c)
unfolding ensure_space extend
ensure_space-Ensures needed c p h =
    elim (Option-cases (lower_bound_multi needed c.info.free_space)) [
      | inl e ↦
          (rw (e, ensure_space)
            (record {
              extends = extend_by-Extends ext c (ground arith) h;
              found = extend_by-found needed ext c (ground arith);
            }))
      | inr (space, e) ↦
          (rw (e, ensure_space) (record { extends = Extends-refl c h; found = λ e'. cc }))
    ]
  where
    ext : ℕ
    ext = if ltb extension_size needed then needed else extension_size

-- What is put back is free, and else nothing changes.
pub record PutsBack (offset leftover : ℕ) (c c' : CheckpointOfstream) : Type 0 where
  pub valid : IsValid c'
  pub same_length : c'.info.file_length ≡ c.info.file_length
  pub bytes :
      (x : ℕ)
      → is_free x c'.free_by_offset ≡ (within offset leftover x || is_free x c.free_by_offset)

pub put_back-PutsBack :
    (offset leftover : ℕ) (c : CheckpointOfstream)
    → IsValid c
    → offset + leftover ≤ c.info.file_length
    → ((x : ℕ) → within offset leftover x ≡ true → is_free x c.free_by_offset ≡ false)
    → PutsBack offset leftover c (put_back offset leftover c)
unfolding put_back
put_back-PutsBack offset leftover c h u d =
    if-elim (PutsBack offset leftover c) (ltb 0 leftover)
      (record c {
        info = record c.info { free_space = insert_multi leftover offset c.info.free_space };
        free_by_offset = insert_region offset leftover c.free_by_offset;
      })
      c
      (λ e.
        let (apart, counts, bytes) =
          insert_region-Apart 0 c.info.file_length offset leftover c.free_by_offset h.apart
            (omega arith) (ground (arith, e)) u d in
        record {
          valid = record {
            apart = apart;
            agree = λ o s. ground (
              arith,
              count-insert_multi s o leftover offset c.info.free_space,
              counts o s,
              h.agree o s,
            );
          };
          same_length = refl;
          bytes = bytes;
        })
      (λ e. record { valid = h; same_length = refl; bytes = λ x. ground (arith, e) })
