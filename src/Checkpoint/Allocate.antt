-- ===== src/Checkpoint/Allocate.antt =====
-- src/checkpoint.cpp: allocate takes its space from the free space, or from the end of the file.
use mathlib.Core.Option
use stldb.Prelude.{
  ℕ, ◌+◌, ◌-◌, ◌%◌, ◌≤◌, ◌<◌, ◌≡◌, refl, sym, subst, true, not, ◌&&◌, ◌||◌, Option, none, some,
  List, arith, ◌==◌, ltb, leb, if◌then◌else◌, Option-cases, Bool-cases, inl, inr, ==→eq,
}
use stldb.Checkpoint.Regions.{lower_bound_multi, take_region, within, is_free, Apart, count}
use stldb.Checkpoint.File.{
  CheckpointOfstream, needed_for, ensure_space, put_back, take_space, allocate,
}
use stldb.Checkpoint.Count.{IsBound, lower_bound_multi-IsBound, count-is_free}
use stldb.Checkpoint.Take.{IsSplit, IsTaken, take_region-IsTaken}
use stldb.Checkpoint.Extend.{
  IsValid, needed_for-bounds, Extends, Ensures, ensure_space-Ensures, put_back-PutsBack,
}

-- The call gives n bytes at off, which were free, and they are free no more.
record Takes (needed : ℕ) (c : CheckpointOfstream) (r : CheckpointOfstream × ℕ × ℕ) : Type 0 where
  valid : IsValid r.0
  size : r.2 ≡ needed
  same_length : r.0.info.file_length ≡ c.info.file_length
  inside : r.1 + r.2 ≤ c.info.file_length
  were_free : (x : ℕ) → within r.1 r.2 x ≡ true → is_free x c.free_by_offset ≡ true
  bytes :
      (x : ℕ)
      → is_free x r.0.free_by_offset ≡ (is_free x c.free_by_offset && not (within r.1 r.2 x))

-- An entry of the free regions has the size that is found at its offset.
split-size :
    (o s t len : ℕ) (xs rest : List (ℕ × ℕ))
    → Apart 0 xs len
    → IsSplit o t xs rest
    → 0 < count o s xs
    → s ≡ t
split-size o s t len xs rest h split p = elim (Bool-cases (s == t)) [
  | inl e ↦ ==→eq s t e
  | inr e ↦
      (let (left, low, high, pos) = split.apart 0 len h in
        let (some_bytes, free) =
          count-is_free o s 0 len rest left (ground (arith, e, split.counts o s, p)) in
        ground (arith, free o, split.bytes 0 len h o, some_bytes, pos))
]

-- The region that is found, without its first bytes.
split-Takes :
    (needed size offset : ℕ) (others rest : List (ℕ × ℕ)) (c : CheckpointOfstream)
    → IsValid c
    → needed ≤ size
    → ((a b : ℕ)
        → count a b c.info.free_space
          ≡ (if (a == size) && (b == offset) then 1 else 0) + count a b others)
    → IsSplit offset size c.free_by_offset rest
    → Takes needed c (
      put_back
          (offset + needed)
          (size - needed)
          (record c { info = record c.info { free_space = others }; free_by_offset = rest }),
      offset,
      needed,
    )
split-Takes needed size offset others rest c h l counts split =
    let len = c.info.file_length in
    let (left, low, high, pos) = split.apart 0 len h.apart in
    let bytes = split.bytes 0 len h.apart in
    let (region_pos, region_free) =
      count-is_free offset size 0 len c.free_by_offset h.apart
        (ground (arith, split.counts offset size)) in
    let back =
      put_back-PutsBack (offset + needed) (size - needed)
        (record c { info = record c.info { free_space = others }; free_by_offset = rest })
        (record {
          apart = left;
          agree = λ o s. ground (arith, counts s o, split.counts o s, h.agree o s);
        })
        (omega arith) (λ x w. ground (arith, bytes x, w)) in
    record {
      valid = back.valid;
      size = refl;
      same_length = back.same_length;
      inside = omega arith;
      were_free = λ x w. region_free x (ground (arith, w));
      bytes = λ x. ground (arith, back.bytes x, bytes x, region_free x);
    }

take_space-Takes :
    (needed size offset : ℕ) (others : List (ℕ × ℕ)) (c : CheckpointOfstream)
    → IsValid c
    → IsBound needed c.info.free_space (some ((size, offset), others))
    → (r : CheckpointOfstream × ℕ × ℕ) × (take_space needed ((size, offset), others) c ≡ some r)
      × Takes needed c r
unfolding take_space
take_space-Takes needed size offset others c h (l, counts) =
    from_region (take_region offset c.free_by_offset) (take_region-IsTaken offset c.free_by_offset)
  where
    stands : 0 < count offset size c.free_by_offset
    stands = ground (arith, counts size offset, h.agree offset size)

    left : ℕ × List (ℕ × ℕ) → CheckpointOfstream × ℕ × ℕ
    left t = (
      put_back (offset + needed) (size - needed)
          (record c { info = record c.info { free_space = others }; free_by_offset = t.1 }),
      offset,
      needed,
    )

    from_region :
        (t : Option (ℕ × List (ℕ × ℕ)))
        → IsTaken offset c.free_by_offset t
        → (r : CheckpointOfstream × ℕ × ℕ) × (Option.map left t ≡ some r) × Takes needed c r
    from_region none absent = absurd (omega (arith, absent size, stands))
    from_region (some (t, rest)) split =
        let same =
          split-size offset size t c.info.file_length c.free_by_offset rest h.apart split stands in
        (
          left (t, rest),
          refl,
          split-Takes needed size offset others rest c h l counts
              (subst (λ s. IsSplit offset s c.free_by_offset rest) (sym same) split),
        )

-- An image of this size has its space [offset, offset + n) in the file, which was free or lies in the
-- extension; there is room for the header, and less than an alignment is wasted. What is free
-- after the call is what was, and the extension, without that space.
pub record IsAllocated (size : ℕ) (c : CheckpointOfstream) (r : CheckpointOfstream × ℕ × ℕ)
    : Type 0 where
  pub valid : IsValid r.0
  pub longer : c.info.file_length ≤ r.0.info.file_length
  pub room : size + 8 ≤ r.2
  pub waste : r.2 < size + 72
  pub aligned : r.2 % 64 ≡ 0
  pub inside : r.1 + r.2 ≤ r.0.info.file_length
  pub were_free :
      (x : ℕ)
      → within r.1 r.2 x ≡ true
      → (is_free x c.free_by_offset || leb c.info.file_length x) ≡ true
  pub bytes :
      (x : ℕ)
      → is_free x r.0.free_by_offset ≡ (
          (is_free x c.free_by_offset || (leb c.info.file_length x && ltb x r.0.info.file_length))
          && not (within r.1 r.2 x))

Takes-IsAllocated :
    (size : ℕ) (c c' : CheckpointOfstream) (r : CheckpointOfstream × ℕ × ℕ)
    → Extends c c'
    → Takes (needed_for size) c' r
    → IsAllocated size c r
Takes-IsAllocated size c c' r e t =
    let (room, waste, aligned) = needed_for-bounds size in
    record {
      valid = t.valid;
      longer = omega (arith, e.longer, t.same_length);
      room = omega (arith, room, t.size);
      waste = omega (arith, waste, t.size);
      aligned = rw t.size aligned;
      inside = omega (arith, t.inside, t.same_length);
      were_free = λ x w. ground (arith, t.were_free x w, e.bytes x);
      bytes = λ x. rw t.same_length (ground (arith, t.bytes x, e.bytes x));
    }

-- allocate of a file whose free regions lie apart and agree in both maps returns, never abort()s, and
-- gives what IsAllocated says.
pub allocate-IsAllocated :
    (size : ℕ) (c : CheckpointOfstream)
    → IsValid c
    → (r : CheckpointOfstream × ℕ × ℕ) × (allocate size c ≡ some r) × IsAllocated size c r
unfolding allocate
allocate-IsAllocated size c h =
    elim (Option-cases (lower_bound_multi (needed_for size) c'.info.free_space)) [
      | inl e ↦ absurd (ready.found e)
      | inr (((s, o), others), e) ↦
          (let bound =
              subst (IsBound (needed_for size) c'.info.free_space) e
                (lower_bound_multi-IsBound (needed_for size) c'.info.free_space) in
            let (r, q, t) =
              take_space-Takes (needed_for size) s o others c' ready.extends.valid bound in
            (r, rw (e, allocate) q, Takes-IsAllocated size c c' r ready.extends t))
    ]
  where
    c' : CheckpointOfstream
    c' = ensure_space (needed_for size) c

    ready : Ensures (needed_for size) c c'
    ready = ensure_space-Ensures (needed_for size) c (omega (arith, (needed_for-bounds size).0)) h
