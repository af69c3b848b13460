-- ===== src/Checkpoint/Iterator.antt =====
-- stldb/checkpoint.h: checkpoint_iterator, which reads the entries of a checkpoint file from its start
-- to its end, and the loop of load_checkpoint. The stream and the archive are a parameter: at an offset
-- they give the size and the entry that were written there, or throw. The assertion of forward() is left out.
use stldb.Prelude.{
  ℕ, zero, suc, ◌+◌, true, false, Option, none, some, List, [], ◌∷◌, ◌==◌, leb, if◌then◌else◌,
  Result, ok, ◌>>=◌, map_ok,
}

-- lower_bound of the map from offset to size.
unfoldable pub lower_bound : ℕ → List (ℕ × ℕ) → Option (ℕ × ℕ)
lower_bound k [] = none
lower_bound k ((o, s) ∷ xs) = if leb k o then some (o, s) else lower_bound k xs

-- The loop of forward() over the free regions, on fuel.
unfoldable pub skip_free : ℕ → List (ℕ × ℕ) → ℕ → ℕ
unfolding lower_bound
skip_free zero free offset = offset
skip_free (suc n) free offset = elim (lower_bound offset free) [
  | none ↦ offset
  | some region ↦ elim (region.0 == offset) [
    | true ↦ skip_free n free (offset + region.1)
    | false ↦ offset
  ]
]

-- checkpoint_ifstream: what it knows of the file, what the stream gives at an offset, and T().
pub record CheckpointIfstream (T : Type 0) : Type 0 where
  pub file_length : ℕ
  pub free_by_offset : List (ℕ × ℕ)
  pub read : ℕ → Result (ℕ × T)
  pub blank : T

-- checkpoint_iterator: the offset after the entry that was read last, the entry, and its location.
pub record CheckpointIterator (T : Type 0) : Type 0 where
  pub offset : ℕ
  pub current : T
  pub current_loc : ℕ × ℕ

module _ {T : Type 0} (f : CheckpointIfstream T) where
  -- forward
  unfoldable pub forward : CheckpointIterator T → Result (CheckpointIterator T)
  unfolding skip_free
  forward it =
      let offset = skip_free f.file_length f.free_by_offset it.offset in
      if offset == f.file_length
      then ok (record it { offset = offset })
      else (f.read offset >>= λ r.
          ok (record { offset = offset + r.0; current = r.1; current_loc = (offset, r.0) }))

  -- The constructor of the iterator, which seek calls.
  unfoldable pub seek : ℕ → Result (CheckpointIterator T)
  unfolding forward
  seek offset = forward (record { offset = offset; current = f.blank; current_loc = (0, 0) })

  -- begin
  unfoldable pub begin : Result (CheckpointIterator T)
  unfolding seek
  begin = seek 0

  -- end
  unfoldable pub end : Result (CheckpointIterator T)
  unfolding seek
  end = seek f.file_length

  -- The loop of load_checkpoint, on fuel: the entries that it inserts, with their locations.
  unfoldable pub load_from : ℕ → CheckpointIterator T → Result (List (T × (ℕ × ℕ)))
  unfolding forward end
  load_from zero it = ok []
  load_from (suc n) it = end >>= λ last. elim (it.offset == last.offset) [
    | true ↦ ok []
    | false ↦
        map_ok (λ r. (it.current, it.current_loc) ∷ r) (forward it >>= λ next. load_from n next)
  ]

  -- load_checkpoint
  unfoldable pub load_checkpoint : Result (List (T × (ℕ × ℕ)))
  unfolding begin load_from
  load_checkpoint = begin >>= load_from (suc f.file_length)
