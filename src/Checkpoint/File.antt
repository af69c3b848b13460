-- ===== src/Checkpoint/File.antt =====
-- stldb/checkpoint.h, stldb/detail/checkpoint_file_info.h and src/checkpoint.cpp: the allocation and
-- the release of space in a checkpoint file. Names of files are lists of characters.
use stldb.Prelude.{
  ℕ, ◌+◌, ◌-◌, ◌*◌, ◌/◌, ◌%◌, true, false, Option, none, some, List, [], ◌∷◌, ◌==◌, ltb, leb,
  if◌then◌else◌,
}
use mathlib.Core.Option
use stldb.Checkpoint.Regions.{
  insert_multi, lower_bound_multi, insert_region, insert_regions, take_region,
}

abbrev entry_alignment : ℕ
entry_alignment = 64

abbrev pub extension_size : ℕ
extension_size = 64 * 1024 * 1024

-- sizeof(std::size_t)
abbrev pub size_t_size : ℕ
size_t_size = 8

-- checkpoint_file_info
pub record CheckpointFileInfo : Type 0 where
  pub ckpt_filename : List ℕ
  pub meta_filename : List ℕ
  pub container_name : List ℕ
  pub file_length : ℕ
  pub lsn_at_start : ℕ
  pub lsn_at_end : ℕ
  pub free_space : List (ℕ × ℕ)

-- checkpoint_fstream_base and checkpoint_ofstream, without the directory and the stream.
pub record CheckpointOfstream : Type 0 where
  pub info : CheckpointFileInfo
  pub free_by_offset : List (ℕ × ℕ)
  pub new_free_space : List (ℕ × ℕ)

-- prepare_free_by_offset
unfoldable pub prepare_free_by_offset : List (ℕ × ℕ) → List (ℕ × ℕ) → List (ℕ × ℕ)
prepare_free_by_offset [] by_offset = by_offset
prepare_free_by_offset ((size, offset) ∷ spaces) by_offset =
    prepare_free_by_offset spaces (insert_region offset size by_offset)

-- The constructor of checkpoint_fstream_base from the contents of a metafile.
unfoldable pub open_info : CheckpointFileInfo → CheckpointOfstream
unfolding prepare_free_by_offset insert_region
open_info i = record {
  info = i;
  free_by_offset = prepare_free_by_offset i.free_space [];
  new_free_space = [];
}

-- The bytes that an image of this size takes, with the header before it.
unfoldable pub needed_for : ℕ → ℕ
needed_for size =
    let needed = size + size_t_size in
    (needed / entry_alignment + (if needed % entry_alignment == 0 then 0 else 1)) * entry_alignment

-- The extension of the file by a region of the size ext_size.
unfoldable pub extend_by : ℕ → CheckpointOfstream → CheckpointOfstream
unfolding insert_multi insert_region
extend_by ext_size c = record c {
  info = record c.info {
    free_space = insert_multi ext_size c.info.file_length c.info.free_space;
    file_length = c.info.file_length + ext_size;
  };
  free_by_offset = insert_region c.info.file_length ext_size c.free_by_offset;
}

unfoldable pub extend : ℕ → CheckpointOfstream → CheckpointOfstream
unfolding extend_by
extend needed c = extend_by (if ltb extension_size needed then needed else extension_size) c

-- The space that is found, or found once the file is extended.
unfoldable pub ensure_space : ℕ → CheckpointOfstream → CheckpointOfstream
unfolding lower_bound_multi extend
ensure_space needed c = elim (lower_bound_multi needed c.info.free_space) [
  | none ↦ extend needed c
  | some space ↦ c
]

-- What is left of a space goes back.
unfoldable pub put_back : ℕ → ℕ → CheckpointOfstream → CheckpointOfstream
unfolding insert_multi insert_region
put_back offset leftover c =
    if ltb 0 leftover
    then record c {
      info = record c.info { free_space = insert_multi leftover offset c.info.free_space };
      free_by_offset = insert_region offset leftover c.free_by_offset;
    }
    else c

-- The space off the two maps; `none` is the abort() where they do not agree.
unfoldable pub take_space :
    ℕ → (ℕ × ℕ) × List (ℕ × ℕ) → CheckpointOfstream → Option (CheckpointOfstream × ℕ × ℕ)
unfolding take_region put_back
take_space needed ((size, offset), others) c =
    Option.map
      (λ t. (
        put_back (offset + needed) (size - needed)
            (record c { info = record c.info { free_space = others }; free_by_offset = t.1 }),
        offset,
        needed,
      ))
      (take_region offset c.free_by_offset)

-- allocate, with the offset and the size that it returns.
unfoldable pub allocate : ℕ → CheckpointOfstream → Option (CheckpointOfstream × ℕ × ℕ)
unfolding needed_for ensure_space lower_bound_multi take_space
allocate size c =
    let needed = needed_for size in
    let c' = ensure_space needed c in
    elim (lower_bound_multi needed c'.info.free_space) [
      | none ↦ none
      | some space ↦ take_space needed space c'
    ]

-- add_free_space(space)
unfoldable pub add_free_region : ℕ × ℕ → CheckpointOfstream → CheckpointOfstream
unfolding insert_region
add_free_region (o, s) c = record c { new_free_space = insert_region o s c.new_free_space }

-- add_free_space(begin, end)
unfoldable pub add_free_regions : List (ℕ × ℕ) → CheckpointOfstream → CheckpointOfstream
unfolding insert_regions
add_free_regions spaces c = record c { new_free_space = insert_regions spaces c.new_free_space }

-- The loops of add_free_space() that join a region with those that follow it at once.
unfoldable pub absorb : ℕ → ℕ → List (ℕ × ℕ) → List (ℕ × ℕ)
absorb o s [] = (o, s) ∷ []
absorb o s ((p, t) ∷ xs) = elim (leb p (o + s)) [
  | true ↦ absorb o (s + t) xs
  | false ↦ (o, s) ∷ absorb p t xs
]

unfoldable pub reconcile : List (ℕ × ℕ) → List (ℕ × ℕ)
unfolding absorb
reconcile [] = []
reconcile ((o, s) ∷ xs) = absorb o s xs

-- The free_space made from free_by_offset.
unfoldable pub by_size : List (ℕ × ℕ) → List (ℕ × ℕ) → List (ℕ × ℕ)
unfolding insert_multi
by_size [] spaces = spaces
by_size ((o, s) ∷ xs) spaces = by_size xs (insert_multi s o spaces)

-- add_free_space()
unfoldable pub add_free_space : CheckpointOfstream → CheckpointOfstream
unfolding insert_regions reconcile by_size
add_free_space c =
    let by_offset = reconcile (insert_regions c.new_free_space c.free_by_offset) in
    record c {
      info = record c.info { free_space = by_size by_offset [] };
      free_by_offset = by_offset;
      new_free_space = [];
    }

-- The space of clear() between two free regions, or after the last one.
unfoldable pub occupy : ℕ → ℕ → List (ℕ × ℕ) → List (ℕ × ℕ)
unfolding insert_region
occupy last next new = if ltb last next then insert_region last (next - last) new else new

-- The loop of clear().
unfoldable pub occupied : ℕ → List (ℕ × ℕ) → ℕ → List (ℕ × ℕ) → List (ℕ × ℕ)
unfolding occupy
occupied last [] file_length new = occupy last file_length new
occupied last ((o, s) ∷ xs) file_length new = occupied (o + s) xs file_length (occupy last o new)

-- clear
unfoldable pub clear : CheckpointOfstream → CheckpointOfstream
unfolding occupied
clear c = record c {
  new_free_space = occupied 0 c.free_by_offset c.info.file_length c.new_free_space;
}
