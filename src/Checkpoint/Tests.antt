-- ===== src/Checkpoint/Tests.antt =====
-- Runs of the operations on checkpoint files, and the theorems at these files.
use stldb.Prelude.{
  ℕ, ◌≡◌, refl, true, some, List, [], ◌∷◌, arith, ◌==◌, if◌then◌else◌, ok, throw, io_failure,
}
use stldb.Logging.Bytes.{le_bytes}
use stldb.Checkpoint.Regions.{is_free, count}
use stldb.Checkpoint.File.{
  CheckpointFileInfo, CheckpointOfstream, open_info, allocate, add_free_region, add_free_space,
  clear,
}
use stldb.Checkpoint.Extend.{IsValid}
use stldb.Checkpoint.Allocate.{IsAllocated, allocate-IsAllocated}
use stldb.Checkpoint.Merge.{IsFreed, IsReconciled, add_free_space-IsReconciled}
use stldb.Checkpoint.Commit.{committed}
use stldb.Checkpoint.Commit.Reopened.{committed-IsReconciled}
use stldb.Checkpoint.Reopen.{open_info-IsValid}
use stldb.Checkpoint.Iterator.{CheckpointIfstream, load_checkpoint}
use stldb.Checkpoint.Skip.{entry, free_regions, entries}
use stldb.Checkpoint.Load.{load_checkpoint-entries}
use stldb.Checkpoint.Write.{write_at, write_entry}
use stldb.Checkpoint.Session.{opened, wrote, IsIntact, session-IsIntact}

-- A file of 256 bytes: an entry, 128 free bytes, an entry.
abbrev two_entries : CheckpointFileInfo
two_entries = record {
  ckpt_filename = 97 ∷ [];
  meta_filename = [];
  container_name = 97 ∷ [];
  file_length = 256;
  lsn_at_start = 5;
  lsn_at_end = 6;
  free_space = (128, 64) ∷ [];
}

abbrev two_entries_file : CheckpointOfstream
two_entries_file = record {
  info = two_entries;
  free_by_offset = (64, 128) ∷ [];
  new_free_space = [];
}

open_two_entries : open_info two_entries ≡ two_entries_file
unfolding open_info
open_two_entries = refl

two_entries-IsValid : IsValid two_entries_file
unfolding count
two_entries-IsValid = record {
  apart = (omega arith, omega arith, omega arith);
  agree = λ o s. ground arith;
}

-- Best fit: 64 of the 128 bytes.
abbrev one_written : CheckpointOfstream
one_written = record {
  info = record two_entries { free_space = (64, 128) ∷ [] };
  free_by_offset = (128, 64) ∷ [];
  new_free_space = [];
}

allocate_test : allocate 50 two_entries_file ≡ some (one_written, 64, 64)
unfolding allocate
allocate_test = refl

allocate-IsAllocated_example :
    (r : CheckpointOfstream × ℕ × ℕ) × (allocate 50 two_entries_file ≡ some r)
    × IsAllocated 50 two_entries_file r
allocate-IsAllocated_example = allocate-IsAllocated 50 two_entries_file two_entries-IsValid

-- The last entry is freed, and joins the region before it.
abbrev freed_file : CheckpointOfstream
freed_file = record two_entries_file { new_free_space = (192, 64) ∷ [] }

add_free_space_test :
    (add_free_space (add_free_region (192, 64) two_entries_file)).free_by_offset ≡ (64, 192) ∷ []
unfolding add_free_space add_free_region
add_free_space_test = refl

freed_file-IsFreed : IsFreed freed_file
unfolding is_free
freed_file-IsFreed = record {
  apart = (omega arith, omega arith, omega arith);
  used = λ x f. ground (arith, f);
}

add_free_space-IsReconciled_example : IsReconciled freed_file (add_free_space freed_file)
add_free_space-IsReconciled_example =
    add_free_space-IsReconciled freed_file
      (record { apart = two_entries-IsValid.apart; agree = two_entries-IsValid.agree })
      freed_file-IsFreed

committed-IsReconciled_example : IsReconciled freed_file (open_info (committed 7 8 freed_file).info)
committed-IsReconciled_example =
    committed-IsReconciled 7 8 freed_file
      (record { apart = two_entries-IsValid.apart; agree = two_entries-IsValid.agree })
      freed_file-IsFreed

clear_test : (clear two_entries_file).new_free_space ≡ (0, 64) ∷ (192, 64) ∷ []
unfolding clear
clear_test = refl

-- An image of two bytes.
abbrev image : List ℕ
image = 7 ∷ 8 ∷ []

abbrev written_file : ℕ → ℕ
written_file = write_at 72 image (write_at 64 (le_bytes 8 64) (λ x. 0))

write_entry_test :
    write_entry true image (two_entries_file, λ x. 0)
    ≡ some (ok (one_written, written_file, (64, 64)))
unfolding write_entry
write_entry_test = refl

session-IsIntact_example :
    IsIntact two_entries_file (λ x. 0) one_written written_file (((64, 64), image) ∷ [])
session-IsIntact_example =
    session-IsIntact two_entries_file (λ x. 0) one_written written_file (((64, 64), image) ∷ [])
      two_entries-IsValid (wrote true image (64, 64) opened write_entry_test)

open_info-IsValid_example :
    ((open_info two_entries).free_by_offset ≡ (64, 128) ∷ [])
    × IsValid (open_info two_entries)
    × ((open_info two_entries).new_free_space ≡ [])
open_info-IsValid_example = open_info-IsValid two_entries_file two_entries-IsValid

-- A file of one entry of 64 bytes, and free space up to a length.
abbrev one_entry : ℕ → List (ℕ × ℕ) → CheckpointIfstream ℕ
one_entry length regions = record {
  file_length = length;
  free_by_offset = regions;
  read = λ o. if o == 0 then ok (64, 7) else throw io_failure;
  blank = 0;
}

load_checkpoint-entries_example :
    load_checkpoint (one_entry 128 ((64, 64) ∷ [])) ≡ ok ((7, (0, 64)) ∷ [])
unfolding entries free_regions
load_checkpoint-entries_example =
    load_checkpoint-entries (one_entry 128 ((64, 64) ∷ [])) (entry 64 7 ∷ []) 64
      (omega arith, refl, (omega arith, refl)) refl
