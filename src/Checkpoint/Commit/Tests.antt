-- ===== src/Checkpoint/Commit/Tests.antt =====
-- Commits in a small directory, and the theorems at them.
use stldb.Prelude.{ℕ, ◌≡◌, refl, true, false, none, some, List, [], ◌∷◌, ◌==◌, if◌then◌else◌}
use stldb.Checkpoint.File.{CheckpointOfstream}
use stldb.FileUtil.Names.{meta, same_name}
use stldb.FileUtil.Files.{DirectoryEntry}
use stldb.Checkpoint.Commit.{
  metafile_name, find_file, starts_with, CommitOutcome, committed, commit,
}
use stldb.Checkpoint.Commit.Kept.{commit-kept, commit-installs}

-- From the first dot on, and the name up to it with another extension.
abbrev extension : List ℕ → List ℕ
extension [] = []
extension (c ∷ cs) = let later = extension cs in if c == 46 then c ∷ cs else later

abbrev replace_extension : List ℕ → List ℕ → List ℕ
replace_extension [] new = 46 ∷ new
replace_extension (c ∷ cs) new =
    let later = c ∷ replace_extension cs new in if c == 46 then c ∷ new else later

-- The checkpoint file of a container "a".
abbrev container_a : CheckpointOfstream
container_a = record {
  info = record {
    ckpt_filename = 97 ∷ [];
    meta_filename = [];
    container_name = 97 ∷ [];
    file_length = 0;
    lsn_at_start = 0;
    lsn_at_end = 0;
    free_space = [];
  };
  free_by_offset = [];
  new_free_space = [];
}

abbrev file_named : List ℕ → DirectoryEntry
file_named name = record { filename = name; is_directory = false; metafile = none }

-- "ab.meta" and "b.meta"
abbrev metafiles : List DirectoryEntry
metafiles = file_named (97 ∷ 98 ∷ meta) ∷ file_named (98 ∷ meta) ∷ []

abbrev all_well : CommitOutcome
all_well = record { written = true; renamed = true; removable = λ n. true }

-- The commit of the container "a" removes the metafile of the container "ab".
commit_test :
    find_file
      (97 ∷ 98 ∷ meta)
      (commit extension replace_extension all_well 5 6 container_a metafiles).0.1
    ≡ none
unfolding commit find_file
commit_test = refl

commit-kept_example :
    find_file
      (98 ∷ meta)
      (commit extension replace_extension all_well 5 6 container_a metafiles).0.1
    ≡ find_file (98 ∷ meta) metafiles
unfolding metafile_name same_name starts_with
commit-kept_example =
    commit-kept extension replace_extension all_well 5 6 container_a metafiles (98 ∷ meta) refl refl
      refl

commit-installs_example :
    ((commit extension replace_extension all_well 5 6 container_a metafiles).1 ≡ none)
    × (find_file
          (metafile_name (97 ∷ []) 5)
          (commit extension replace_extension all_well 5 6 container_a metafiles).0.1
        ≡ some (record {
          filename = metafile_name (97 ∷ []) 5;
          is_directory = false;
          metafile = some (committed 5 6 container_a).info;
        }))
commit-installs_example =
    commit-installs extension replace_extension all_well 5 6 container_a metafiles refl
