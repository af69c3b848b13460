-- ===== src/Checkpoint/Commit.antt =====
-- src/checkpoint.cpp, commit: the metafile of a checkpoint, and the removal of the ones before it. What
-- boost::filesystem makes of names is a parameter, and so is which of its calls succeed.
use stldb.Prelude.{
  ℕ, Bool, true, false, not, ◌&&◌, ◌||◌, Option, none, some, List, [], ◌∷◌, ◌++◌, ◌==◌,
  if◌then◌else◌, Exception, filesystem_error,
}
use stldb.Checkpoint.File.{CheckpointFileInfo, CheckpointOfstream, add_free_space}
use stldb.FileUtil.Names.{same_name, meta, hex}
use stldb.FileUtil.Files.{DirectoryEntry}
pub mod Directory
pub mod Kept
pub mod Reopened
mod Tests

-- ".meta_wip", and the same as replace_extension takes it
abbrev wip_extension : List ℕ
wip_extension = 109 ∷ 101 ∷ 116 ∷ 97 ∷ 95 ∷ 119 ∷ 105 ∷ 112 ∷ []

abbrev meta_wip : List ℕ
meta_wip = 46 ∷ wip_extension

-- The name of the metafile.
unfoldable pub metafile_name : List ℕ → ℕ → List ℕ
unfolding hex
metafile_name container lsn = container ++ 46 ∷ hex 16 lsn meta

-- compare(0, name.length(), name) == 0
unfoldable pub starts_with : List ℕ → List ℕ → Bool
starts_with [] name = true
starts_with (c ∷ cs) [] = false
starts_with (c ∷ cs) (d ∷ ds) = c == d && starts_with cs ds

unfoldable pub find_file : List ℕ → List DirectoryEntry → Option DirectoryEntry
find_file name [] = none
find_file name (e ∷ es) =
    let later = find_file name es in if same_name name e.filename then some e else later

unfoldable pub remove_file : List ℕ → List DirectoryEntry → List DirectoryEntry
remove_file name [] = []
remove_file name (e ∷ es) =
    let later = remove_file name es in if same_name name e.filename then later else e ∷ later

-- A file with this name and these contents, in place of one that was there.
abbrev pub put_file : List ℕ → Option CheckpointFileInfo → List DirectoryEntry → List DirectoryEntry
put_file name contents es =
    record { filename = name; is_directory = false; metafile = contents } ∷ remove_file name es

-- Whether the metafile is written whole, whether it is renamed, and which files can be removed.
pub record CommitOutcome : Type 0 where
  pub written : Bool
  pub renamed : Bool
  pub removable : List ℕ → Bool

-- The loop over to_remove.
unfoldable pub remove_files :
    (List ℕ → Bool) → List (List ℕ) → List DirectoryEntry → List DirectoryEntry
unfolding remove_file
remove_files removable [] es = es
remove_files removable (name ∷ names) es =
    remove_files removable names (if removable name then remove_file name es else es)

-- The state of the file after commit.
unfoldable pub committed : ℕ → ℕ → CheckpointOfstream → CheckpointOfstream
unfolding add_free_space metafile_name
committed lsn_at_start lsn_at_end c =
    let c' = add_free_space c in
    record c' {
      info = record c'.info {
        meta_filename = metafile_name c'.info.container_name lsn_at_start;
        lsn_at_start = lsn_at_start;
        lsn_at_end = lsn_at_end;
      };
    }

module _ (extension : List ℕ → List ℕ) (replace_extension : List ℕ → List ℕ → List ℕ) where
  -- The test for a file to remove.
  abbrev is_previous : List ℕ → List ℕ → DirectoryEntry → Bool
  is_previous container final e =
      not e.is_directory
      && (same_name (extension e.filename) meta || same_name (extension e.filename) meta_wip)
      && not (same_name e.filename final)
      && starts_with container e.filename

  -- The loop that fills to_remove.
  unfoldable pub to_remove : List ℕ → List ℕ → List DirectoryEntry → List (List ℕ)
  unfolding same_name starts_with
  to_remove container final [] = []
  to_remove container final (e ∷ es) =
      let later = to_remove container final es in
      if is_previous container final e then e.filename ∷ later else later

  -- The metafile is written under its temporary name.
  unfoldable pub write_metafile :
      Bool → CheckpointFileInfo → List DirectoryEntry → List DirectoryEntry
  unfolding remove_file
  write_metafile written info es =
      put_file (replace_extension info.meta_filename wip_extension)
        (if written then some info else none) es

  -- The metafile gets its final name, and the previous ones are removed.
  unfoldable pub install_metafile :
      CommitOutcome → CheckpointFileInfo → List DirectoryEntry → List DirectoryEntry
  unfolding remove_file remove_files to_remove
  install_metafile o info es =
      let es' =
        put_file info.meta_filename (if o.written then some info else none)
          (remove_file (replace_extension info.meta_filename wip_extension) es) in
      remove_files o.removable (to_remove info.container_name info.meta_filename es') es'

  -- commit: the state that it leaves, the directory, and the exception that it throws, if it does.
  unfoldable pub commit :
      CommitOutcome
      → ℕ
      → ℕ
      → CheckpointOfstream
      → List DirectoryEntry
      → (CheckpointOfstream × List DirectoryEntry) × Option Exception
  unfolding committed write_metafile install_metafile
  commit o lsn_at_start lsn_at_end c es =
      let c' = committed lsn_at_start lsn_at_end c in
      let es' = write_metafile o.written c'.info es in
      if o.renamed
      then ((c', install_metafile o c'.info es'), none)
      else ((c', es'), some filesystem_error)
