-- ===== src/FileUtil/Tests.antt =====
-- Runs of the functions on names, log files and checkpoints, and the theorems at these.
use stldb.Prelude.{ℕ, ◌≡◌, refl, false, Option, none, some, List, [], ◌∷◌, ◌++◌}
use stldb.LogReader.{no_transaction}
use stldb.Recovery.{from_first_needed}
use stldb.Checkpoint.File.{CheckpointFileInfo}
use stldb.FileUtil.Names.{same_name, meta, log_filename, get_logfile_starting_lsn}
use stldb.FileUtil.Files.{
  DirectoryEntry, get_checkpoints, find, get_current_checkpoints, get_checkpoint_lsn_range,
  get_first_needed, rewind, get_current_logs, get_archivable_logs, paths,
}
use stldb.FileUtil.Current.{IsLatest, get_current_checkpoints-IsLatest}
use stldb.FileUtil.Metafile.{get_current_metafile, IsNewest, get_current_metafile-IsNewest}
use stldb.FileUtil.Needed.{
  FollowedBy, get_first_needed-FollowedBy, get_archivable_logs-get_current_logs,
}

-- "L00000000000000FF.log"
abbrev log_255 : List ℕ
log_255 =
    76 ∷ 48 ∷ 48 ∷ 48 ∷ 48 ∷ 48 ∷ 48 ∷ 48 ∷ 48 ∷ 48 ∷ 48 ∷ 48 ∷ 48 ∷ 48 ∷ 48 ∷ 70 ∷ 70 ∷ 46 ∷ 108
    ∷ 111 ∷ 103 ∷ []

log_filename_test : log_filename 255 ≡ log_255
unfolding log_filename
log_filename_test = refl

-- "a.log"
other_name_test : get_logfile_starting_lsn (97 ∷ 46 ∷ 108 ∷ 111 ∷ 103 ∷ []) ≡ no_transaction
unfolding get_logfile_starting_lsn
other_name_test = refl

-- The checkpoint of a container from one LSN to another.
abbrev checkpoint_of : ℕ → ℕ → ℕ → CheckpointFileInfo
checkpoint_of container start end = record {
  ckpt_filename = container ∷ [];
  meta_filename = [];
  container_name = container ∷ [];
  file_length = 0;
  lsn_at_start = start;
  lsn_at_end = end;
  free_space = [];
}

abbrev metafile_of : CheckpointFileInfo → DirectoryEntry
metafile_of i = record {
  filename = i.container_name ++ meta;
  is_directory = false;
  metafile = some i;
}

-- Two checkpoints of one container, and one of another.
abbrev directory : Option (List DirectoryEntry)
directory = some (
    metafile_of (checkpoint_of 97 20 22)
    ∷ metafile_of (checkpoint_of 97 40 44)
    ∷ metafile_of (checkpoint_of 98 30 33)
    ∷ [])

-- The extension of a name of one letter before it.
-- A reading that fails before it changes the record.
abbrev left_as_is : List ℕ → CheckpointFileInfo → CheckpointFileInfo
left_as_is filename i = i

abbrev extension : List ℕ → List ℕ
extension [] = []
extension (c ∷ cs) = cs

get_current_checkpoints_test :
    get_current_checkpoints extension left_as_is directory
    ≡ (97 ∷ [], checkpoint_of 97 40 44) ∷ (98 ∷ [], checkpoint_of 98 30 33) ∷ []
unfolding get_current_checkpoints
get_current_checkpoints_test = refl

get_current_checkpoints-IsLatest_example :
    IsLatest
      (97 ∷ [])
      (get_checkpoints extension left_as_is directory)
      (find (97 ∷ []) (get_current_checkpoints extension left_as_is directory))
get_current_checkpoints-IsLatest_example =
    get_current_checkpoints-IsLatest extension left_as_is directory (97 ∷ [])

-- A metafile that cannot be read gives the record of the one before it once more.
get_checkpoints_test :
    get_checkpoints extension left_as_is (
      some (
        metafile_of (checkpoint_of 97 20 22)
        ∷ record { filename = 98 ∷ meta; is_directory = false; metafile = none }
        ∷ []))
    ≡ checkpoint_of 97 20 22 ∷ checkpoint_of 97 20 22 ∷ []
unfolding get_checkpoints
get_checkpoints_test = refl

abbrev metafiles : List DirectoryEntry
metafiles = metafile_of (checkpoint_of 97 20 22) ∷ metafile_of (checkpoint_of 97 40 44) ∷ []

get_current_metafile-IsNewest_example :
    IsNewest extension
      (97 ∷ [])
      metafiles
      (get_current_metafile extension (97 ∷ []) (some metafiles))
get_current_metafile-IsNewest_example = get_current_metafile-IsNewest extension (97 ∷ []) metafiles

-- The metafile of a checkpoint that started at the LSN 0 is not found.
get_current_metafile_test :
    get_current_metafile extension (97 ∷ []) (some (metafile_of (checkpoint_of 97 0 3) ∷ []))
    ≡ some none
unfolding get_current_metafile same_name
get_current_metafile_test = refl

abbrev current : List (List ℕ × CheckpointFileInfo)
current = (97 ∷ [], checkpoint_of 97 40 44) ∷ (98 ∷ [], checkpoint_of 98 30 33) ∷ []

abbrev logs : List (ℕ × List ℕ)
logs = (1, 1 ∷ []) ∷ (25, 2 ∷ []) ∷ (35, 3 ∷ []) ∷ []

get_archivable_logs_test : get_archivable_logs current logs ≡ (1 ∷ []) ∷ []
unfolding get_archivable_logs
get_archivable_logs_test = refl

get_archivable_logs-get_current_logs_example :
    (get_archivable_logs current logs ++ get_current_logs current logs ≡ paths logs)
    × (get_current_logs current logs
        ≡ paths (from_first_needed (get_checkpoint_lsn_range current).0 logs))
get_archivable_logs-get_current_logs_example = get_archivable_logs-get_current_logs current logs

get_first_needed-FollowedBy_example :
    (rewind (get_first_needed 30 logs).0 (get_first_needed 30 logs).1 ≡ logs)
    × ((get_first_needed 30 logs).1 ≡ from_first_needed 30 logs)
    × FollowedBy 30 (get_first_needed 30 logs)
get_first_needed-FollowedBy_example = get_first_needed-FollowedBy 30 logs
