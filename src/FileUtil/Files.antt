-- ===== src/FileUtil/Files.antt =====
-- src/db_file_util.cpp: the log files and the checkpoints that the directories hold.
-- A map is the list of its entries, in the order of the keys where these are numbers. extension() of
-- boost::filesystem is a parameter. A metafile whose contents are invalid leaves the record it is read into as it is.
use stldb.Prelude.{
  ℕ, ◌-◌, ◌^◌, Bool, not, ◌&&◌, ◌||◌, Option, none, some, List, [], ◌∷◌, ◌==◌, ltb, leb,
  if◌then◌else◌,
}
use stldb.LogReader.{no_transaction}
use stldb.Checkpoint.File.{CheckpointFileInfo}
use stldb.FileUtil.Names.{same_name, meta, get_logfile_starting_lsn}

-- What a directory_iterator comes to: a name, and the metafile that the file holds, if it is one.
pub record DirectoryEntry : Type 0 where
  pub filename : List ℕ
  pub is_directory : Bool
  pub metafile : Option CheckpointFileInfo

-- insert of the map from LSN to path, which keeps an entry that has the key.
unfoldable insert_file : ℕ → List ℕ → List (ℕ × List ℕ) → List (ℕ × List ℕ)
insert_file lsn path [] = (lsn, path) ∷ []
insert_file lsn path ((k, p) ∷ files) =
    let later = insert_file lsn path files in
    if ltb lsn k
    then (lsn, path) ∷ (k, p) ∷ files
    else if lsn == k
    then (k, p) ∷ files
    else (k, p) ∷ later

unfoldable add_log_file : DirectoryEntry → List (ℕ × List ℕ) → List (ℕ × List ℕ)
unfolding insert_file
add_log_file e files =
    if e.is_directory || get_logfile_starting_lsn e.filename == no_transaction
    then files
    else insert_file (get_logfile_starting_lsn e.filename) e.filename files

-- The loop of get_log_files.
unfoldable log_files_from : List DirectoryEntry → List (ℕ × List ℕ) → List (ℕ × List ℕ)
unfolding add_log_file
log_files_from [] files = files
log_files_from (e ∷ es) files = log_files_from es (add_log_file e files)

-- get_log_files, of a directory or none
unfoldable get_log_files : Option (List DirectoryEntry) → List (ℕ × List ℕ)
unfolding log_files_from
get_log_files none = []
get_log_files (some es) = log_files_from es []

-- checkpoint_file_info()
abbrev no_info : CheckpointFileInfo
no_info = record {
  ckpt_filename = [];
  meta_filename = [];
  container_name = [];
  file_length = 0;
  lsn_at_start = 0;
  lsn_at_end = 0;
  free_space = [];
}

module _ (extension : List ℕ → List ℕ) where
  abbrev pub is_meta : DirectoryEntry → Bool
  is_meta e = not e.is_directory && same_name (extension e.filename) meta

module _ (extension : List ℕ → List ℕ)
    (partly_read : List ℕ → CheckpointFileInfo → CheckpointFileInfo) where
  -- The record after a metafile was read into it; partly_read is what is left of it where that failed.
  abbrev read_into : CheckpointFileInfo → List ℕ → Option CheckpointFileInfo → CheckpointFileInfo
  read_into info filename none = partly_read filename info
  read_into info filename (some i) = i

  -- The loop of get_checkpoints, with the record that it reads into.
  unfoldable checkpoints_from : CheckpointFileInfo → List DirectoryEntry → List CheckpointFileInfo
  unfolding same_name
  checkpoints_from info [] = []
  checkpoints_from info (e ∷ es) =
      let later = checkpoints_from info es in
      let after = checkpoints_from (read_into info e.filename e.metafile) es in
      if is_meta extension e then read_into info e.filename e.metafile ∷ after else later

  -- get_checkpoints
  unfoldable pub get_checkpoints : Option (List DirectoryEntry) → List CheckpointFileInfo
  unfolding checkpoints_from
  get_checkpoints none = []
  get_checkpoints (some es) = checkpoints_from no_info es

-- The checkpoint of a container, where the map has it.
unfoldable pub find : List ℕ → List (List ℕ × CheckpointFileInfo) → Option CheckpointFileInfo
find name [] = none
find name ((k, c) ∷ m) = let later = find name m in if same_name name k then some c else later

-- The body of the loop of get_current_checkpoints.
unfoldable pub add_checkpoint :
    CheckpointFileInfo → List (List ℕ × CheckpointFileInfo) → List (List ℕ × CheckpointFileInfo)
unfolding same_name
add_checkpoint i [] = (i.container_name, i) ∷ []
add_checkpoint i ((k, c) ∷ m) =
    let later = add_checkpoint i m in
    if same_name i.container_name k
    then (k, if ltb c.lsn_at_start i.lsn_at_start then i else c) ∷ m
    else (k, c) ∷ later

unfoldable pub current_from :
    List CheckpointFileInfo
    → List (List ℕ × CheckpointFileInfo)
    → List (List ℕ × CheckpointFileInfo)
unfolding add_checkpoint
current_from [] m = m
current_from (i ∷ is) m = current_from is (add_checkpoint i m)

-- get_current_checkpoints
unfoldable pub get_current_checkpoints :
    (List ℕ → List ℕ)
    → (List ℕ → CheckpointFileInfo → CheckpointFileInfo)
    → Option (List DirectoryEntry)
    → List (List ℕ × CheckpointFileInfo)
unfolding get_checkpoints current_from
get_current_checkpoints extension partly_read dir =
    current_from (get_checkpoints extension partly_read dir) []

-- The loop of get_checkpoint_lsn_range.
unfoldable pub range_from : ℕ × ℕ → List (List ℕ × CheckpointFileInfo) → ℕ × ℕ
range_from r [] = r
range_from (lo, hi) ((k, c) ∷ m) =
    range_from
      (
        if ltb c.lsn_at_start lo then c.lsn_at_start else lo,
        if ltb hi c.lsn_at_end then c.lsn_at_end else hi,
      )
      m

-- get_checkpoint_lsn_range, of the checkpoints that get_current_checkpoints gives
unfoldable pub get_checkpoint_lsn_range : List (List ℕ × CheckpointFileInfo) → ℕ × ℕ
unfolding range_from
get_checkpoint_lsn_range [] = (0, 0)
get_checkpoint_lsn_range (c ∷ m) = range_from (2 ^ 63 - 1, 0) (c ∷ m)

-- The log files before the place of an iterator, the last one first, and those from it on.
abbrev pub Place : Type 0
Place = List (ℕ × List ℕ) × List (ℕ × List ℕ)

-- The loop of get_first_needed.
unfoldable pub first_at_least : ℕ → List (ℕ × List ℕ) → List (ℕ × List ℕ) → Place
first_at_least min_lsn before [] = (before, [])
first_at_least min_lsn before (f ∷ files) =
    let later = first_at_least min_lsn (f ∷ before) files in
    if leb min_lsn f.0 then (before, f ∷ files) else later

-- The log file previous as well.
unfoldable pub step_back : ℕ → Place → Place
step_back min_lsn ([], after) = ([], after)
step_back min_lsn (b ∷ before, []) = (before, b ∷ [])
step_back min_lsn (b ∷ before, f ∷ after) =
    if ltb min_lsn f.0 then (before, b ∷ f ∷ after) else (b ∷ before, f ∷ after)

-- get_first_needed, for the least LSN of the checkpoints
unfoldable pub get_first_needed : ℕ → List (ℕ × List ℕ) → Place
unfolding first_at_least step_back
get_first_needed min_lsn files = step_back min_lsn (first_at_least min_lsn [] files)

abbrev pub paths : List (ℕ × List ℕ) → List (List ℕ)
paths [] = []
paths (f ∷ files) = f.1 ∷ paths files

-- The files before a place, in order, and those that follow.
unfoldable pub rewind : List (ℕ × List ℕ) → List (ℕ × List ℕ) → List (ℕ × List ℕ)
rewind [] after = after
rewind (b ∷ before) after = rewind before (b ∷ after)

-- get_current_logs and get_archivable_logs, of the log files and the checkpoints that there are
unfoldable pub get_current_logs :
    List (List ℕ × CheckpointFileInfo) → List (ℕ × List ℕ) → List (List ℕ)
unfolding get_first_needed get_checkpoint_lsn_range
get_current_logs checkpoints files =
    paths (get_first_needed (get_checkpoint_lsn_range checkpoints).0 files).1

unfoldable pub get_archivable_logs :
    List (List ℕ × CheckpointFileInfo) → List (ℕ × List ℕ) → List (List ℕ)
unfolding get_first_needed get_checkpoint_lsn_range rewind
get_archivable_logs checkpoints files =
    paths (rewind (get_first_needed (get_checkpoint_lsn_range checkpoints).0 files).0 [])
