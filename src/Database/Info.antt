-- ===== src/Database/Info.antt =====
-- stldb/Database.h: what the region of a database holds. The strings are lists of characters, and a
-- map is the list of its entries. The mutexes and the transaction lock are left out, and the spare
-- commit buffers too.
use stldb.Prelude.{ℕ, ◌*◌, Bool, true, Option, none, List, [], ◌∷◌, if◌then◌else◌}
use stldb.Logger.State.{LogStats, SharedLogInfo}
use stldb.FileUtil.Names.{same_name}
use stldb.Registry.{Registry}

pub record DatabaseInfo : Type 0 where
  pub next_txn_id : ℕ
  pub log_info : SharedLogInfo
  pub log_dir : List ℕ
  pub ckpt_history_map : List (List ℕ × ℕ)
  pub database_name : List ℕ
  pub database_directory : List ℕ
  pub checkpoint_directory : List ℕ

-- The region, with the contents of all containers; `none` is what it has not got yet.
pub record Region (State : Type 0) : Type 0 where
  pub registry : Option Registry
  pub dbinfo : Option DatabaseInfo
  pub size : ℕ
  pub containers : State

-- log_stats()
abbrev no_stats : LogStats
no_stats = record {
  total_commits = 0;
  total_write_commits = 0;
  total_sync_only_commits = 0;
  total_free_commits = 0;
  total_writes = 0;
  max_writes_per_commit = 0;
  max_buffers_per_commit = 0;
  total_bytes_written = 0;
  total_syncs = 0;
}

-- SharedLogInfo()
abbrev new_log_info : SharedLogInfo
new_log_info = record {
  next_lsn = 1;
  last_write_txn_id = 0;
  last_sync_txn_id = 0;
  waiting_txns = [];
  log_filename = none;
  log_len = 0;
  log_max_len = 256 * 1024 * 1024;
  log_sync = true;
  stats = no_stats;
}

-- DatabaseInfo()
abbrev pub new_database_info : DatabaseInfo
new_database_info = record {
  next_txn_id = 1;
  log_info = new_log_info;
  log_dir = [];
  ckpt_history_map = [];
  database_name = [];
  database_directory = [];
  checkpoint_directory = [];
}

-- m[name] = lsn
unfoldable pub put_lsn : List ℕ → ℕ → List (List ℕ × ℕ) → List (List ℕ × ℕ)
unfolding same_name
put_lsn name lsn [] = (name, lsn) ∷ []
put_lsn name lsn ((k, l) ∷ m) =
    let rest = put_lsn name lsn m in if same_name name k then (k, lsn) ∷ m else (k, l) ∷ rest

-- find of the map, or 0 where there is no entry
unfoldable pub lsn_of : List ℕ → List (List ℕ × ℕ) → ℕ
unfolding same_name
lsn_of name [] = 0
lsn_of name ((k, l) ∷ m) = let rest = lsn_of name m in if same_name name k then l else rest

-- The arguments of the constructor of Database, without the mapping address.
pub record Arguments : Type 0 where
  pub database_name : List ℕ
  pub database_directory : List ℕ
  pub initial_size : ℕ
  pub checkpoint_directory : List ℕ
  pub log_directory : List ℕ
  pub max_log_file_len : ℕ
  pub synchronous_logging : Bool
  pub containers : List (List ℕ)

-- A string stays as it is unless it is empty.
abbrev or_else : List ℕ → List ℕ → List ℕ
or_else [] s = s
or_else (c ∷ cs) s = c ∷ cs

abbrev set_log_info : Arguments → List ℕ → SharedLogInfo → SharedLogInfo
set_log_info a [] i = record i {
  log_max_len = a.max_log_file_len;
  log_sync = a.synchronous_logging;
}
set_log_info a (c ∷ cs) i = i

abbrev found_info : Option DatabaseInfo → DatabaseInfo
found_info Option.none = new_database_info
found_info (Option.some i) = i

-- find_or_construct_databaseinfo
unfoldable pub find_or_construct_databaseinfo : Arguments → Option DatabaseInfo → DatabaseInfo
find_or_construct_databaseinfo a found = record info {
  database_name = or_else info.database_name a.database_name;
  database_directory = or_else info.database_directory a.database_directory;
  checkpoint_directory = or_else info.checkpoint_directory a.checkpoint_directory;
  log_info = set_log_info a info.log_dir info.log_info;
  log_dir = or_else info.log_dir a.log_directory;
}
  where
    info : DatabaseInfo
    info = found_info found
