-- ===== src/Database/Tests.antt =====
-- stldb/Database.tcc: the theorems at a small database, whose containers are a list of numbers.
use stldb.Prelude.{
  ℕ, ◌≡◌, refl, Bool, true, false, Option, none, some, List, [], ◌∷◌, ◌++◌, arith, ◌==◌,
  if◌then◌else◌,
}
use stldb.Logging.{LogHeader, no_header, header_bytes}
use stldb.Logger.State.{CommitBuffer, prepare_header, finalize_header}
use stldb.Logger.Write.{record_bytes}
use stldb.Recovery.{recover, from_first_needed}
use stldb.Checkpoint.File.{CheckpointFileInfo}
use stldb.FileUtil.Names.{same_name}
use stldb.FileUtil.Files.{
  find, get_first_needed, get_checkpoint_lsn_range, first_at_least, step_back, range_from,
}
use stldb.Registry.{absent, locked, Files, new_registry, is_registered, register_pid}
use stldb.Database.Info.{
  DatabaseInfo, Region, Arguments, new_database_info, put_lsn, find_or_construct_databaseinfo,
}
use stldb.Database.Load.{count_missing, count_checkpoint, load_each, load_containers}
use stldb.Database.Archived.{is_container, with_contents, reload-logs_gone}
use stldb.Database.Open.{
  Opened, opened, logs_gone, resume_at, after_recovery, attach, reload, build, open_database,
}
use stldb.Database.Opened.{RegistryTells, open_database-Tells}
use stldb.Database.Recovered.{IsRecovered}
use stldb.Database.Rebuilt.{open_database-IsRecovered}

abbrev pub always : {A : Type 0} → A → Bool
always a = true

abbrev pub name : List ℕ
name = 116 ∷ []

abbrev arguments : Arguments
arguments = record {
  database_name = 100 ∷ [];
  database_directory = 47 ∷ [];
  initial_size = 1024;
  checkpoint_directory = 47 ∷ [];
  log_directory = 47 ∷ [];
  max_log_file_len = 4096;
  synchronous_logging = true;
  containers = name ∷ [];
}

abbrev no_files : Files
no_files pid = absent

abbrev load_all : List ℕ → CheckpointFileInfo → List ℕ → Option (List ℕ)
load_all n c s = some s

abbrev ignore : List ℕ → LogHeader → List ℕ → List ℕ
ignore s h bytes = s

abbrev keep_size : ℕ → ℕ → ℕ
keep_size old new = new

abbrev sound : Region (List ℕ) → Bool
sound r = true

-- The first opening of a new database by process 7.
abbrev pub first_info : DatabaseInfo
first_info = record new_database_info {
  log_info = record new_database_info.log_info { log_max_len = 4096; log_sync = true };
  log_dir = 47 ∷ [];
  ckpt_history_map = (name, 0) ∷ [];
  database_name = 100 ∷ [];
  database_directory = 47 ∷ [];
  checkpoint_directory = 47 ∷ [];
}

abbrev first_opened : Opened (List ℕ)
first_opened = record {
  region = record {
    registry = some (record {
      registry_construct_complete = true;
      registry = 7 ∷ [];
      database_construct_complete = true;
      database_invalid = false;
    });
    dbinfo = some first_info;
    size = 1024;
    containers = [];
  };
  files = λ q. if 7 == q then locked else absent;
  ending = opened;
}

open_first :
    open_database always 7 arguments sound [] keep_size load_all ignore 1 1 [] [] none no_files
    ≡ some first_opened
unfolding open_database attach register_pid is_registered build find_or_construct_databaseinfo
    reload load_containers load_each find count_missing put_lsn same_name recover from_first_needed
    after_recovery resume_at
open_first = refl

open_database-Tells_example : RegistryTells always 7 first_opened
open_database-Tells_example =
    open_database-Tells always 7 arguments sound [] keep_size load_all ignore 1 1 [] [] none
      no_files first_opened open_first

creating : (attach always 7 arguments sound [] none no_files).creating_region ≡ true
unfolding attach
creating = refl

-- The container t with a checkpoint from LSN 1 to LSN 1, and a log file with the transaction 1.
abbrev current_t : List (List ℕ × CheckpointFileInfo)
current_t =
    (
      name,
      record {
        ckpt_filename = [];
        meta_filename = [];
        container_name = name;
        file_length = 0;
        lsn_at_start = 1;
        lsn_at_end = 1;
        free_space = [];
      },
    )
    ∷ []

abbrev logged : CommitBuffer
unfolding finalize_header prepare_header
logged =
    finalize_header 1
      (prepare_header (record { bytes = 97 ∷ 98 ∷ 99 ∷ []; op_count = 1; header = no_header }))

abbrev log_of_t : List (ℕ × List ℕ)
unfolding record_bytes header_bytes logged
log_of_t = (0, record_bytes logged) ∷ []

abbrev load_nine : List ℕ → CheckpointFileInfo → List ℕ → Option (List ℕ)
load_nine n c s = some (9 ∷ s)

abbrev redo_bytes : List ℕ → LogHeader → List ℕ → List ℕ
redo_bytes s h bytes = s ++ bytes

abbrev second_info : DatabaseInfo
second_info = record first_info {
  log_info = record first_info.log_info {
    next_lsn = 2;
    last_write_txn_id = 1;
    last_sync_txn_id = 1;
  };
  ckpt_history_map = (name, 1) ∷ [];
}

abbrev recovered_t : Opened (List ℕ)
recovered_t = record first_opened {
  region = record first_opened.region {
    dbinfo = some second_info;
    containers = 9 ∷ 97 ∷ 98 ∷ 99 ∷ [];
  };
}

open_with_log :
    open_database always 7 arguments sound [] keep_size load_nine redo_bytes 3 3 current_t log_of_t
      none no_files
    ≡ some recovered_t
unfolding open_database attach register_pid is_registered build find_or_construct_databaseinfo
    reload load_containers load_each find count_checkpoint put_lsn same_name recover
    from_first_needed after_recovery resume_at log_of_t
open_with_log = refl

open_database-IsRecovered_example :
    IsRecovered load_nine redo_bytes 3 3 current_t log_of_t (name ∷ []) [] recovered_t
unfolding attach
open_database-IsRecovered_example =
    open_database-IsRecovered always 7 arguments sound [] keep_size load_nine redo_bytes 3 3
      current_t log_of_t none no_files recovered_t open_with_log creating refl

-- The container u has a checkpoint from LSN 9 on, and t has none.
abbrev current_u : List (List ℕ × CheckpointFileInfo)
current_u =
    (
      117 ∷ [],
      record {
        ckpt_filename = [];
        meta_filename = [];
        container_name = 117 ∷ [];
        file_length = 0;
        lsn_at_start = 9;
        lsn_at_end = 9;
        free_space = [];
      },
    )
    ∷ []

abbrev log_paths : List (ℕ × List ℕ)
log_paths = (0, 48 ∷ []) ∷ (4, 52 ∷ []) ∷ (8, 56 ∷ []) ∷ []

abbrev no_contents : List ℕ → List ℕ
no_contents path = []

abbrev empty_region : Region (List ℕ)
empty_region = record { registry = none; dbinfo = none; size = 1024; containers = [] }

first_needed_u :
    get_first_needed (get_checkpoint_lsn_range current_u).0 log_paths
    ≡ ((4, 52 ∷ []) ∷ (0, 48 ∷ []) ∷ [], (8, 56 ∷ []) ∷ [])
unfolding get_first_needed get_checkpoint_lsn_range range_from first_at_least step_back
first_needed_u = refl

missing_t : find name current_u ≡ none
unfolding find same_name
missing_t = refl

is_container_t : is_container name (name ∷ []) ≡ true
unfolding is_container same_name
is_container_t = refl

load_t :
    load_containers load_all current_u (name ∷ []) [] []
    ≡ some (record {
      recovery_start_lsn = 0;
      recovery_end_lsn = none;
      ckpt_history_map = (name, 0) ∷ [];
      container_lsn = (name, 0) ∷ [];
      containers = [];
    })
unfolding load_containers load_each find count_missing put_lsn same_name
load_t = refl

reload-logs_gone_example :
    (o : Opened (List ℕ)) × (reload always 7 arguments sound [] keep_size load_all ignore 1 1
        current_u
        (with_contents no_contents
          (get_first_needed (get_checkpoint_lsn_range current_u).0 log_paths).1)
        new_registry
        empty_region
        no_files
        (record first_info { ckpt_history_map = [] })
      ≡ some o)
    × (o.ending ≡ logs_gone)
reload-logs_gone_example =
    reload-logs_gone always 7 arguments sound [] keep_size load_all ignore 1 1 current_u
      new_registry empty_region no_files (record first_info { ckpt_history_map = [] }) _ name
      no_contents log_paths _ _ (8, 56 ∷ []) is_container_t missing_t load_t first_needed_u
      (omega arith)
