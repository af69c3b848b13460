-- ===== src/Transaction/Tests.antt =====
-- Transactions with an update and with a lock on a container of one row, and the theorems of commit
-- applied to them.
use stldb.Prelude.{
  ℕ, ◌≡◌, refl, true, false, none, some, List, [], ◌∷◌, arith, ltb, ◌==◌, Result, ok, throw,
  Exception,
}
use stldb.TransMap.Rows.{Comparator, find}
use stldb.TransMap.Entry.{no_op}
use stldb.TransMap.Op.{TransMap, map_lock, LogRecord}
use stldb.TransMap.Calls.{Session, lock, update, at_entry}
use stldb.Logger.State.{Logger}
use stldb.Transaction.{Transaction, failed, commit}
use stldb.Transaction.Durable.{commit-AreLocks}

same_number : (a b : ℕ) → ((a == b) ≡ true → a ≡ b) × (a ≡ b → (a == b) ≡ true)
same_number a b = (λ h. ground arith, λ h. ground arith)

instance abbrev number_keys : Comparator ℕ
number_keys = record { less = ltb; same = ◌==◌; same_iff = same_number }

abbrev one_row : TransMap ℕ ℕ
one_row = record {
  rows = (1, record { value = 10; op = no_op; txn_id = 4; offset = 0; size = 0 }) ∷ [];
  ver_num = 0;
  freed = [];
  uncheckpointed_clear = false;
}

abbrev opened : Session ℕ ℕ
opened = record { map = one_row; lock_id = 7; ops = []; pending = [] }

abbrev state_of : Result (Session ℕ ℕ) → Session ℕ ℕ
state_of (ok s) = s
state_of (throw e) = opened

abbrev updating : Transaction ℕ ℕ
unfolding update
updating = record { session = state_of (update 1 11 opened); commit_lsn = 0 }

abbrev locking : Transaction ℕ ℕ
unfolding lock
locking = record { session = state_of (lock 1 opened); commit_lsn = 0 }

abbrev one_byte_each : List (LogRecord ℕ ℕ) → List ℕ
one_byte_each [] = []
one_byte_each (r ∷ rs) = r.key ∷ one_byte_each rs

abbrev new_logger : Logger
new_logger = record {
  info = record {
    next_lsn = 5;
    last_write_txn_id = 4;
    last_sync_txn_id = 4;
    waiting_txns = [];
    log_filename = none;
    log_len = 0;
    log_max_len = 600;
    log_sync = true;
    stats = record {
      total_commits = 0;
      total_write_commits = 0;
      total_sync_only_commits = 0;
      total_free_commits = 0;
      total_writes = 0;
      max_writes_per_commit = 0;
      max_buffers_per_commit = 0;
      total_bytes_written = 0;
      total_syncs = 0;
    };
  };
  my_log_filename = none;
  my_fp_offset = 0;
  fd_offset = 0;
  files = [];
  disk = [];
}

commit-AreLocks_example :
    commit one_byte_each false 3 locking new_logger
    ≡ some (locking, new_logger, failed Exception.io_failure)
unfolding lock at_entry find
commit-AreLocks_example =
    commit-AreLocks one_byte_each 3 locking new_logger (map_lock 4 no_op 1) [] refl tt
