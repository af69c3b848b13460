-- ===== src/Recovery.antt =====
-- stldb/recovery_manager.h: redoing the transactions of the log files. recover_txn, which hands the
-- operations of a transaction to the containers, is a parameter; it is taken not to throw.
pub mod Replay
pub mod First
mod Tests
use mathlib.Core.Option
use stldb.Prelude.{
  ℕ, zero, suc, Bool, true, false, not, ◌&&◌, ◌||◌, Option, none, some, List, [], ◌∷◌, ◌==◌, ltb,
  leb, if◌then◌else◌,
}
use stldb.Logging.{LogHeader}
use stldb.LogReader.{
  LogReader, Next, transaction, recover_from_log_failed, no_transaction, new_log_reader,
  read_next_txn, next_transaction, seek_transaction,
}

-- How recover() goes through a file: to its end, or until the reader throws, which it catches.
pub data Ending : Type 0 where
  complete : Ending
  aborted : Ending

module _ {State : Type 0} (recover_txn : State → LogHeader → List ℕ → State) where
  -- What follows a read: `rest` is the loop from the next transaction on.
  abbrev pub recover_next :
      (State → ℕ → LogReader → Option (State × ℕ × Ending))
      → State
      → ℕ
      → Option (LogReader × Next)
      → Option (State × ℕ × Ending)
  recover_next rest s max_lsn none = none
  recover_next rest s max_lsn (some (r, recover_from_log_failed f)) = some (s, max_lsn, aborted)
  recover_next rest s max_lsn (some (r, transaction lsn)) =
      if lsn == no_transaction
      then some (s, max_lsn, complete)
      else rest (recover_txn s r.header r.buffer) lsn r

  -- The loop over the transactions of a log file, with the state and the max_lsn that it leaves.
  -- `reads` is the fuel of each read, and the second number that of the loop.
  unfoldable recover_file : ℕ → ℕ → State → ℕ → LogReader → Option (State × ℕ × Ending)
  unfolding next_transaction
  recover_file reads zero s max_lsn r = none
  recover_file reads (suc n) s max_lsn r =
      recover_next (recover_file reads n) s max_lsn (next_transaction reads r)

  -- The loop over the first log file, from the transaction that seek_transaction found.
  abbrev recover_first_next :
      (State → ℕ → LogReader → Option (State × ℕ × Ending))
      → ℕ
      → State
      → ℕ
      → Option (LogReader × Next)
      → Option (State × ℕ × Ending)
  recover_first_next rest starting_lsn s max_lsn none = none
  recover_first_next rest starting_lsn s max_lsn (some (r, recover_from_log_failed f)) =
      some (s, max_lsn, aborted)
  recover_first_next rest starting_lsn s max_lsn (some (r, transaction lsn)) =
      if leb starting_lsn lsn && not (lsn == no_transaction)
      then rest (recover_txn s r.header r.buffer) lsn r
      else some (s, max_lsn, complete)

  unfoldable recover_first : ℕ → ℕ → ℕ → State → ℕ → LogReader → Option (State × ℕ × Ending)
  unfolding next_transaction
  recover_first reads zero starting_lsn s max_lsn r = none
  recover_first reads (suc n) starting_lsn s max_lsn r =
      recover_first_next (recover_first reads n starting_lsn) starting_lsn s max_lsn
        (next_transaction reads r)

  -- What seek_transaction returns is max_lsn before the loop.
  abbrev from_sought : ℕ → ℕ → ℕ → State → Option (LogReader × Next) → Option (State × ℕ × Ending)
  from_sought reads n starting_lsn s none = none
  from_sought reads n starting_lsn s (some (r, recover_from_log_failed f)) =
      some (s, no_transaction, aborted)
  from_sought reads n starting_lsn s (some (r, transaction lsn)) =
      recover_first_next (recover_first reads n starting_lsn) starting_lsn s lsn
        (some (r, transaction lsn))

  -- The loop over the log files after the first.
  unfoldable recover_files :
      ℕ → ℕ → List (ℕ × List ℕ) → Option (State × ℕ × Ending) → Option (State × ℕ × Ending)
  unfolding recover_file
  recover_files reads n files none = none
  recover_files reads n files (some (s, max_lsn, aborted)) = some (s, max_lsn, aborted)
  recover_files reads n [] (some (s, max_lsn, complete)) = some (s, max_lsn, complete)
  recover_files reads n (f ∷ files) (some (s, max_lsn, complete)) =
      recover_files reads n files (recover_file reads n s max_lsn (new_log_reader f.1))

-- The log files from the first one that is needed on: lower_bound, and one back unless that is the
-- first file or the file with this very number.
unfoldable pub from_first_needed : ℕ → List (ℕ × List ℕ) → List (ℕ × List ℕ)
from_first_needed starting_lsn [] = []
from_first_needed starting_lsn (f ∷ []) = f ∷ []
from_first_needed starting_lsn (f ∷ g ∷ files) =
    let later = from_first_needed starting_lsn (g ∷ files) in
    if leb starting_lsn f.0 || ltb starting_lsn g.0 then f ∷ g ∷ files else later

-- What recover() returns, or stldb_exception where needed log files have been removed.
pub data Recovered (State : Type 0) : Type 0 where
  recovered : State → ℕ → Ending → Recovered State
  logs_removed : Recovered State

module _ {State : Type 0} (recover_txn : State → LogHeader → List ℕ → State) where
  abbrev recovered_of : State × ℕ × Ending → Recovered State
  recovered_of (s, max_lsn, e) = recovered s max_lsn e

  -- recover: the log files are in the order of their numbers.
  unfoldable pub recover : ℕ → ℕ → ℕ → List (ℕ × List ℕ) → State → Option (Recovered State)
  unfolding from_first_needed recover_files recover_first seek_transaction
  recover reads n starting_lsn log_files s = elim (from_first_needed starting_lsn log_files) [
    | [] ↦ some (recovered s 0 complete)
    | f ∷ files ↦
        if ltb starting_lsn f.0
        then some logs_removed
        else Option.map recovered_of (
            recover_files recover_txn reads n files (
              from_sought recover_txn reads n starting_lsn s
                (seek_transaction reads n starting_lsn (new_log_reader f.1))))
  ]
