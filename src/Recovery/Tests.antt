-- ===== src/Recovery/Tests.antt =====
-- A log of two buffers with padding between them, and the theorem of recovery applied to it.
use stldb.Prelude.{ℕ, ◌≡◌, refl, some, List, [], ◌∷◌, ◌++◌, arith}
use stldb.Logging.{LogHeader, no_header}
use stldb.Logger.State.{CommitBuffer, prepare_header, finalize_header}
use stldb.LogReader.{new_log_reader}
use stldb.LogReader.Written.{Item, buffer, pad, log_bytes, AreItems}
use stldb.LogReader.End.{zeros}
use stldb.Recovery.{complete, recover_file}
use stldb.Recovery.Replay.{recover_file-log}

abbrev three_bytes : CommitBuffer
three_bytes = record { bytes = 97 ∷ 98 ∷ 99 ∷ []; op_count = 1; header = no_header }

abbrev one_byte : CommitBuffer
one_byte = record { bytes = 7 ∷ []; op_count = 2; header = no_header }

abbrev two_transactions : List Item
two_transactions =
    buffer (finalize_header 1 (prepare_header three_bytes))
    ∷ pad 30
    ∷ buffer (finalize_header 2 (prepare_header one_byte))
    ∷ []

-- The transactions redone, as the operations and bytes of each.
abbrev keep : List (ℕ × List ℕ) → LogHeader → List ℕ → List (ℕ × List ℕ)
keep s h bytes = s ++ (h.op_count, bytes) ∷ []

two_transactions-AreItems : AreItems two_transactions
two_transactions-AreItems = (
  (three_bytes, 1, refl, omega arith, omega arith, omega arith, omega arith, omega arith),
  (
    (6, refl, omega arith),
    ((one_byte, 2, refl, omega arith, omega arith, omega arith, omega arith, omega arith), tt),
  ),
)

recover_file-log_example :
    recover_file keep 4 4 [] 0 (new_log_reader (log_bytes two_transactions ++ zeros 40))
    ≡ some ((1, 97 ∷ 98 ∷ 99 ∷ []) ∷ (2, 7 ∷ []) ∷ [], 2, complete)
unfolding finalize_header prepare_header
recover_file-log_example =
    recover_file-log keep two_transactions 4 4 40 [] 0 two_transactions-AreItems (omega arith)
      (omega arith)

-- Log files with the numbers 0, 4 and 9, of which recovery from 6 reads the last two.
abbrev three_files : List (ℕ × List ℕ)
three_files = (0, []) ∷ (4, []) ∷ (9, []) ∷ []
