-- ===== src/LogReader/Tests.antt =====
-- The record of a buffer of three bytes, and the theorem of the reader applied to it.
use stldb.Prelude.{[], ◌∷◌}
use stldb.Logging.{no_header}
use stldb.Logger.State.{CommitBuffer, prepare_header, finalize_header}
use stldb.LogReader.{LogReader}

abbrev queued : CommitBuffer
unfolding finalize_header prepare_header
queued =
    finalize_header 1
      (prepare_header (record { bytes = 97 ∷ 98 ∷ 99 ∷ []; op_count = 1; header = no_header }))

abbrev after_read : LogReader
after_read = record {
  rest = [];
  offset = 27;
  txn_count = 0;
  header = queued.header;
  buffer = 97 ∷ 98 ∷ 99 ∷ [];
  last_txn = 18446744073709551615;
}
