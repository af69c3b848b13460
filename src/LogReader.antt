-- ===== src/LogReader.antt =====
-- src/log_reader.cpp and stldb/log_reader.h: reading the transactions of a log file back. The file
-- is opened and stays open; `rest` is what it holds after the place that the next read starts from.
pub mod Record
pub mod Written
pub mod End
pub mod Parsed
pub mod Checked
mod Tests
use mathlib.Core.Option
use stldb.Prelude.{
  ℕ, zero, suc, ◌+◌, ◌-◌, ◌^◌, Bool, true, false, not, ◌&&◌, Option, none, some, List, [], ◌∷◌,
  ◌++◌, ◌==◌, ltb, take, drop, length, replicate, if◌then◌else◌,
}
use stldb.Logging.{LogHeader, header_size, no_header, padding, empty, finalize, adler}
use stldb.Logging.Bytes.{le_value}

-- no_transaction, transaction_id_t(-1)
abbrev pub no_transaction : ℕ
no_transaction = 2 ^ 64 - 1

pub record LogReader : Type 0 where
  pub rest : List ℕ
  pub offset : ℕ
  pub txn_count : ℕ
  pub header : LogHeader
  pub buffer : List ℕ
  pub last_txn : ℕ

-- log_reader()
abbrev pub new_log_reader : List ℕ → LogReader
new_log_reader file = record {
  rest = file;
  offset = 0;
  txn_count = 0;
  header = no_header;
  buffer = [];
  last_txn = no_transaction;
}

-- The causes of recover_from_log_failed, and what reading one record comes to: the transaction
-- that is returned, a padding record, after which read_next_txn calls itself, or an exception.
pub data Failure : Type 0 where
  log_truncation : Failure
  header_checksum_failure : Failure
  buffer_checksum_failure : Failure

pub data Reading : Type 0 where
  returned : ℕ → Reading
  skipped : Reading
  failed : Failure → Reading

-- The header that 24 bytes in memory are.
unfoldable pub header_of : List ℕ → LogHeader
unfolding le_value
header_of bytes = record {
  op_count = le_value (take 4 bytes);
  segment_size = le_value (take 4 (drop 4 bytes));
  lsn = le_value (take 8 (drop 8 bytes));
  segment_checksum = le_value (take 4 (drop 16 bytes));
  header_checksum = le_value (take 4 (drop 20 bytes));
}

abbrev pub resize : ℕ → List ℕ → List ℕ
resize n bytes = take n bytes ++ replicate (n - length bytes) 0

-- The end of read_next_txn: on to the next record.
unfoldable pub pass_record : LogReader → LogReader × Reading
unfolding padding
pass_record r = (
  record r { offset = r.offset + (header_size + r.header.segment_size) },
  if padding r.header then skipped else returned r.header.lsn,
)

-- The checks of the segment, of which these bytes were read.
unfoldable pub check_segment : List ℕ → LogReader → LogReader × Reading
unfolding pass_record padding adler
check_segment bytes r =
    if not (length bytes == r.header.segment_size)
    then (r, failed log_truncation)
    else if not (padding r.header) && not (adler bytes == r.header.segment_checksum)
    then (r, failed buffer_checksum_failure)
    else pass_record r

-- The bytes of a read fill the front of the buffer.
unfoldable pub filled : List ℕ → List ℕ → LogReader → LogReader
filled bytes rest r =
    let size = r.header.segment_size in
    record r { rest = rest; buffer = bytes ++ drop (length bytes) (resize size r.buffer) }

-- The reading of the segment.
unfoldable pub read_segment : LogReader → LogReader × Reading
unfolding pass_record check_segment filled
read_segment r =
    let size = r.header.segment_size in
    let bytes = take size r.rest in
    if ltb 0 size then check_segment bytes (filled bytes (drop size r.rest) r) else pass_record r

-- The checks of the header that was read; `short` if there were too few bytes for it.
unfoldable pub check_header : Bool → LogReader → LogReader × Reading
unfolding read_segment finalize empty
check_header short r =
    let checked = record r { header = finalize r.header } in
    if short && not (empty r.header)
    then (r, failed log_truncation)
    else if empty r.header
    then (r, returned no_transaction)
    else if not (checked.header.header_checksum == r.header.header_checksum)
    then (checked, failed header_checksum_failure)
    else read_segment checked

-- read_next_txn up to its call of itself. The header is zero where a short read does not fill it.
unfoldable pub read_record : LogReader → LogReader × Reading
unfolding header_of check_header
read_record r =
    let bytes = take header_size r.rest in
    check_header (ltb (length bytes) header_size) (record r {
      rest = drop header_size r.rest;
      header = header_of (bytes ++ replicate (header_size - length bytes) 0);
    })

-- What read_next_txn returns or throws.
pub data Next : Type 0 where
  transaction : ℕ → Next
  recover_from_log_failed : Failure → Next

abbrev pub unless_skipped :
    (LogReader → Option (LogReader × Next)) → LogReader × Reading → Option (LogReader × Next)
unless_skipped again (r, returned lsn) = some (r, transaction lsn)
unless_skipped again (r, skipped) = again r
unless_skipped again (r, failed f) = some (r, recover_from_log_failed f)

-- read_next_txn, on fuel for the records that it reads.
unfoldable pub read_next_txn : ℕ → LogReader → Option (LogReader × Next)
unfolding read_record
read_next_txn zero r = none
read_next_txn (suc fuel) r = unless_skipped (read_next_txn fuel) (read_record r)

abbrev pub count_txn : LogReader × Next → LogReader × Next
count_txn (r, transaction lsn) = (
  if lsn == no_transaction then r else record r { last_txn = lsn; txn_count = r.txn_count + 1 },
  transaction lsn,
)
count_txn (r, recover_from_log_failed f) = (r, recover_from_log_failed f)

-- next_transaction
unfoldable pub next_transaction : ℕ → LogReader → Option (LogReader × Next)
unfolding read_next_txn
next_transaction fuel r = Option.map count_txn (read_next_txn fuel r)

-- The loop of seek_transaction: `rest` is what it does from the next transaction on.
abbrev seek_next :
    (LogReader → Option (LogReader × Next))
    → ℕ
    → Option (LogReader × Next)
    → Option (LogReader × Next)
seek_next rest starting_lsn none = none
seek_next rest starting_lsn (some (r, recover_from_log_failed f)) =
    some (r, recover_from_log_failed f)
seek_next rest starting_lsn (some (r, transaction lsn)) =
    if ltb lsn starting_lsn && not (lsn == no_transaction)
    then rest (record r { last_txn = lsn })
    else if lsn == no_transaction
    then some (r, transaction r.last_txn)
    else some (record r { last_txn = lsn; txn_count = r.txn_count + 1 }, transaction lsn)

-- seek_transaction, where `reads` is the fuel of each read and the second number that of the loop.
unfoldable pub seek_transaction : ℕ → ℕ → ℕ → LogReader → Option (LogReader × Next)
unfolding read_next_txn
seek_transaction reads zero starting_lsn r = none
seek_transaction reads (suc n) starting_lsn r =
    seek_next (seek_transaction reads n starting_lsn) starting_lsn (read_next_txn reads r)
