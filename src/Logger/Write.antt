-- ===== src/Logger/Write.antt =====
-- stldb/logger.h: opening a log file, and the gathered write of the buffers fetched from the queue.
use stldb.Prelude.{
  ℕ, ◌+◌, ◌-◌, ◌%◌, Bool, true, false, not, ◌&&◌, ◌||◌, Option, none, some, List, [], ◌∷◌, ◌++◌,
  ◌==◌, ltb, leb, take, drop, length, replicate, if◌then◌else◌,
}
use stldb.Logging.{no_header, header_size, header_bytes, finalize}
use stldb.Logger.State.{
  CommitBuffer, SharedLogInfo, Logger, Outcome, Gathered, all_written, failed_after,
  max_txn_per_write, optimum_write_alignment, done, io_failure,
}

-- The bytes of a file, and a write at an offset: a gap reads as zeros.
unfoldable pub file_bytes : ℕ → List (ℕ × List ℕ) → List ℕ
file_bytes n [] = []
file_bytes n ((m, bytes) ∷ fs) = if m == n then bytes else file_bytes n fs

unfoldable pub set_file : ℕ → List ℕ → List (ℕ × List ℕ) → List (ℕ × List ℕ)
set_file n bytes [] = (n, bytes) ∷ []
set_file n bytes ((m, old) ∷ fs) =
    if m == n then (n, bytes) ∷ fs else (m, old) ∷ set_file n bytes fs

unfoldable pub write_at : ℕ → List ℕ → List ℕ → List ℕ
write_at offset new old =
    take offset (old ++ replicate (offset - length old) 0)
    ++ (new ++ drop (offset + length new) old)

-- advance_logfile
unfoldable pub advance_logfile : SharedLogInfo → SharedLogInfo
advance_logfile info = record info { log_filename = some info.last_write_txn_id; log_len = 0 }

abbrev is_none : Option ℕ → Bool
is_none none = true
is_none (some n) = false

abbrev same_name : Option ℕ → Option ℕ → Bool
same_name none none = true
same_name none (some m) = false
same_name (some n) none = false
same_name (some n) (some m) = n == m

abbrev pub or_zero : Option ℕ → ℕ
or_zero none = 0
or_zero (some n) = n

-- Opening the log file creates it, and one byte is written at log_max_len.
unfoldable pub open_logfile : Logger → Logger
unfolding file_bytes set_file write_at
open_logfile l =
    let name = or_zero l.info.log_filename in
    let bytes = write_at l.info.log_max_len (0 ∷ []) (file_bytes name l.files) in
    record l {
      files = set_file name bytes l.files;
      my_fp_offset = l.info.log_max_len + 1;
      fd_offset = l.info.log_max_len + 1;
      my_log_filename = l.info.log_filename;
    }

-- ensure_open_logfile
unfoldable pub ensure_open_logfile : Logger → Logger
unfolding advance_logfile open_logfile
ensure_open_logfile l =
    let stale = is_none l.info.log_filename || leb l.info.log_max_len l.info.log_len in
    let l' = if stale then record l { info = advance_logfile l.info } else l in
    if stale || not (same_name l.info.log_filename l.my_log_filename) then open_logfile l' else l

-- The bytes of one record: its header and its segment.
unfoldable pub record_bytes : CommitBuffer → List ℕ
record_bytes b = header_bytes b.header ++ b.bytes

-- The loop that fetches commit buffers: those taken, those left, and the file length after them.
unfoldable pub fetch : List CommitBuffer → ℕ → ℕ → ℕ → List CommitBuffer × List CommitBuffer × ℕ
fetch [] txn_count new_len max_len = ([], [], new_len)
fetch (b ∷ queue) txn_count new_len max_len =
    let rest = fetch queue (txn_count + 1) (new_len + (header_size + length b.bytes)) max_len in
    if ltb txn_count max_txn_per_write && ltb new_len max_len
    then (b ∷ rest.0, rest.1, rest.2)
    else ([], b ∷ queue, new_len)

-- The number of bytes that pad a file of this length.
unfoldable pub padding_for : ℕ → ℕ
padding_for len =
    let rest = len % optimum_write_alignment in
    let padding = if rest == 0 then 0 else optimum_write_alignment - rest in
    if not (padding == 0) && ltb padding header_size
    then padding + optimum_write_alignment
    else padding

-- padding_header and padding_buffer.
unfoldable pub padding_bytes : ℕ → List ℕ
unfolding finalize
padding_bytes padding =
    if padding == 0
    then []
    else header_bytes (finalize (record no_header { segment_size = padding - header_size }))
      ++ replicate (padding - header_size) 0

abbrev pub concat_records : List CommitBuffer → List ℕ
concat_records [] = []
concat_records (b ∷ bs) = record_bytes b ++ concat_records bs

abbrev pub last_lsn : ℕ → List CommitBuffer → ℕ
last_lsn lsn [] = lsn
last_lsn lsn (b ∷ bs) = last_lsn b.header.lsn bs

-- What the next gathered write of the disk does.
abbrev pub next_write : List Gathered → Gathered
next_write [] = all_written
next_write (b ∷ bs) = b

abbrev pub later_writes : List Gathered → List Gathered
later_writes [] = []
later_writes (b ∷ bs) = bs

-- What log() counts while it writes.
pub record Counts : Type 0 where
  pub writes : ℕ
  pub txn_written : ℕ
  pub bytes : ℕ
  pub syncs : ℕ

-- The state when the fetched buffers are off the queue and the gathered write has been asked for.
unfoldable pub popped : Logger → List CommitBuffer → Logger
popped l left = record l {
  info = record l.info { waiting_txns = left };
  disk = later_writes l.disk;
}

-- Where the write goes: the file position is set unless the process takes it to be there.
unfoldable pub write_position : Logger → ℕ
write_position l = if l.my_fp_offset == l.info.log_len then l.fd_offset else l.info.log_len

-- The bytes that reach the log file.
unfoldable pub put_bytes : List ℕ → Logger → Logger
unfolding write_position write_at set_file file_bytes
put_bytes new l =
    let name = or_zero l.info.log_filename in
    record l {
      files = set_file name (write_at (write_position l) new (file_bytes name l.files)) l.files;
      fd_offset = write_position l + length new;
    }

-- The buffers fetched and their padding, as gathered for the write.
unfoldable pub gathered : List CommitBuffer × List CommitBuffer × ℕ → List ℕ
unfolding padding_for padding_bytes record_bytes
gathered (taken, left, len) = concat_records taken ++ padding_bytes (padding_for len)

-- The state after a write that succeeds.
unfoldable pub written : Logger → List CommitBuffer × List CommitBuffer × ℕ → Logger
unfolding popped padding_for put_bytes gathered
written l (taken, left, len) =
    let base = put_bytes (gathered (taken, left, len)) (popped l left) in
    record base {
      my_fp_offset = len + padding_for len;
      info = record base.info {
        last_write_txn_id = last_lsn l.info.last_write_txn_id taken;
        log_len = len + padding_for len;
      };
    }

-- The state after a write that fails once n bytes are written.
unfoldable pub partly_written : ℕ → Logger → List CommitBuffer × List CommitBuffer × ℕ → Logger
unfolding popped put_bytes gathered
partly_written n l (taken, left, len) =
    put_bytes (take n (gathered (taken, left, len))) (popped l left)

unfoldable pub count_round :
    Logger → Counts → List CommitBuffer × List CommitBuffer × ℕ → ℕ → Counts
unfolding padding_for
count_round l n (taken, left, len) writes = record n {
  writes = writes;
  txn_written = n.txn_written + length taken;
  bytes = n.bytes + (len - l.info.log_len) + padding_for len;
}

-- The write of the fetched buffers; a failed write throws and leaves them off the queue.
unfoldable pub write_fetched :
    Logger → Counts → List CommitBuffer × List CommitBuffer × ℕ → Logger × Counts × Outcome
unfolding written partly_written count_round
write_fetched l n f = elim (next_write l.disk) [
  | all_written ↦ (written l f, count_round l n f (n.writes + 1), done)
  | failed_after k ↦ (partly_written k l f, count_round l n f n.writes, io_failure)
]
