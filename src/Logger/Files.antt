-- ===== src/Logger/Files.antt =====
-- logger.h: the bytes that a gathered write of log() leaves in the log file.
use stldb.Prelude.{
  ℕ, ◌+◌, ◌-◌, ◌%◌, ◌≤◌, ◌<◌, ◌≡◌, refl, sym, ap, ◌∙◌, ◌⊎◌, List, [], ◌∷◌, ◌++◌, arith, ◌≢◌,
  ==_refl, length, length-append, length-replicate, length-take, take-append-le, replicate, take,
  drop,
}
use stldb.Logging.{header_size, header_bytes}
use stldb.Logging.Bytes.{take-append, drop-append}
use stldb.Logger.State.{CommitBuffer, Logger}
use stldb.Logger.Write.{
  file_bytes, set_file, write_at, or_zero, record_bytes, fetch, padding_for, padding_bytes,
  concat_records, popped, written, write_position, put_bytes, gathered, partly_written,
}

-- The padding ends a file at the alignment; it is none, or room for a header, which never needs a
-- second sector.
padding_for-aligned :
    (len : ℕ)
    → ((len + padding_for len) % 512 ≡ 0)
      × ((padding_for len ≡ 0)
          ⊎ ((header_size ≤ padding_for len) × (padding_for len < 512 + header_size)))
unfolding padding_for
padding_for-aligned len = ground arith

length-padding_bytes :
    (padding : ℕ)
    → (padding ≡ 0) ⊎ ((header_size ≤ padding) × (padding < 512 + header_size))
    → length (padding_bytes padding) ≡ padding
unfolding padding_bytes header_bytes
length-padding_bytes padding h =
    ground (arith, length-replicate {A = ℕ} (padding - header_size) 0, h)

pub length-filled :
    (offset : ℕ) (old : List ℕ)
    → length (take offset (old ++ replicate (offset - length old) 0)) ≡ offset
length-filled offset old =
    let zeros : List ℕ = replicate (offset - length old) 0 in
    length-take offset (old ++ zeros)
      (omega (arith, length-append old zeros, length-replicate {A = ℕ} (offset - length old) 0))

-- A write keeps what stands before its offset, and puts its bytes there.
take-write_at :
    (offset : ℕ) (new old : List ℕ)
    → offset ≤ length old
    → take offset (write_at offset new old) ≡ take offset old
unfolding write_at
take-write_at offset new old h =
    let before = take offset (old ++ replicate (offset - length old) 0) in
    take-append before (new ++ drop (offset + length new) old) offset (length-filled offset old)
    ∙ take-append-le offset old (replicate (offset - length old) 0) h

read-write_at :
    (offset : ℕ) (new old : List ℕ)
    → take (length new) (drop offset (write_at offset new old)) ≡ new
unfolding write_at
read-write_at offset new old =
    let before = take offset (old ++ replicate (offset - length old) 0) in
    ap (take (length new))
      (drop-append before (new ++ drop (offset + length new) old) offset (length-filled offset old))
    ∙ take-append new (drop (offset + length new) old) (length new) refl

file_bytes-set_file :
    (n : ℕ) (bytes : List ℕ) (fs : List (ℕ × List ℕ)) → file_bytes n (set_file n bytes fs) ≡ bytes
unfolding file_bytes set_file
file_bytes-set_file n bytes [] = ground (arith, ==_refl n)
file_bytes-set_file n bytes ((m, old) ∷ fs) =
    ground (arith, ==_refl n, file_bytes-set_file n bytes fs)

-- Setting a file leaves each other one.
file_bytes-set_other :
    (n m : ℕ) (bytes : List ℕ) (fs : List (ℕ × List ℕ))
    → n ≢ m
    → file_bytes m (set_file n bytes fs) ≡ file_bytes m fs
unfolding file_bytes set_file
file_bytes-set_other n m bytes [] h = ground (arith, h)
file_bytes-set_other n m bytes ((k, old) ∷ fs) h =
    ground (arith, h, file_bytes-set_other n m bytes fs h)

fetch-length :
    (queue : List CommitBuffer) (n len max_len : ℕ)
    → (fetch queue n len max_len).2 ≡ len + length (concat_records (fetch queue n len max_len).0)
unfolding fetch record_bytes header_bytes
fetch-length [] n len max_len = omega arith
fetch-length (b ∷ queue) n len max_len =
    let rest = fetch queue (n + 1) (len + (header_size + length b.bytes)) max_len in
    ground (
      arith,
      fetch-length queue (n + 1) (len + (header_size + length b.bytes)) max_len,
      length-append (record_bytes b) (concat_records rest.0),
    )

pub length-gathered :
    (queue : List CommitBuffer) (len max_len : ℕ)
    → (let f = fetch queue 0 len max_len in len + length (gathered f) ≡ f.2 + padding_for f.2)
unfolding gathered
length-gathered queue len max_len =
    let f = fetch queue 0 len max_len in
    let (aligned, size) = padding_for-aligned f.2 in
    omega (
      arith,
      length-padding_bytes (padding_for f.2) size,
      length-append (concat_records f.0) (padding_bytes (padding_for f.2)),
      fetch-length queue 0 len max_len,
    )

-- The file position is where the process takes it to be.
abbrev pub InStep : Logger → Type 0
InStep l = l.fd_offset ≡ l.my_fp_offset

write_position-InStep : (l : Logger) → InStep l → write_position l ≡ l.info.log_len
unfolding write_position
write_position-InStep l h = ground (arith, h)

-- The fetch of a round of log().
abbrev pub fetch_of : Logger → List CommitBuffer × List CommitBuffer × ℕ
fetch_of l = fetch l.info.waiting_txns 0 l.info.log_len l.info.log_max_len

pub written-InStep : (l : Logger) → InStep l → InStep (written l (fetch_of l))
unfolding written popped put_bytes write_position
written-InStep l h =
    let same = write_position-InStep l h in
    ap (λ n. n + length (gathered (fetch_of l))) same
    ∙ length-gathered l.info.waiting_txns l.info.log_len l.info.log_max_len

-- The log file after a write.
pub written-text :
    (l : Logger)
    → InStep l
    → (let name = or_zero l.info.log_filename in
        file_bytes name (written l (fetch_of l)).files
        ≡ write_at l.info.log_len (gathered (fetch_of l)) (file_bytes name l.files))
unfolding written popped put_bytes write_position
written-text l h =
    let name = or_zero l.info.log_filename in
    let old = file_bytes name l.files in
    let text = gathered (fetch_of l) in
    file_bytes-set_file name (write_at (write_position l) text old) l.files
    ∙ ap (λ n. write_at n text old) (write_position-InStep l h)

-- What is queued then.
abbrev pub with_queue : List CommitBuffer → Logger → Logger
with_queue queue l = record l { info = record l.info { waiting_txns = queue } }

-- A process that has just written the end of the log does not set its file position. So after a
-- gathered write of its that fails once k bytes are written, the next write, of whatever is queued then,
-- puts its bytes, if it succeeds, that far past the end of the log, while the log is taken to go on from its old end.
pub partly_written-misplaces :
    (k : ℕ) (l : Logger) (queue : List CommitBuffer)
    → InStep l
    → l.my_fp_offset ≡ l.info.log_len
    → (let name = or_zero l.info.log_filename in
        let l1 = with_queue queue (partly_written k l (fetch_of l)) in
        let l2 = written l1 (fetch_of l1) in
        let part = take k (gathered (fetch_of l)) in
        let text = gathered (fetch_of l1) in
        (take (length text) (drop (l.info.log_len + length part) (file_bytes name l2.files)) ≡ text)
        × (l2.info.log_len ≡ l.info.log_len + length text))
unfolding written partly_written popped put_bytes write_position
partly_written-misplaces k l queue s e =
    let name = or_zero l.info.log_filename in
    let l1 = with_queue queue (partly_written k l (fetch_of l)) in
    let text = gathered (fetch_of l1) in
    let part = take k (gathered (fetch_of l)) in
    let old = file_bytes name l1.files in
    let place : write_position l1 ≡ l.info.log_len + length part = ground (arith, s, e) in
    (
      ap (λ t. take (length text) (drop (l.info.log_len + length part) t))
            (file_bytes-set_file name (write_at (write_position l1) text old) l1.files
              ∙ ap (λ n. write_at n text old) place)
          ∙ read-write_at (l.info.log_len + length part) text old,
      omega (arith, length-gathered l1.info.waiting_txns l1.info.log_len l1.info.log_max_len),
    )

-- A gathered write that succeeds, to a file that reaches to the end of the log at least, by a process
-- that knows its file position, puts the records fetched from the queue and their padding at the end
-- of the log, which becomes a multiple of 512 bytes long, leaves the log before its end as it was, and
-- the process still knows its file position.
pub written-file :
    (l : Logger)
    → InStep l
    → l.info.log_len ≤ length (file_bytes (or_zero l.info.log_filename) l.files)
    → (let name = or_zero l.info.log_filename in
        let f = fetch_of l in
        let l' = written l f in
        let new = file_bytes name l'.files in
        (take l.info.log_len new ≡ take l.info.log_len (file_bytes name l.files))
        × (take (l'.info.log_len - l.info.log_len) (drop l.info.log_len new)
            ≡ concat_records f.0 ++ padding_bytes (padding_for f.2))
        × (l'.info.log_len % 512 ≡ 0)
        × (l.info.log_len ≤ l'.info.log_len)
        × InStep l')
unfolding written popped put_bytes gathered
written-file l s h =
    let name = or_zero l.info.log_filename in
    let old = file_bytes name l.files in
    let f = fetch_of l in
    let text = gathered f in
    let same = written-text l s in
    let (aligned, size) = padding_for-aligned f.2 in
    let long = length-gathered l.info.waiting_txns l.info.log_len l.info.log_max_len in
    let total : length text ≡ f.2 + padding_for f.2 - l.info.log_len = omega (arith, long) in
    (
      ap (take l.info.log_len) same ∙ take-write_at l.info.log_len text old h,
      ap (λ t. take (f.2 + padding_for f.2 - l.info.log_len) (drop l.info.log_len t)) same
          ∙ ap (λ n. take n (drop l.info.log_len (write_at l.info.log_len text old))) (sym total)
          ∙ read-write_at l.info.log_len text old,
      aligned,
      omega (arith, long),
      written-InStep l s,
    )
