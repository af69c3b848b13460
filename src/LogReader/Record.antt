-- ===== src/LogReader/Record.antt =====
-- src/log_reader.cpp: what is read of one record that was written whole.
use stldb.Prelude.{
  ℕ, ◌-◌, ◌^◌, ◌≡◌, ◌<◌, ==_refl, eq→==, lt→ltb, length-append, length-replicate, length-take-min,
  drop-all, append-[], ◌⊎◌, inl, inr, refl, ap, ◌∙◌, Bool, true, false, not, ◌&&◌, List, [], ◌++◌,
  arith, ◌==◌, take, drop, length, replicate, if◌then◌else◌,
}
use stldb.Logging.{LogHeader, header_size, header_bytes, padding, empty, finalize, adler}
use stldb.Logging.Bytes.{le_bytes, le_value-le_bytes, take-append, drop-append}
use stldb.LogReader.{
  LogReader, Reading, returned, failed, header_checksum_failure, buffer_checksum_failure,
  log_truncation, no_transaction, resize, header_of, pass_record, read_segment, check_segment,
  filled, check_header, read_record,
}

-- The fields of a header fit in it.
pub record Fits (h : LogHeader) : Type 0 where
  pub op_count : h.op_count < 256 ^ 4
  pub segment_size : h.segment_size < 256 ^ 4
  pub lsn : h.lsn < 256 ^ 8
  pub segment_checksum : h.segment_checksum < 256 ^ 4
  pub header_checksum : h.header_checksum < 256 ^ 4

check_header-whole :
    (r : LogReader)
    → empty r.header ≡ false
    → finalize r.header ≡ r.header
    → check_header false r ≡ read_segment r
unfolding check_header
check_header-whole r e c =
    let checked = record r { header = finalize r.header } in
    let test = checked.header.header_checksum == r.header.header_checksum in
    let equal : test ≡ true =
      ap (λ h. h.header_checksum == r.header.header_checksum) c
      ∙ ==_refl r.header.header_checksum in
    let guarded : Bool → LogReader × Reading =
      λ t. if not t then (checked, failed header_checksum_failure) else read_segment checked in
    ap (λ t. if t then (r, returned no_transaction) else guarded test) e
    ∙ ap guarded equal
    ∙ ap (λ h. read_segment (record r { header = h })) c

header_of-header_bytes :
    (h : LogHeader) (bytes : List ℕ)
    → Fits h
    → header_of (take header_size (header_bytes h ++ bytes)) ≡ h
unfolding header_of header_bytes le_bytes
header_of-header_bytes h bytes f = λ i. record {
  op_count = le_value-le_bytes 4 h.op_count f.op_count i;
  segment_size = le_value-le_bytes 4 h.segment_size f.segment_size i;
  lsn = le_value-le_bytes 8 h.lsn f.lsn i;
  segment_checksum = le_value-le_bytes 4 h.segment_checksum f.segment_checksum i;
  header_checksum = le_value-le_bytes 4 h.header_checksum f.header_checksum i;
}

-- A header that was written whole passes its checks.
pub read_record-header :
    (r : LogReader) (h : LogHeader) (bytes : List ℕ)
    → Fits h
    → empty h ≡ false
    → finalize h ≡ h
    → read_record (record r { rest = header_bytes h ++ bytes })
      ≡ read_segment (record r { rest = bytes; header = h })
unfolding read_record header_bytes le_bytes
read_record-header r h bytes f e c =
    ap (λ z. check_header false (record r { rest = bytes; header = z }))
      (header_of-header_bytes h bytes f)
    ∙ check_header-whole (record r { rest = bytes; header = h }) e c

drop-resize : (n : ℕ) (bytes : List ℕ) → drop n (resize n bytes) ≡ []
drop-resize n bytes = drop-all n (resize n bytes) (
    omega (
      arith,
      length-append (take n bytes) (replicate {A = ℕ} (n - length bytes) 0),
      length-replicate {A = ℕ} (n - length bytes) 0,
      length-take-min n bytes,
    ))

pub filled_buffer :
    (bytes : List ℕ) (size : ℕ) (buffer : List ℕ)
    → length bytes ≡ size
    → bytes ++ drop (length bytes) (resize size buffer) ≡ bytes
filled_buffer bytes size buffer l =
    ap (λ n. bytes ++ drop n (resize size buffer)) l
    ∙ ap (λ t. bytes ++ t) (drop-resize size buffer)
    ∙ append-[] bytes

guard-false : (p : Bool) (a b : ℕ) → (p ≡ true) ⊎ (a ≡ b) → (not p && not (a == b)) ≡ false
guard-false p a b (inl e) = ap (λ t. not t && not (a == b)) e
guard-false true a b (inr e) = refl
guard-false false a b (inr e) = ap not (eq→== a b e)

check_segment-whole :
    (bytes : List ℕ) (r : LogReader)
    → length bytes ≡ r.header.segment_size
    → (padding r.header ≡ true) ⊎ (adler bytes ≡ r.header.segment_checksum)
    → check_segment bytes r ≡ pass_record r
unfolding check_segment
check_segment-whole bytes r l c =
    let guard = not (padding r.header) && not (adler bytes == r.header.segment_checksum) in
    let checked : LogReader × Reading =
      if guard then (r, failed buffer_checksum_failure) else pass_record r in
    ap (λ t. if not t then (r, failed log_truncation) else checked)
      (eq→== (length bytes) r.header.segment_size l)
    ∙ ap (λ t. if t then (r, failed buffer_checksum_failure) else pass_record r)
        (guard-false (padding r.header) (adler bytes) r.header.segment_checksum c)

-- A segment that was written whole is read into the buffer.
read_segment-whole :
    (r : LogReader) (bytes more : List ℕ)
    → length bytes ≡ r.header.segment_size
    → 0 < length bytes
    → (padding r.header ≡ true) ⊎ (adler bytes ≡ r.header.segment_checksum)
    → read_segment (record r { rest = bytes ++ more })
      ≡ pass_record (record r { rest = more; buffer = bytes })
unfolding read_segment filled
read_segment-whole r bytes more l p c =
    let size = r.header.segment_size in
    let from = record r { rest = bytes ++ more } in
    ap
      (λ t.
        if t
        then check_segment (take size (bytes ++ more))
            (filled (take size (bytes ++ more)) (drop size (bytes ++ more)) from)
        else pass_record from)
      (lt→ltb 0 size (omega arith))
    ∙ ap (λ t. check_segment t (filled t (drop size (bytes ++ more)) from))
        (take-append bytes more size l)
    ∙ ap (λ t. check_segment bytes (filled bytes t from)) (drop-append bytes more size l)
    ∙ check_segment-whole bytes (filled bytes more from) l c
    ∙ ap (λ t. pass_record (record r { rest = more; buffer = t }))
        (filled_buffer bytes size r.buffer l)

empty-sized : (h : LogHeader) → 0 < h.segment_size → empty h ≡ false
unfolding empty
empty-sized h p = ground (arith, p)

-- Every record that a header and its segment make up is read back, and passed.
pub read_record-whole :
    (r : LogReader) (h : LogHeader) (bytes more : List ℕ)
    → Fits h
    → finalize h ≡ h
    → length bytes ≡ h.segment_size
    → 0 < length bytes
    → (padding h ≡ true) ⊎ (adler bytes ≡ h.segment_checksum)
    → read_record (record r { rest = header_bytes h ++ (bytes ++ more) })
      ≡ pass_record (record r { rest = more; header = h; buffer = bytes })
read_record-whole r h bytes more f e l p c =
    read_record-header r h (bytes ++ more) f (empty-sized h (omega arith)) e
    ∙ read_segment-whole (record r { header = h }) bytes more l p c
