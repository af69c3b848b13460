-- ===== src/LogReader/Written.antt =====
-- src/log_reader.cpp: reading the records that log() wrote, its padding, and the end of the log.
use stldb.Prelude.{
  ℕ, zero, suc, ◌+◌, ◌-◌, ◌≡◌, ◌<◌, refl, sym, subst, ap, ◌∙◌, inl, inr, false, List, [], ◌∷◌, ◌++◌,
  arith, ◌==◌, length, length-replicate, replicate, if◌then◌else◌,
}
use mathlib.Core.List.{append_assoc}
use stldb.Logging.{
  LogHeader, header_size, header_bytes, no_header, padding, empty, finalize, adler, u32_mod,
}
use stldb.Logging.Bytes.{le_bytes}
use stldb.Logger.State.{CommitBuffer, prepare_header, finalize_header}
use stldb.Logger.Write.{record_bytes, padding_bytes}
use stldb.LogReader.{
  LogReader, returned, skipped, no_transaction, pass_record, read_segment, read_record,
}
use stldb.LogReader.Record.{Fits, read_record-whole, read_record-header}

-- What a log file holds up to its end: the records of committed buffers, and padding.
pub data Item : Type 0 where
  buffer : CommitBuffer → Item
  pad : ℕ → Item

abbrev item_bytes : Item → List ℕ
item_bytes (buffer b) = record_bytes b
item_bytes (pad p) = padding_bytes p

abbrev pub log_bytes : List Item → List ℕ
log_bytes [] = []
log_bytes (i ∷ items) = item_bytes i ++ log_bytes items

-- A buffer that queue_for_commit took, with the LSN that it got, or a padding that fits a header.
abbrev IsItem : Item → Type 0
IsItem (buffer b) =
    (b0 : CommitBuffer) × (lsn : ℕ) × (b ≡ finalize_header lsn (prepare_header b0))
    × (0 < length b0.bytes)
    × (length b0.bytes < u32_mod)
    × (0 < b0.op_count)
    × (b0.op_count < u32_mod)
    × (lsn < no_transaction)
IsItem (pad p) = (size : ℕ) × (p ≡ header_size + size) × (size < u32_mod)

abbrev pub AreItems : List Item → Type 0
AreItems [] = Unit {0}
AreItems (i ∷ items) = IsItem i × AreItems items

adler-bound : (bytes : List ℕ) → adler bytes < u32_mod
unfolding adler
adler-bound bytes = omega arith

unfoldable pub after_record : LogReader → LogHeader → List ℕ → List ℕ → LogReader
after_record r h bytes more = record r {
  rest = more;
  header = h;
  buffer = bytes;
  offset = r.offset + (header_size + h.segment_size);
}

padding-counted : (h : LogHeader) → 0 < h.op_count → padding h ≡ false
unfolding padding
padding-counted h p = ground (arith, p)

-- The record of a buffer is read back, and returned.
read_record-finalized :
    (r : LogReader) (b : CommitBuffer) (lsn : ℕ) (more : List ℕ)
    → 0 < length b.bytes
    → length b.bytes < u32_mod
    → 0 < b.op_count
    → b.op_count < u32_mod
    → lsn < no_transaction
    → (let q = finalize_header lsn (prepare_header b) in
        read_record (record r { rest = record_bytes q ++ more })
        ≡ (after_record r q.header q.bytes more, returned lsn))
unfolding record_bytes finalize_header prepare_header header_bytes le_bytes pass_record finalize
    after_record
read_record-finalized r b lsn more p s o u l =
    let q = finalize_header lsn (prepare_header b) in
    let fits : Fits q.header = record {
      op_count = omega arith;
      segment_size = omega arith;
      lsn = omega arith;
      segment_checksum = adler-bound b.bytes;
      header_checksum = adler-bound (header_bytes (record q.header { header_checksum = 0 }));
    } in
    read_record-whole r q.header b.bytes more fits refl (omega arith) p (inr refl)
    ∙ ap (λ t. (after_record r q.header q.bytes more, if t then skipped else returned lsn))
        (padding-counted q.header (omega arith))

pad_header : ℕ → LogHeader
pad_header size = finalize (record no_header { segment_size = size })

pad_header-Fits : (size : ℕ) → size < u32_mod → Fits (pad_header size)
unfolding pad_header finalize
pad_header-Fits size u = record {
  op_count = omega arith;
  segment_size = u;
  lsn = omega arith;
  segment_checksum = omega arith;
  header_checksum = adler-bound (header_bytes (record no_header { segment_size = size }));
}

padding_bytes-eq :
    (size : ℕ)
    → padding_bytes (header_size + size) ≡ header_bytes (pad_header size) ++ replicate size 0
unfolding padding_bytes pad_header
padding_bytes-eq size =
    let record_of = λ (n : ℕ). header_bytes (pad_header n) ++ replicate {A = ℕ} n 0 in
    let positive : (header_size + size == 0) ≡ false = ground arith in
    ap (λ c. if c then [] else record_of (header_size + size - header_size)) positive
    ∙ ap record_of (omega arith)

read_record-pad_header :
    (r : LogReader) (size : ℕ) (more : List ℕ)
    → size < u32_mod
    → (bytes : List ℕ) × (read_record
          (record r { rest = header_bytes (pad_header size) ++ (replicate size 0 ++ more) })
        ≡ (after_record r (pad_header size) bytes more, skipped))
unfolding pad_header finalize padding pass_record after_record empty adler header_bytes read_segment
read_record-pad_header r zero more u =
    (r.buffer, read_record-header r (pad_header 0) more (pad_header-Fits 0 u) refl refl ∙ refl)
read_record-pad_header r (suc n) more u = (
  replicate (suc n) 0,
  read_record-whole r (pad_header (suc n)) (replicate (suc n) 0) more (pad_header-Fits (suc n) u)
      refl (length-replicate {A = ℕ} (suc n) 0) (omega arith) (inl refl),
)

-- Padding is passed over.
read_record-pad :
    (r : LogReader) (size : ℕ) (more : List ℕ)
    → size < u32_mod
    → (h : LogHeader) × (bytes : List ℕ) × (read_record
          (record r { rest = padding_bytes (header_size + size) ++ more })
        ≡ (after_record r h bytes more, skipped))
read_record-pad r size more u =
    let (bytes, e) = read_record-pad_header r size more u in
    (
      pad_header size,
      bytes,
      ap (λ t. read_record (record r { rest = t }))
            (ap (λ t. t ++ more) (padding_bytes-eq size)
              ∙ append_assoc (header_bytes (pad_header size)) (replicate size 0) more)
          ∙ e,
    )

-- The same of the items of a log.
pub read_record-pad_item :
    (r : LogReader) (p : ℕ) (more : List ℕ)
    → IsItem (pad p)
    → (h : LogHeader) × (bytes : List ℕ) × (read_record
          (record r { rest = padding_bytes p ++ more })
        ≡ (after_record r h bytes more, skipped))
read_record-pad_item r p more (size, e, u) =
    subst
      (λ q.
        (h : LogHeader) × (bytes : List ℕ) × (read_record
            (record r { rest = padding_bytes q ++ more })
          ≡ (after_record r h bytes more, skipped)))
      (sym e) (read_record-pad r size more u)

pub read_record-buffer_item :
    (r : LogReader) (b : CommitBuffer) (more : List ℕ)
    → IsItem (buffer b)
    → (read_record (record r { rest = record_bytes b ++ more })
        ≡ (after_record r b.header b.bytes more, returned b.header.lsn))
      × (b.header.lsn < no_transaction)
unfolding finalize_header finalize
read_record-buffer_item r b more (b0, lsn, e, p, s, o, u, l) =
    subst
      (λ q.
        (read_record (record r { rest = record_bytes q ++ more })
          ≡ (after_record r q.header q.bytes more, returned q.header.lsn))
        × (q.header.lsn < no_transaction))
      (sym e) (read_record-finalized r b0 lsn more p s o u l, l)
