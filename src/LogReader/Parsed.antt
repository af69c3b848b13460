-- ===== src/LogReader/Parsed.antt =====
-- src/log_reader.cpp: what is known of a record that the reader accepts, from any file.
use mathlib.Core.Bool.{true≢false}
use mathlib.Core.List.{append_assoc}
use stldb.Prelude.{
  ℕ, ◌≡◌, Bool-cases, refl, sym, ap, [], take-append-drop, ◌∙◌, ◌⊎◌, inl, inr, Bool, true, false,
  not, ◌&&◌, List, ◌++◌, arith, ◌==◌, ltb, take, drop, length, if◌then◌else◌, if-elim,
}
use stldb.Logging.{LogHeader, header_size, padding, empty, finalize, adler}
use stldb.LogReader.Record.{filled_buffer}
use stldb.LogReader.{
  LogReader, Reading, returned, skipped, failed, log_truncation, header_checksum_failure,
  buffer_checksum_failure, no_transaction, header_of, pass_record, check_segment, filled,
  read_segment, check_header,
}

-- A header and its segment stand in the bytes of the file, and rest follows them. The checksum that
-- the header carries is the one that finalize computes.
pub record IsParsed (file rest : List ℕ) (header : LogHeader) : Type 0 where
  pub before : List ℕ
  pub head : List ℕ
  pub segment : List ℕ
  pub place : file ≡ before ++ (head ++ (segment ++ rest))
  pub head_length : length head ≡ header_size
  pub head_fields : header_of head ≡ header
  pub head_checksum : finalize (header_of head) ≡ header_of head
  pub segment_length : length segment ≡ header.segment_size

-- The segment, if there is one, is in the buffer, and has the checksum that the header gives.
pub record IsWhole (file rest : List ℕ) (header : LogHeader) (buffer : List ℕ) : Type 0 where
  pub parsed : IsParsed file rest header
  pub contents :
      (header.segment_size ≡ 0)
      ⊎ ((buffer ≡ parsed.segment) × (adler parsed.segment ≡ header.segment_checksum))

abbrev pub Sound : List ℕ → LogReader → ℕ → Type 0
Sound file r lsn =
    (lsn ≡ no_transaction) ⊎ ((r.header.lsn ≡ lsn) × IsWhole file r.rest r.header r.buffer)

abbrev pub SoundReading : List ℕ → LogReader × Reading → Type 0
SoundReading file (r, returned lsn) = Sound file r lsn
SoundReading file (r, skipped) = (before : List ℕ) × (file ≡ before ++ r.rest)
SoundReading file (r, failed f) = Unit {0}

-- A segment of padding has no checksum, but is not returned.
pass_record-SoundReading :
    (file : List ℕ) (r : LogReader) (p : IsParsed file r.rest r.header)
    → (padding r.header ≡ true)
      ⊎ ((r.header.segment_size ≡ 0)
          ⊎ ((r.buffer ≡ p.segment) × (adler p.segment ≡ r.header.segment_checksum)))
    → SoundReading file (pass_record r)
unfolding pass_record
pass_record-SoundReading file r p s =
    if-elim (λ t. SoundReading file ((pass_record r).0, t)) (padding r.header) skipped
      (returned r.header.lsn)
      (λ e. (
        p.before ++ (p.head ++ p.segment),
        p.place
            ∙ ap (λ t. p.before ++ t) (sym (append_assoc p.head p.segment r.rest))
            ∙ sym (append_assoc p.before (p.head ++ p.segment) r.rest),
      ))
      (λ e. elim s [ inl q ↦ cc | inr q ↦ inr (refl, record { parsed = p; contents = q }) ])

unguarded : (p : Bool) (a b : ℕ) → p ≡ false → (not p && not (a == b)) ≡ false → a ≡ b
unguarded p a b e g = ground (arith, e, g)

-- The header that was read and passed its check.
record IsHead (file : List ℕ) (r : LogReader) : Type 0 where
  head : List ℕ
  place : file ≡ head ++ r.rest
  head_length : length head ≡ header_size
  head_fields : header_of head ≡ r.header
  head_checksum : finalize (header_of head) ≡ header_of head

-- The header with the segment that follows it.
with_segment :
    (file : List ℕ) (r : LogReader) (segment rest : List ℕ)
    → IsHead file r
    → segment ++ rest ≡ r.rest
    → length segment ≡ r.header.segment_size
    → IsParsed file rest r.header
with_segment file r segment rest h e n = record {
  before = [];
  head = h.head;
  segment = segment;
  place = h.place ∙ ap (λ t. h.head ++ t) (sym e);
  head_length = h.head_length;
  head_fields = h.head_fields;
  head_checksum = h.head_checksum;
  segment_length = n;
}

check_segment-SoundReading :
    (file bytes rest : List ℕ) (r : LogReader)
    → IsHead file r
    → bytes ++ rest ≡ r.rest
    → SoundReading file (check_segment bytes (filled bytes rest r))
unfolding check_segment filled with_segment
check_segment-SoundReading file bytes rest r h place =
    let r' = filled bytes rest r in
    let guard = not (padding r.header) && not (adler bytes == r.header.segment_checksum) in
    if-elim (SoundReading file) (not (length bytes == r.header.segment_size))
      (r', failed log_truncation)
      (if guard then (r', failed buffer_checksum_failure) else pass_record r') (λ e. tt)
      (λ e.
        if-elim (SoundReading file) guard (r', failed buffer_checksum_failure) (pass_record r')
          (λ g. tt)
          (λ g.
            let whole : length bytes ≡ r.header.segment_size = ground (arith, e) in
            pass_record-SoundReading file r' (with_segment file r bytes rest h place whole)
              (elim (Bool-cases (padding r.header)) [
                | inl p ↦ inl p
                | inr p ↦ inr (
                    inr (
                      filled_buffer bytes r.header.segment_size r.buffer whole,
                      unguarded (padding r.header) (adler bytes) r.header.segment_checksum p g,
                    ))
              ])))

read_segment-SoundReading :
    (file : List ℕ) (r : LogReader) → IsHead file r → SoundReading file (read_segment r)
unfolding read_segment
read_segment-SoundReading file r h =
    let size = r.header.segment_size in
    let bytes = take size r.rest in
    if-elim (SoundReading file) (ltb 0 size)
      (check_segment bytes (filled bytes (drop size r.rest) r)) (pass_record r)
      (λ e.
        check_segment-SoundReading file bytes (drop size r.rest) r h (take-append-drop size r.rest))
      (λ e.
        let none_left : size ≡ 0 = ground (arith, e) in
        pass_record-SoundReading file r (with_segment file r [] r.rest h refl (sym none_left))
          (inr (inl none_left)))

-- A header whose checksum is the computed one is as finalize leaves it.
finalize-same : (h : LogHeader) → (finalize h).header_checksum ≡ h.header_checksum → finalize h ≡ h
unfolding finalize
finalize-same h e = ap (λ c. record h { header_checksum = c }) e

-- The header of the file, where it was not short.
pub check_header-SoundReading :
    (file : List ℕ) (short : Bool) (r : LogReader)
    → (short ≡ true)
      ⊎ ((head : List ℕ) × (file ≡ head ++ r.rest)
          × (length head ≡ header_size)
          × (header_of head ≡ r.header))
    → SoundReading file (check_header short r)
unfolding check_header
check_header-SoundReading file short r h =
    let checked = record r { header = finalize r.header } in
    let test = not (checked.header.header_checksum == r.header.header_checksum) in
    let others : LogReader × Reading =
      if test then (checked, failed header_checksum_failure) else read_segment checked in
    if-elim (SoundReading file) (short && not (empty r.header)) (r, failed log_truncation)
      (if empty r.header then (r, returned no_transaction) else others) (λ e. tt)
      (λ e.
        if-elim (SoundReading file) (empty r.header) (r, returned no_transaction) others
          (λ z. inl refl)
          (λ z.
            if-elim (SoundReading file) test (checked, failed header_checksum_failure)
              (read_segment checked) (λ c. tt)
              (λ c. elim h [
                | inl s ↦ absurd (both short (empty r.header) s z e)
                | inr (head, place, size, fields) ↦
                    let same : finalize r.header ≡ r.header =
                      finalize-same r.header (ground (arith, c)) in
                    read_segment-SoundReading file checked (record {
                      head = head;
                      place = place;
                      head_length = size;
                      head_fields = fields ∙ sym same;
                      head_checksum = ap finalize fields ∙ same ∙ sym fields;
                    })
              ])))
  where
    both : (a b : Bool) → a ≡ true → b ≡ false → (a && not b) ≡ false → ⊥
    both a b s z e = true≢false (sym (ap (λ t. t && not b) s ∙ ap not z) ∙ e)
