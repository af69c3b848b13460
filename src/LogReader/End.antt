-- ===== src/LogReader/End.antt =====
-- src/log_reader.cpp: what is read at the end of a log.
use stldb.Prelude.{
  ℕ, zero, suc, ◌-◌, ◌≡◌, refl, ap, ◌∙◌, Bool, true, false, not, ◌&&◌, List, ◌∷◌, ◌++◌, arith, ◌==◌,
  ltb, length, replicate, take, drop, if◌then◌else◌,
}
use stldb.Logging.{LogHeader, header_size, empty, finalize}
use stldb.Logging.Bytes.{le_value}
use stldb.LogReader.{
  LogReader, Reading, returned, failed, log_truncation, header_checksum_failure, no_transaction,
  header_of, check_header, read_segment, read_record,
}

abbrev pub zeros : ℕ → List ℕ
zeros n = replicate n 0

zeros-filled : (n z : ℕ) → take n (zeros z) ++ zeros (n - length (take n (zeros z))) ≡ zeros n
zeros-filled zero z = refl
zeros-filled (suc n) zero = let e : suc n - 0 ≡ suc n = omega arith in ap zeros e
zeros-filled (suc n) (suc z) =
    ap (λ r. 0 ∷ r) (ap (λ k. take n (zeros z) ++ zeros k) (omega arith) ∙ zeros-filled n z)

and_false : (c : Bool) → (c && false) ≡ false
and_false true = refl
and_false false = refl

zeros-empty : empty (header_of (zeros header_size)) ≡ true
unfolding empty header_of le_value
zeros-empty = refl

check_header-empty :
    (short : Bool) (r : LogReader)
    → empty r.header ≡ true
    → check_header short r ≡ (r, returned no_transaction)
unfolding check_header
check_header-empty short r e =
    let checked = record r { header = finalize r.header } in
    let others : LogReader × Reading =
      if not (checked.header.header_checksum == r.header.header_checksum)
      then (checked, failed header_checksum_failure)
      else read_segment checked in
    let guarded : Bool → Bool → LogReader × Reading = λ c t.
      if c
      then (r, failed log_truncation)
      else if t
      then (r, returned no_transaction)
      else others in
    ap (λ t. guarded (short && not t) t) e ∙ ap (λ c. guarded c true) (and_false short)

-- Zeros, or nothing, are the end of the log.
pub read_record-zeros :
    (r : LogReader) (z : ℕ)
    → (r' : LogReader) × (read_record (record r { rest = zeros z }) ≡ (r', returned no_transaction))
unfolding read_record
read_record-zeros r z =
    let bytes = take header_size (zeros z) in
    let after = λ (h : LogHeader). record r { rest = drop header_size (zeros z); header = h } in
    let short = ltb (length bytes) header_size in
    let blank : header_of (bytes ++ zeros (header_size - length bytes))
        ≡ header_of (zeros header_size) =
      ap header_of (zeros-filled header_size z) in
    (
      after (header_of (zeros header_size)),
      ap (λ h. check_header short (after h)) blank
          ∙ check_header-empty short (after (header_of (zeros header_size))) zeros-empty,
    )
