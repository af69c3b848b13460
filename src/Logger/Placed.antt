-- ===== src/Logger/Placed.antt =====
-- stldb/logger.h: the place of a commit buffer in the log file.
use mathlib.Core.List.{append_assoc}
use stldb.Prelude.{
  ℕ, ◌+◌, ◌-◌, ◌≤◌, ◌≡◌, refl, sym, ap, ◌∙◌, ◌⊎◌, inl, inr, List, [], ◌∷◌, ◌++◌, arith, length,
  length-append, replicate, take, drop,
}
use stldb.Logger.State.{CommitBuffer, Logger}
use stldb.Logger.Write.{
  file_bytes, write_at, or_zero, record_bytes, padding_for, padding_bytes, concat_records, written,
  gathered,
}
use stldb.Logger.Files.{InStep, fetch_of, written-text, length-filled, length-gathered}

-- The log file holds the header and the bytes of the buffer, before the end of the log.
pub record InLog (b : CommitBuffer) (l : Logger) : Type 0 where
  pub before : List ℕ
  pub after : List ℕ
  pub text : file_bytes (or_zero l.info.log_filename) l.files ≡ before ++ (record_bytes b ++ after)
  pub within : length before + length (record_bytes b) ≤ l.info.log_len

-- Where an entry of a list is, when the list is taken apart.
pub append-split :
    {A : Type 0} (taken left xs ys : List A) (b : A)
    → taken ++ left ≡ xs ++ b ∷ ys
    → ((zs : List A) × (taken ≡ xs ++ b ∷ zs)) ⊎ ((zs : List A) × (left ≡ zs ++ b ∷ ys))
append-split [] left xs ys b e = inr (xs, e)
append-split (t ∷ taken) left [] ys b e = inl (taken, cc)
append-split {A} (t ∷ taken) left (x ∷ xs) ys b e =
    let first : t ≡ x = cc in
    elim (append-split taken left xs ys b cc) [ inl (zs, k) ↦ inl (zs, cc) | inr k ↦ inr k ]

concat_records-append :
    (xs ys : List CommitBuffer) → concat_records (xs ++ ys) ≡ concat_records xs ++ concat_records ys
concat_records-append [] ys = refl
concat_records-append (x ∷ xs) ys =
    ap (λ t. record_bytes x ++ t) (concat_records-append xs ys)
    ∙ sym (append_assoc (record_bytes x) (concat_records xs) (concat_records ys))

-- A buffer that a write takes is in the log after it.
pub written-InLog :
    (l : Logger) (xs ys : List CommitBuffer) (b : CommitBuffer)
    → InStep l
    → (fetch_of l).0 ≡ xs ++ b ∷ ys
    → InLog b (written l (fetch_of l))
unfolding written write_at gathered
written-InLog l xs ys b s e =
    let f = fetch_of l in
    let old = file_bytes (or_zero l.info.log_filename) l.files in
    let n = l.info.log_len in
    let filled = take n (old ++ replicate (n - length old) 0) in
    let rest = drop (n + length (gathered f)) old in
    let pad = padding_bytes (padding_for f.2) in
    let records : concat_records f.0 ≡ concat_records xs ++ (record_bytes b ++ concat_records ys) =
      ap concat_records e ∙ concat_records-append xs (b ∷ ys) in
    record {
      before = filled ++ concat_records xs;
      after = concat_records ys ++ (pad ++ rest);
      text =
          written-text l s
          ∙ ap (λ t. filled ++ ((t ++ pad) ++ rest)) records
          ∙ regroup filled (concat_records xs) (record_bytes b) (concat_records ys) pad rest;
      within = omega (
        arith,
        length-gathered l.info.waiting_txns n l.info.log_max_len,
        length-filled n old,
        length-append filled (concat_records xs),
        length-append (concat_records f.0) pad,
        ap length records,
        length-append (concat_records xs) (record_bytes b ++ concat_records ys),
        length-append (record_bytes b) (concat_records ys),
      );
    }
  where
    regroup :
        (a b c d e f : List ℕ)
        → a ++ (((b ++ (c ++ d)) ++ e) ++ f) ≡ (a ++ b) ++ (c ++ (d ++ (e ++ f)))
    regroup a b c d e f =
        ap (λ t. a ++ t)
          (append_assoc (b ++ (c ++ d)) e f
            ∙ append_assoc b (c ++ d) (e ++ f)
            ∙ ap (λ t. b ++ t) (append_assoc c d (e ++ f)))
        ∙ sym (append_assoc a b (c ++ (d ++ (e ++ f))))
