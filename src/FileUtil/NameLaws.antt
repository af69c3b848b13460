-- ===== src/FileUtil/NameLaws.antt =====
-- src/db_file_util.cpp: the name of a log file gives back the LSN it was made from.
use native.Mathlib.Nat.{pow-suc}
use stldb.Prelude.{
  ℕ, zero, suc, ◌+◌, ◌*◌, ◌/◌, ◌%◌, ◌^◌, ◌<◌, ◌≡◌, refl, sym, ap, ◌∙◌, false, ◌||◌, some, List, ◌∷◌,
  arith, ◌==◌, lt→ltb,
}
use stldb.FileUtil.Names.{
  log_suffix, hex_digit, hex, log_filename, skip_space, word, digit_value, fitting, is_space,
  read_digits, read_number, skip_prefix, read_hex, same_name, lsn_after, get_logfile_starting_lsn,
}

digit_value-hex_digit : (d : ℕ) → d < 16 → digit_value (hex_digit d) ≡ some d
digit_value-hex_digit d h = ground arith

-- A value that n digits are read after.
shift : ℕ → ℕ → ℕ
shift zero value = value
shift (suc n) value = shift n value * 16

shift-zero : (n : ℕ) → shift n 0 ≡ 0
unfolding shift
shift-zero zero = refl
shift-zero (suc n) = omega (arith, shift-zero n)

read_digits-digit :
    (value d : ℕ) (rest : List ℕ)
    → d < 16
    → read_digits value (hex_digit d ∷ rest) ≡ read_digits (value * 16 + d) rest
unfolding read_digits
read_digits-digit value d rest h = rw (digit_value-hex_digit d h, read_digits) refl

read_digits-hex :
    (n value x : ℕ) (rest : List ℕ)
    → x < 16 ^ n
    → read_digits value (hex n x rest) ≡ read_digits (shift n value + x) rest
unfolding hex shift
read_digits-hex zero value x rest h = ap (λ v. read_digits v rest) (omega (arith, h))
read_digits-hex (suc n) value x rest h =
    read_digits-hex n value (x / 16) (hex_digit (x % 16) ∷ rest) (omega (arith, h, pow-suc 16 n))
    ∙ read_digits-digit (shift n value + x / 16) (x % 16) rest (omega arith)
    ∙ ap (λ v. read_digits v rest) (omega arith)

read_number-digit :
    (d : ℕ) (cs : List ℕ)
    → d < 16
    → read_number (2 ^ 63) (hex_digit d ∷ cs) ≡ fitting (2 ^ 63) (read_digits 0 (hex_digit d ∷ cs))
unfolding read_number
read_number-digit d cs h =
    rw (digit_value-hex_digit d h, read_number)
      (ap (fitting (2 ^ 63))
        (ap (λ v. read_digits v cs) (omega arith) ∙ sym (read_digits-digit 0 d cs h)))

-- Two digits are no sign, and no prefix.
read_hex-digits :
    (d e : ℕ) (cs : List ℕ)
    → d < 16
    → e < 16
    → read_hex (skip_space (hex_digit d ∷ hex_digit e ∷ cs))
      ≡ read_number (2 ^ 63) (hex_digit d ∷ hex_digit e ∷ cs)
unfolding read_hex skip_space skip_prefix
read_hex-digits d e cs h h' =
    rw (not_space d h) (rw (not_plus d h) (rw (not_minus d h) (rw (not_x e h') refl)))
  where
    not_space : (d : ℕ) → d < 16 → is_space (hex_digit d) ≡ false
    not_space d h = ground arith

    not_plus : (d : ℕ) → d < 16 → (hex_digit d == 43) ≡ false
    not_plus d h = ground arith

    not_minus : (d : ℕ) → d < 16 → (hex_digit d == 45) ≡ false
    not_minus d h = ground arith

    not_x : (d : ℕ) → d < 16 → (hex_digit d == 120 || hex_digit d == 88) ≡ false
    not_x d h = ground arith

-- The number that is read of a log file's name, and what is left.
read_hex-hex :
    (lsn : ℕ)
    → lsn < 2 ^ 63
    → read_hex (skip_space (hex 16 lsn log_suffix)) ≡ some (lsn, log_suffix)
unfolding hex read_digits
read_hex-hex lsn h =
    let zero_add : 0 + lsn ≡ lsn = omega arith in
    read_hex-digits _ _ _ (omega arith) (omega arith)
    ∙ read_number-digit _ _ (omega arith)
    ∙ ap (fitting (2 ^ 63)) (
        read_digits-hex 16 0 lsn log_suffix (omega (arith, h))
        ∙ ap (λ v. read_digits (v + lsn) log_suffix) (shift-zero 16))
    ∙ ap (λ v. fitting (2 ^ 63) (read_digits v log_suffix)) zero_add
    ∙ rw (lt→ltb lsn (2 ^ 63) h) refl

-- The name that log_filename makes of an LSN below 2 ^ 63 is read back as this LSN.
pub get_logfile_starting_lsn-log_filename :
    (lsn : ℕ) → lsn < 2 ^ 63 → get_logfile_starting_lsn (log_filename lsn) ≡ lsn
unfolding get_logfile_starting_lsn log_filename skip_space lsn_after word same_name
get_logfile_starting_lsn-log_filename lsn h = ap (lsn_after 76) (read_hex-hex lsn h)
