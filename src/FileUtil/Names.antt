-- ===== src/FileUtil/Names.antt =====
-- src/db_file_util.cpp: the names of log files, without the directory. Characters are their codes;
-- white space is what std::isspace takes for it.
use mathlib.Core.Option
use stldb.Prelude.{
  ℕ, zero, suc, ◌+◌, ◌-◌, ◌*◌, ◌/◌, ◌%◌, ◌^◌, Bool, true, false, ◌&&◌, ◌||◌, Option, none, some,
  List, [], ◌∷◌, ◌==◌, ltb, leb, if◌then◌else◌,
}
use stldb.LogReader.{no_transaction}

-- ".log", ".meta" and ".meta_wip"
abbrev pub log_suffix : List ℕ
log_suffix = 46 ∷ 108 ∷ 111 ∷ 103 ∷ []

abbrev pub meta : List ℕ
meta = 46 ∷ 109 ∷ 101 ∷ 116 ∷ 97 ∷ []

-- The digit as std::uppercase writes it.
abbrev pub hex_digit : ℕ → ℕ
hex_digit d = if ltb d 10 then 48 + d else 55 + d

-- std::hex of a number that has at most n digits, filled with zeros to n, before the rest of the text.
unfoldable pub hex : ℕ → ℕ → List ℕ → List ℕ
hex zero x rest = rest
hex (suc n) x rest = hex n (x / 16) (hex_digit (x % 16) ∷ rest)

-- log_filename
unfoldable pub log_filename : ℕ → List ℕ
unfolding hex
log_filename lsn = 76 ∷ hex 16 lsn log_suffix

abbrev pub is_space : ℕ → Bool
is_space c = c == 32 || (leb 9 c && leb c 13)

-- The white space that operator>> skips.
unfoldable pub skip_space : List ℕ → List ℕ
skip_space [] = []
skip_space (c ∷ cs) = let later = skip_space cs in if is_space c then later else c ∷ cs

-- The word that operator>> of a string reads.
unfoldable pub word : List ℕ → List ℕ
word [] = []
word (c ∷ cs) = let later = word cs in if is_space c then [] else c ∷ later

-- The value of a hexadecimal digit, of either case.
abbrev pub digit_value : ℕ → Option ℕ
digit_value c =
    if leb 48 c && leb c 57
    then some (c - 48)
    else if leb 65 c && leb c 70
    then some (c - 55)
    else if leb 97 c && leb c 102
    then some (c - 87)
    else none

-- The digits that follow, after a value so far.
unfoldable pub read_digits : ℕ → List ℕ → ℕ × List ℕ
read_digits value [] = (value, [])
read_digits value (c ∷ cs) = elim (digit_value c) [
  | none ↦ (value, c ∷ cs)
  | some d ↦ read_digits (value * 16 + d) cs
]

-- A number that is read fails from a limit on.
abbrev pub fitting : ℕ → ℕ × List ℕ → Option (ℕ × List ℕ)
fitting limit r = if ltb r.0 limit then some r else none

-- A number, if it starts with a digit and is below the limit.
unfoldable pub read_number : ℕ → List ℕ → Option (ℕ × List ℕ)
unfolding read_digits
read_number limit [] = none
read_number limit (c ∷ cs) = elim (digit_value c) [
  | none ↦ none
  | some d ↦ fitting limit (read_digits d cs)
]

-- What follows a prefix 0x or 0X.
unfoldable pub skip_prefix : List ℕ → List ℕ
skip_prefix [] = []
skip_prefix (c ∷ []) = c ∷ []
skip_prefix (c ∷ d ∷ cs) = if (d == 120 || d == 88) && c == 48 then cs else c ∷ d ∷ cs

-- operator>> with std::hex of a signed number of 64 bits, in two's complement; none if it fails.
unfoldable pub read_hex : List ℕ → Option (ℕ × List ℕ)
unfolding skip_prefix read_number
read_hex [] = none
read_hex (c ∷ cs) =
    if c == 43
    then read_number (2 ^ 63) (skip_prefix cs)
    else if c == 45
    then Option.map (λ r. ((2 ^ 64 - r.0) % 2 ^ 64, r.1))
        (read_number (2 ^ 63 + 1) (skip_prefix cs))
    else read_number (2 ^ 63) (skip_prefix (c ∷ cs))

unfoldable pub same_name : List ℕ → List ℕ → Bool
same_name [] [] = true
same_name [] (d ∷ ds) = false
same_name (c ∷ cs) [] = false
same_name (c ∷ cs) (d ∷ ds) = c == d && same_name cs ds

-- The name is split: the letter, the number and the suffix.
unfoldable pub lsn_after : ℕ → Option (ℕ × List ℕ) → ℕ
unfolding skip_space word same_name
lsn_after c none = no_transaction
lsn_after c (some (lsn, cs)) =
    if c == 76 && same_name (word (skip_space cs)) log_suffix then lsn else no_transaction

-- get_logfile_starting_lsn
unfoldable pub get_logfile_starting_lsn : List ℕ → ℕ
unfolding skip_space read_hex lsn_after
get_logfile_starting_lsn name = elim (skip_space name) [
  | [] ↦ no_transaction
  | c ∷ cs ↦ lsn_after c (read_hex (skip_space cs))
]
