-- ===== src/Logging.antt =====
-- stldb/logging.h and src/logging.cpp: the header of a log record and its checksums. A byte is a
-- number below 256; the header is laid out in memory with the least significant byte first.
pub mod Bytes
pub mod Adler
mod Tests
use stldb.Prelude.{
  ℕ, zero, suc, ◌+◌, ◌-◌, ◌*◌, ◌/◌, ◌%◌, ◌^◌, Bool, ◌&&◌, List, [], ◌∷◌, ◌++◌, ◌==◌, take, drop,
  length, if◌then◌else◌,
}
use Bytes.{le_bytes}

abbrev pub u32_mod : ℕ
u32_mod = 2 ^ 32

-- MOD_ADLER
abbrev pub mod_adler : ℕ
mod_adler = 65521

-- The do loop of adler over one chunk, in 32-bit arithmetic.
pub adler_chunk : List ℕ → ℕ → ℕ → ℕ × ℕ
adler_chunk [] a b = (a, b)
adler_chunk (x ∷ xs) a b = let a' = (a + x) % u32_mod in adler_chunk xs a' ((b + a') % u32_mod)

-- The while loop of adler: chunks of at most 5550 bytes, reduced after each.
pub adler_loop : ℕ → List ℕ → ℕ → ℕ → ℕ × ℕ
adler_loop zero bytes a b = (a, b)
adler_loop (suc fuel) [] a b = (a, b)
adler_loop (suc fuel) (x ∷ xs) a b =
    let (a', b') = adler_chunk (take 5550 (x ∷ xs)) a b in
    adler_loop fuel (drop 5550 (x ∷ xs)) (a' % mod_adler) (b' % mod_adler)

-- `(b << 16) | a`, where both are below 2 ^ 16. Each chunk has a byte, so the length is fuel
-- enough.
unfoldable pub adler : List ℕ → ℕ
unfolding adler_loop adler_chunk
adler bytes = let (a, b) = adler_loop (length bytes) bytes 1 0 in (b * 2 ^ 16 + a) % u32_mod

pub record LogHeader : Type 0 where
  pub op_count : ℕ
  pub segment_size : ℕ
  pub lsn : ℕ
  pub segment_checksum : ℕ
  pub header_checksum : ℕ

-- sizeof(struct log_header)
abbrev pub header_size : ℕ
header_size = 24

-- log_header()
abbrev pub no_header : LogHeader
no_header = record {
  op_count = 0;
  segment_size = 0;
  lsn = 0;
  segment_checksum = 0;
  header_checksum = 0;
}

unfoldable pub padding : LogHeader → Bool
padding h = (h.segment_checksum == 0) && (h.op_count == 0) && (h.lsn == 0)

unfoldable pub empty : LogHeader → Bool
empty h =
    (h.header_checksum == 0)
    && (h.op_count == 0)
    && (h.segment_checksum == 0)
    && (h.segment_size == 0)
    && (h.lsn == 0)

-- The bytes of a header in memory.
unfoldable pub header_bytes : LogHeader → List ℕ
unfolding le_bytes
header_bytes h =
    le_bytes 4 h.op_count
    ++ (le_bytes 4 h.segment_size
        ++ (le_bytes 8 h.lsn ++ (le_bytes 4 h.segment_checksum ++ le_bytes 4 h.header_checksum)))

-- finalize
unfoldable pub finalize : LogHeader → LogHeader
finalize h = record h { header_checksum = adler (header_bytes (record h { header_checksum = 0 })) }
