-- ===== src/Logging/Adler.antt =====
-- logging.cpp: adler is Adler-32.
use native.Mathlib.Nat.{mul-le-mul}
use stldb.Prelude.{
  ℕ, zero, suc, ◌+◌, ◌*◌, ◌%◌, ◌<◌, ◌≤◌, ◌^◌, ◌≡◌, refl, ap, List, [], ◌∷◌, ◌++◌, arith, length,
  take, drop, take-append-drop, length-take-le, length-drop, sym, ◌∙◌,
}
use stldb.Logging.{u32_mod, mod_adler, adler_chunk, adler_loop, adler}
use stldb.Logging.Bytes.{AreBytes, take-AreBytes, drop-AreBytes}

-- The checksum as RFC 1950 defines it: both sums are kept modulo 65521 at every byte.
adler_sums : List ℕ → ℕ → ℕ → ℕ × ℕ
adler_sums [] a b = (a, b)
adler_sums (x ∷ xs) a b = let a' = (a + x) % mod_adler in adler_sums xs a' ((b + a') % mod_adler)

abbrev pub adler32 : List ℕ → ℕ
unfolding adler_sums
adler32 bytes = (adler_sums bytes 1 0).1 * 65536 + (adler_sums bytes 1 0).0

-- 1 + 2 + … + n
triangle : ℕ → ℕ
triangle zero = 0
triangle (suc n) = triangle n + suc n

-- The sums of a chunk, not reduced.
plain_sums : List ℕ → ℕ → ℕ → ℕ × ℕ
plain_sums [] a b = (a, b)
plain_sums (x ∷ xs) a b = plain_sums xs (a + x) (b + (a + x))

-- What the second sum can grow to.
abbrev Fits : ℕ → ℕ → ℕ → Type 0
Fits n a b = b + n * a + 255 * triangle n < 2 ^ 32

Fits-step : (n a b x : ℕ) → x < 256 → Fits (suc n) a b → Fits n (a + x) (b + (a + x))
unfolding triangle
Fits-step n a b x h f = omega (arith, grows)
  where
    grows : n * x ≤ n * 255
    grows = grind arith

adler_chunk-plain_sums :
    (xs : List ℕ) (a b : ℕ)
    → AreBytes xs
    → Fits (length xs) a b
    → adler_chunk xs a b ≡ plain_sums xs a b
unfolding adler_chunk plain_sums
adler_chunk-plain_sums [] a b h f = refl
adler_chunk-plain_sums (x ∷ xs) a b h f =
    let g = Fits-step (length xs) a b x h.0 f in
    let small : (a + x) % u32_mod ≡ a + x = omega arith in
    let small' : (b + (a + x)) % u32_mod ≡ b + (a + x) = omega arith in
    rw (small, small') (adler_chunk-plain_sums xs (a + x) (b + (a + x)) h.1 g)

-- Reducing the sums at the end of a chunk or at every byte is the same.
plain_sums-adler_sums :
    (xs : List ℕ) (a b a' b' : ℕ)
    → a % mod_adler ≡ a' % mod_adler
    → b % mod_adler ≡ b' % mod_adler
    → ((plain_sums xs a b).0 % mod_adler ≡ (adler_sums xs a' b').0 % mod_adler)
      × ((plain_sums xs a b).1 % mod_adler ≡ (adler_sums xs a' b').1 % mod_adler)
unfolding plain_sums adler_sums
plain_sums-adler_sums [] a b a' b' p q = (p, q)
plain_sums-adler_sums (x ∷ xs) a b a' b' p q =
    plain_sums-adler_sums xs (a + x) (b + (a + x)) ((a' + x) % mod_adler)
      ((b' + (a' + x) % mod_adler) % mod_adler) (omega arith) (omega arith)

adler_sums_lt :
    (xs : List ℕ) (a b : ℕ)
    → a < mod_adler
    → b < mod_adler
    → ((adler_sums xs a b).0 < mod_adler) × ((adler_sums xs a b).1 < mod_adler)
unfolding adler_sums
adler_sums_lt [] a b p q = (p, q)
adler_sums_lt (x ∷ xs) a b p q = adler_sums_lt xs _ _ (omega arith) (omega arith)

adler_sums-append :
    (xs ys : List ℕ) (a b : ℕ)
    → adler_sums (xs ++ ys) a b ≡ adler_sums ys (adler_sums xs a b).0 (adler_sums xs a b).1
unfolding adler_sums
adler_sums-append [] ys a b = refl
adler_sums-append (x ∷ xs) ys a b = adler_sums-append xs ys _ _

triangle_lem : (n : ℕ) → 2 * triangle n ≡ n * n + n
unfolding triangle
triangle_lem zero = omega arith
triangle_lem (suc n) = omega (arith, triangle_lem n)

-- A chunk of 5550 bytes does not overflow 32 bits.
Fits-chunk : (n a b : ℕ) → n ≤ 5550 → a < mod_adler → b < mod_adler → Fits n a b
Fits-chunk n a b h p q = omega (arith, triangle_lem n, squares, products)
  where
    squares : n * n ≤ 5550 * 5550
    squares = mul-le-mul h h

    products : n * a ≤ 5550 * 65520
    products = mul-le-mul {m₂ = 65520} h (omega arith)

adler_chunk-adler_sums :
    (xs : List ℕ) (a b : ℕ)
    → AreBytes xs
    → length xs ≤ 5550
    → a < mod_adler
    → b < mod_adler
    → ((adler_chunk xs a b).0 % mod_adler ≡ (adler_sums xs a b).0)
      × ((adler_chunk xs a b).1 % mod_adler ≡ (adler_sums xs a b).1)
adler_chunk-adler_sums xs a b h l p q =
    rw (adler_chunk-plain_sums xs a b h (Fits-chunk (length xs) a b l p q)) (
      let same = plain_sums-adler_sums xs a b a b refl refl in
      let small = adler_sums_lt xs a b p q in (omega arith, omega arith))

adler_loop-adler_sums :
    (fuel : ℕ) (bytes : List ℕ) (a b : ℕ)
    → AreBytes bytes
    → length bytes ≤ fuel
    → a < mod_adler
    → b < mod_adler
    → adler_loop fuel bytes a b ≡ adler_sums bytes a b
unfolding adler_loop
adler_loop-adler_sums zero [] a b h l p q = unfold adler_sums in refl
adler_loop-adler_sums zero (x ∷ xs) a b h l p q = absurd (omega arith)
adler_loop-adler_sums (suc fuel) [] a b h l p q = unfold adler_sums in refl
adler_loop-adler_sums (suc fuel) (x ∷ xs) a b h l p q =
    let chunk = take 5550 (x ∷ xs) in
    let rest = drop 5550 (x ∷ xs) in
    let same =
      adler_chunk-adler_sums chunk a b (take-AreBytes 5550 (x ∷ xs) h)
        (length-take-le 5550 (x ∷ xs)) p q in
    let small = adler_sums_lt chunk a b p q in
    rw (same.0, same.1)
      (adler_loop-adler_sums fuel rest _ _ (drop-AreBytes 5550 (x ∷ xs) h)
          (omega (arith, length-drop 5550 (x ∷ xs))) small.0 small.1
        ∙ sym (adler_sums-append chunk rest a b)
        ∙ ap (λ z. adler_sums z a b) (take-append-drop 5550 (x ∷ xs)))

-- On any bytes the 32-bit loop with its late reductions computes Adler-32, so no chunk overflows,
-- and the result fits 32 bits.
pub adler-adler32 :
    (bytes : List ℕ) → AreBytes bytes → (adler bytes ≡ adler32 bytes) × (adler bytes < 2 ^ 32)
unfolding adler adler_sums
adler-adler32 bytes h =
    let small = adler_sums_lt bytes 1 0 (omega arith) (omega arith) in
    rw (adler_loop-adler_sums (length bytes) bytes 1 0 h (omega arith) (omega arith) (omega arith))
      (omega arith, omega arith)
