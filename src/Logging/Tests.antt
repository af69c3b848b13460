-- ===== src/Logging/Tests.antt =====
-- The checksum of three bytes, and the theorem applied to them.
use stldb.Prelude.{◌≡◌, ◌<◌, ◌^◌, refl, [], ◌∷◌, arith}
use stldb.Logging.{adler}
use stldb.Logging.Adler.{adler32, adler-adler32}

adler-three : adler (97 ∷ 98 ∷ 99 ∷ []) ≡ 38600999
unfolding adler
adler-three = refl

adler-adler32_example :
    (adler (97 ∷ 98 ∷ 99 ∷ []) ≡ adler32 (97 ∷ 98 ∷ 99 ∷ [])) × (adler (97 ∷ 98 ∷ 99 ∷ []) < 2 ^ 32)
adler-adler32_example =
    adler-adler32 (97 ∷ 98 ∷ 99 ∷ []) (omega arith, (omega arith, (omega arith, tt)))
