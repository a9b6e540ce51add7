-- ===== src/Print/Hex.antt =====
-- The text in hexadecimal, read back.
use jitterentropy_analysis_d.Prelude.{
  ℕ, ◌+◌, ◌-◌, ◌*◌, ◌/◌, ◌%◌, ◌<◌, Option, none, some, List, [], ◌∷◌, ◌≡◌, refl, arith, leb, ◌&&◌,
  if◌then◌else◌, length, ◌>>=◌,
}
use jitterentropy_analysis_d.Bridge.Text.{Bytes, hex_digit}
use jitterentropy_analysis_d.Stats.Histogram.Counts.{AreBytes}
use jitterentropy_analysis_d.Print.{hex}

-- The value of a digit.
pub digit_of : ℕ → Option ℕ
digit_of c =
    if leb b'0' c && leb c b'9'
    then some (c - b'0')
    else if leb b'a' c && leb c b'f'
    then some (c - b'a' + 10)
    else none

-- The bytes that pairs of digits stand for.
pub from_hex : Bytes → Option (List ℕ)
unfolding digit_of
from_hex [] = some []
from_hex (a ∷ []) = none
from_hex (a ∷ b ∷ text) = do
  high ← digit_of a
  low ← digit_of b
  bytes ← from_hex text
  some ((16 * high + low) ∷ bytes)

digit_of-hex_digit : (v : ℕ) → v < 16 → digit_of (hex_digit v) ≡ some v
unfolding digit_of hex_digit
digit_of-hex_digit v h = ground arith

-- The text of bytes in hexadecimal has two digits for each, and reads back as these bytes.
pub from_hex-hex :
    (bytes : List ℕ)
    → AreBytes bytes
    → (length (hex bytes) ≡ 2 * length bytes) × (from_hex (hex bytes) ≡ some bytes)
unfolding hex from_hex
from_hex-hex [] a = (refl, refl)
from_hex-hex (b ∷ bytes) (small, a) =
    let (l, ih) = from_hex-hex bytes a in
    let whole : 16 * (b / 16) + b % 16 ≡ b = omega arith in
    (
      omega (arith, l),
      rw
          (
            digit_of-hex_digit (b / 16) (omega arith),
            digit_of-hex_digit (b % 16) (omega arith),
            ih,
            whole,
          )
          refl,
    )
