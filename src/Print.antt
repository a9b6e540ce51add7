-- ===== src/Print.antt =====
-- Numbers and bytes as text, as the streams and `printf` write them.
pub mod Hex
use jitterentropy_analysis_d.Prelude.{
  ℕ, zero, suc, ◌+◌, ◌-◌, ◌/◌, ◌%◌, List, [], ◌∷◌, ◌++◌, ltb, if◌then◌else◌, replicate, length,
}
use jitterentropy_analysis_d.Prelude.Int.{ℤ, pos, negsuc}
use jitterentropy_analysis_d.Bridge.Text.{Bytes, hex_digit}

-- The digits of a number, the last one first; `n` rounds are enough.
unfoldable pub digits_of : ℕ → ℕ → Bytes → Bytes
digits_of zero n done = done
digits_of (suc fuel) n done =
    let more = digits_of fuel (n / 10) ((b'0' + n % 10) ∷ done) in
    if ltb n 10 then (b'0' + n % 10) ∷ done else more

-- `<<` and `%llu` of an unsigned, `<<` and `%d` of a signed integer.
unfoldable pub decimal : ℕ → Bytes
unfolding digits_of
decimal n = digits_of (suc n) n []

unfoldable pub signed_decimal : ℤ → Bytes
unfolding decimal
signed_decimal (pos n) = decimal n
signed_decimal (negsuc n) = b'-' ∷ decimal (suc n)

-- The loop that writes `hex_str`; `hex_digit` is a character of `kHex`.
unfoldable pub hex : List ℕ → Bytes
hex [] = []
hex (b ∷ bytes) = hex_digit (b / 16) ∷ hex_digit (b % 16) ∷ hex bytes

-- The digits of a number to the base 16, the last one first; `%x`.
hex_digits_of : ℕ → ℕ → Bytes → Bytes
hex_digits_of zero n done = done
hex_digits_of (suc fuel) n done =
    let more = hex_digits_of fuel (n / 16) (hex_digit (n % 16) ∷ done) in
    if ltb n 16 then hex_digit (n % 16) ∷ done else more

pub hex_number : ℕ → Bytes
unfolding hex_digits_of
hex_number n = hex_digits_of (suc n) n []

-- The width of a conversion: blanks in front.
abbrev pub padded : ℕ → Bytes → Bytes
padded width text = replicate (width - length text) b' ' ++ text
