-- ===== src/Gui/Telemetry/Text/Numbers.antt =====
-- The numbers of JSON.
use jitterentropy_analysis_d.Prelude.{
  ℕ, zero, suc, ◌+◌, ◌/◌, ◌%◌, ◌≤◌, ◌<◌, [], ◌∷◌, ◌++◌, All, ◌≡◌, ltb, ltb→lt, arith, Bool-cases,
  inl, inr,
}
use jitterentropy_analysis_d.Prelude.Int.{ℤ, pos, negsuc}
use jitterentropy_analysis_d.Bridge.Text.{Bytes}
use jitterentropy_analysis_d.Print.{digits_of, decimal, signed_decimal}

abbrev pub IsDigit : ℕ → Type 0
IsDigit c = (b'0' ≤ c) × (c ≤ b'9')

-- 0, or digits that do not begin with 0.
pub data Digits : Bytes → Type 0 where
  naught : Digits (b'0' ∷ [])
  positive : {c : ℕ} {t : Bytes} → b'1' ≤ c → c ≤ b'9' → All IsDigit t → Digits (c ∷ t)

pub data Unsigned : Bytes → Type 0 where
  whole_number : {t : Bytes} → Digits t → Unsigned t
  with_fraction :
      (t : Bytes) (c : ℕ) (u : Bytes)
      → Digits t
      → IsDigit c
      → All IsDigit u
      → Unsigned (t ++ (b'.' ∷ c ∷ u))

pub data Number : Bytes → Type 0 where
  unsigned : {t : Bytes} → Unsigned t → Number t
  negative : {t : Bytes} → Unsigned t → Number (b'-' ∷ t)

digits_of-Digits :
    (fuel n : ℕ) (done : Bytes)
    → 0 < n
    → n ≤ fuel
    → All IsDigit done
    → Digits (digits_of fuel n done)
unfolding digits_of
digits_of-Digits zero n done some_ enough a = absurd (omega arith)
digits_of-Digits (suc fuel) n done some_ enough a = elim (Bool-cases (ltb n 10)) [
  | inl l ↦
      let small = ltb→lt n 10 l in
      rw (l, digits_of) (positive (omega (arith, small)) (omega (arith, small)) a)
  | inr l ↦
      let big : 10 ≤ n = ground (arith, l) in
      rw (l, digits_of)
        (digits_of-Digits fuel (n / 10) ((b'0' + n % 10) ∷ done) (omega (arith, big))
          (omega (arith, big)) ((omega arith, omega arith), a))
]

decimal-Digits : (n : ℕ) → Digits (decimal n)
unfolding decimal digits_of
decimal-Digits n = elim (Bool-cases (ltb 0 n)) [
  | inl l ↦ digits_of-Digits (suc n) n [] (ltb→lt 0 n l) (omega arith) tt
  | inr l ↦ let none_ : n ≡ 0 = ground (arith, l) in rw none_ naught
]

pub decimal-Number : (n : ℕ) → Number (decimal n)
decimal-Number n = unsigned (whole_number (decimal-Digits n))

pub signed_decimal-Number : (z : ℤ) → Number (signed_decimal z)
unfolding signed_decimal
signed_decimal-Number (pos n) = decimal-Number n
signed_decimal-Number (negsuc n) = negative (whole_number (decimal-Digits (suc n)))
