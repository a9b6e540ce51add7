-- ===== src/Cli/Args/Numerals.antt =====
-- Numbers in decimal, read back.
use jitterentropy_analysis_d.Prelude.{
  ℕ, zero, suc, ◌+◌, ◌-◌, ◌*◌, ◌/◌, ◌%◌, ◌^◌, ◌<◌, true, false, none, some, [], ◌∷◌, ◌≡◌, refl, sym,
  ap, ◌∙◌, arith, inl, inr, Bool-cases, if_true, if_false, ltb, leb, ◌==◌, ◌&&◌,
}
use jitterentropy_analysis_d.Print.{digits_of, decimal}
use jitterentropy_analysis_d.Bridge.Text.{Bytes}
use jitterentropy_analysis_d.Bridge.Getters.{is_digit}
use jitterentropy_analysis_d.Cli.Args.{
  digits, parse_size, is_space, skip_space, positive_part, parse_int, is_option,
}

is_digit-digit : (n : ℕ) → is_digit (b'0' + n % 10) ≡ true
is_digit-digit n = ground arith

digits-cons : (v n : ℕ) (s : Bytes) → digits v ((b'0' + n % 10) ∷ s) ≡ digits (v * 10 + n % 10) s
unfolding digits
digits-cons v n s =
    let value : b'0' + n % 10 - 48 ≡ n % 10 = omega arith in
    if_true (is_digit (b'0' + n % 10)) _ none (is_digit-digit n)
    ∙ ap (λ m. digits (v * 10 + m) s) value

digits-digits_of : (fuel n : ℕ) (s : Bytes) → n < fuel → digits 0 (digits_of fuel n s) ≡ digits n s
unfolding digits_of
digits-digits_of zero n s h = absurd (omega (arith, h))
digits-digits_of (suc fuel) n s h =
    let digit = (b'0' + n % 10) in
    elim (Bool-cases (ltb n 10)) [
      | inl small ↦
          let value : 0 * 10 + n % 10 ≡ n = ground (arith, small) in
          ap (digits 0) (if_true (ltb n 10) _ (digits_of fuel (n / 10) (digit ∷ s)) small)
          ∙ digits-cons 0 n s
          ∙ ap (λ m. digits m s) value
      | inr big ↦
          let value : n / 10 * 10 + n % 10 ≡ n = omega arith in
          let less : n / 10 < fuel = ground (arith, big, h) in
          ap (digits 0) (if_false (ltb n 10) (digit ∷ s) _ big)
          ∙ digits-digits_of fuel (n / 10) (digit ∷ s) less
          ∙ digits-cons (n / 10) n s
          ∙ ap (λ m. digits m s) value
    ]

-- A text that starts with a digit.
Starts : Bytes → Type 0
Starts s = (c : ℕ) × (t : Bytes) × (s ≡ c ∷ t) × (is_digit c ≡ true)

digits_of-Starts : (fuel n : ℕ) (s : Bytes) → n < fuel → Starts (digits_of fuel n s)
unfolding digits_of Starts
digits_of-Starts zero n s h = absurd (omega (arith, h))
digits_of-Starts (suc fuel) n s h = elim (Bool-cases (ltb n 10)) [
  | inl small ↦ (_, _, if_true (ltb n 10) _ _ small, is_digit-digit n)
  | inr big ↦
      let less : n / 10 < fuel = ground (arith, big, h) in
      let (c, t, e, d) = digits_of-Starts fuel (n / 10) ((b'0' + n % 10) ∷ s) less in
      (c, t, if_false (ltb n 10) _ _ big ∙ e, d)
]

decimal-Starts : (n : ℕ) → Starts (decimal n)
unfolding decimal
decimal-Starts n = digits_of-Starts (suc n) n [] (omega arith)

digits-decimal : (n : ℕ) → digits 0 (decimal n) ≡ some n
unfolding decimal digits
digits-decimal n = digits-digits_of (suc n) n [] (omega arith)

pub parse_size-decimal : (n : ℕ) → n < 2 ^ 64 → parse_size (decimal n) ≡ some n
unfolding parse_size Starts
parse_size-decimal n small =
    let (c, t, e, d) = decimal-Starts n in
    let value : digits 0 (c ∷ t) ≡ some n = ap (digits 0) (sym e) ∙ digits-decimal n in
    let fits : ltb n (2 ^ 64) ≡ true = ground (arith, small) in
    ap parse_size e ∙ rw (value, d, fits) refl

pub parse_int-decimal : (n : ℕ) → 0 < n → n < 2 ^ 31 → parse_int (decimal n) ≡ some n
unfolding parse_int positive_part skip_space Starts
parse_int-decimal n positive small =
    let (c, t, e, d) = decimal-Starts n in
    let value : digits 0 (c ∷ t) ≡ some n = ap (digits 0) (sym e) ∙ digits-decimal n in
    let no_blank : is_space c ≡ false = ground (arith, d) in
    let no_plus : (c == b'+') ≡ false = ground (arith, d) in
    let fits : (ltb 0 n && leb n 2147483647) ≡ true = ground (arith, positive, small) in
    ap parse_int e ∙ rw (no_blank, is_space c, no_plus, value, fits) refl

pub is_option-decimal : (n : ℕ) → is_option (decimal n) ≡ false
unfolding Starts
is_option-decimal n = let (c, t, e, d) = decimal-Starts n in ap is_option e ∙ ground (arith, d)
