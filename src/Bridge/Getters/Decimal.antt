-- ===== src/Bridge/Getters/Decimal.antt =====
-- Decimal numerals, against the loop of `GetInt`.
use native.Mathlib.Nat.{pow-suc, mul-le-mul, le_refl}
use mathlib.Core.List.{append-nil, append_assoc}
use native.Mathlib.Decide.{dec_lt}
use jitterentropy_analysis_d.Prelude.{
  ℕ, zero, suc, ◌+◌, ◌-◌, ◌*◌, ◌/◌, ◌%◌, ◌^◌, ◌≤◌, ◌<◌, true, false, [], ◌∷◌, ◌++◌, some, ◌≡◌, refl,
  ap, ap₂, ◌∙◌, arith, ltb, if◌then◌else◌, length, length-append, ◌>>=◌,
}
use jitterentropy_analysis_d.Bridge.Text.{Bytes}
use jitterentropy_analysis_d.Bridge.Getters.{is_digit, digits_value, starts_zero}

-- The numeral of `n` in base ten, with no leading zero, for `n < 10 ^ fuel`.
pub show_nat : ℕ → ℕ → Bytes
show_nat zero n = []
show_nat (suc f) n =
    let front = show_nat f (n / 10) in
    if ltb n 10 then (b'0' + n) ∷ [] else front ++ ((b'0' + n % 10) ∷ [])

pub show_nat_digit : (f n : ℕ) → n < 10 → show_nat (suc f) n ≡ (b'0' + n) ∷ []
unfolding show_nat
show_nat_digit f n h = ground arith

show_nat_front :
    (f n : ℕ) → 10 ≤ n → show_nat (suc f) n ≡ show_nat f (n / 10) ++ ((b'0' + n % 10) ∷ [])
unfolding show_nat
show_nat_front f n h = ground arith

show_nat_snoc :
    (f a d : ℕ) → 0 < a → d < 10 → show_nat (suc f) (a * 10 + d) ≡ show_nat f a ++ ((b'0' + d) ∷ [])
show_nat_snoc f a d h k =
    let q : (a * 10 + d) / 10 ≡ a = omega arith in
    let r : (a * 10 + d) % 10 ≡ d = omega arith in
    show_nat_front f (a * 10 + d) (omega arith) ∙ rw (q, r)

digits_value-append :
    (v : ℕ) (s : Bytes) (c : ℕ)
    → is_digit c ≡ true
    → digits_value v (s ++ c ∷ []) ≡ (digits_value v s >>= λ w. some (w * 10 + (c - b'0')))
unfolding digits_value
digits_value-append v [] c d = ground arith
digits_value-append v (b ∷ s) c d = ground (arith, digits_value-append (v * 10 + (b - b'0')) s c d)

digits_value_digit : (n : ℕ) → n < 10 → digits_value 0 ((b'0' + n) ∷ []) ≡ some n
unfolding digits_value
digits_value_digit n h = ground arith

front_pos : (g n : ℕ) → ¬ (n < 10) → n / 10 < 10 ^ g → 0 < g
front_pos zero n l k = absurd (omega arith)
front_pos (suc g) n l k = omega arith

-- What the loop reads from a numeral is its number.
pub digits_value-show_nat : (f n : ℕ) → 0 < f → n < 10 ^ f → digits_value 0 (show_nat f n) ≡ some n
digits_value-show_nat zero n p h = absurd (omega arith)
digits_value-show_nat (suc f) n p h = elim (dec_lt n 10) [
  | yes l ↦ rw (show_nat_digit f n l) (digits_value_digit n l)
  | no l ↦
      let small : n / 10 < 10 ^ f = omega (arith, pow-suc 10 f) in
      let positive : 0 < f = front_pos f n l small in
      rw
        (
          show_nat_front f n (omega arith),
          digits_value-append 0 (show_nat f (n / 10)) (b'0' + n % 10) (ground arith),
        )
        (rw (digits_value-show_nat f (n / 10) positive small) (ap some (omega arith)))
]

pub length-show_nat :
    (f n : ℕ) → 0 < f → n < 10 ^ f → (0 < length (show_nat f n)) × (length (show_nat f n) ≤ f)
length-show_nat zero n p h = absurd (omega arith)
length-show_nat (suc f) n p h = elim (dec_lt n 10) [
  | yes l ↦ rw (show_nat_digit f n l) (omega arith)
  | no l ↦
      let small : n / 10 < 10 ^ f = omega (arith, pow-suc 10 f) in
      let front = show_nat f (n / 10) in
      let last : Bytes = (b'0' + n % 10) ∷ [] in
      rw (show_nat_front f n (omega arith)) (
        omega (
          arith,
          length-append front last,
          length-show_nat f (n / 10) (front_pos f n l small) small,
        ))
]

starts_zero-append : (s t : Bytes) → 0 < length s → starts_zero (s ++ t) ≡ starts_zero s
unfolding starts_zero
starts_zero-append [] t h = absurd (omega arith)
starts_zero-append (c ∷ s) t h = refl

starts_zero_digit : (n : ℕ) → 0 < n → n < 10 → starts_zero ((b'0' + n) ∷ []) ≡ false
unfolding starts_zero
starts_zero_digit n p h = ground arith

-- Only the numeral of zero starts with a zero.
pub starts_zero-show_nat : (f n : ℕ) → 0 < n → n < 10 ^ f → starts_zero (show_nat f n) ≡ false
starts_zero-show_nat zero n p h = absurd (omega arith)
starts_zero-show_nat (suc f) n p h = elim (dec_lt n 10) [
  | yes l ↦ rw (show_nat_digit f n l) (starts_zero_digit n p l)
  | no l ↦
      let small : n / 10 < 10 ^ f = omega (arith, pow-suc 10 f) in
      let long = length-show_nat f (n / 10) (front_pos f n l small) small in
      rw (show_nat_front f n (omega arith), starts_zero-append _ _ long.0)
        (starts_zero-show_nat f (n / 10) (omega arith) small)
]

-- What the loop reads behind a number that is not zero extends its numeral.
pub show_nat-digits_value :
    (f a : ℕ) (s : Bytes) (n : ℕ)
    → 0 < a
    → digits_value a s ≡ some n
    → show_nat (length s + f) n ≡ show_nat f a ++ s
unfolding digits_value
show_nat-digits_value f a [] n h e = rw append-nil (ap₂ show_nat (omega arith) (ground arith))
show_nat-digits_value f a (c ∷ s) n h e =
    let d : is_digit c ≡ true = ground arith in
    let step = show_nat_snoc f a (c - b'0') h (ground arith) in
    let rest =
      show_nat-digits_value (suc f) (a * 10 + (c - b'0')) s n (omega arith) (ground arith) in
    ap (λ k. show_nat k n) (omega arith)
    ∙ rest
    ∙ ap (λ x. x ++ s) step
    ∙ append_assoc (show_nat f a) ((b'0' + (c - b'0')) ∷ []) s
    ∙ ap (λ x. show_nat f a ++ x ∷ s) (ground arith)

digit_bound : (a d p n : ℕ) → d < 10 → n < (a * 10 + d + 1) * p → n < (a + 1) * (p * 10)
digit_bound a d p n h k =
    let grows : (a * 10 + d + 1) * p ≤ (a + 1) * 10 * p = mul-le-mul (omega arith) (le_refl p) in
    omega arith

-- Each digit makes the number at most ten times as large, and one unit.
pub digits_value-lt :
    (a : ℕ) (s : Bytes) (n : ℕ) → digits_value a s ≡ some n → n < (a + 1) * 10 ^ length s
unfolding digits_value
digits_value-lt a [] n e = ground arith
digits_value-lt a (c ∷ s) n e =
    let d : c - b'0' < 10 = ground arith in
    let rest = digits_value-lt (a * 10 + (c - b'0')) s n (ground arith) in
    rw (pow-suc 10 (length s)) (digit_bound a (c - b'0') (10 ^ length s) n d rest)
