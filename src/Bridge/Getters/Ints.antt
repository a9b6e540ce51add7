-- ===== src/Bridge/Getters/Ints.antt =====
-- `GetInt` accepts the decimal numerals of at most eighteen digits, and no other text.
use native.Mathlib.Nat.{pow-le-pow_right, mul-le-mul}
use jitterentropy_analysis_d.Prelude.{
  ℕ, zero, suc, ◌+◌, ◌-◌, ◌*◌, ◌^◌, ◌≤◌, ◌<◌, Bool, true, false, [], ◌∷◌, ◌++◌, some, ◌≡◌, ◌⊎◌, ◌↔◌,
  inl, inr, refl, ap, sym, ◌∙◌, arith, ltb, ◌&&◌, if◌then◌else◌, length, Option-cases, subst,
}
use jitterentropy_analysis_d.Prelude.Int.{ℤ, pos, negsuc, pos_part, neg_part, ◌≤ℤ◌}
use jitterentropy_analysis_d.Bridge.Text.{Bytes}
use jitterentropy_analysis_d.Bridge.Object.{Object, find}
use jitterentropy_analysis_d.Bridge.Getters.{
  ok, sign, digits_value, starts_zero, magnitude, negate, signed_value, int_of, get_int,
}
use jitterentropy_analysis_d.Bridge.Getters.Decimal.{
  show_nat, show_nat_digit, digits_value-show_nat, length-show_nat, starts_zero-show_nat,
  show_nat-digits_value, digits_value-lt,
}

-- One digit.
magnitude_digit :
    (c n : ℕ) → digits_value 0 (c ∷ []) ≡ some n → (n < 10) × (c ∷ [] ≡ (b'0' + n) ∷ [])
unfolding digits_value
magnitude_digit c n e = ground arith

-- The first of several digits is not a zero.
magnitude_first :
    (c : ℕ) (s : Bytes) {n : ℕ}
    → digits_value 0 (c ∷ s) ≡ some n
    → starts_zero (c ∷ s) ≡ false
    → (a : ℕ) × (0 < a) × (a < 10) × (c ≡ b'0' + a) × (digits_value a s ≡ some n)
unfolding digits_value starts_zero
magnitude_first c s e z = (c - b'0', ground arith, ground arith, ground arith, ground arith)

lt_of_digits : (a k n : ℕ) → a < 10 → k ≤ 17 → n < (a + 1) * 10 ^ k → n < 10 ^ 18
lt_of_digits a k n l h b =
    let p : 10 ^ k ≤ 10 ^ 17 = pow-le-pow_right {n = 10} (omega arith) h in
    let m : (a + 1) * 10 ^ k ≤ 10 * 10 ^ 17 = mul-le-mul {n₂ = 10} (omega arith) p in omega arith

magnitude-show_nat :
    (ds : Bytes) (n : ℕ) → magnitude ds ≡ some n → (n < 10 ^ 18) × (ds ≡ show_nat 18 n)
unfolding magnitude
magnitude-show_nat [] n e = cc
magnitude-show_nat (c ∷ []) n e =
    let (l, q) = magnitude_digit c n (ground arith) in
    (omega arith, q ∙ sym (show_nat_digit 17 n l))
magnitude-show_nat (c ∷ d ∷ s) n e =
    let (a, p, l, q, r) = magnitude_first c (d ∷ s) {n = n} (ground arith) (ground arith) in
    let short : length s ≤ 16 = ground arith in
    let fuel = 17 - length (d ∷ s) in
    let whole = show_nat-digits_value (suc fuel) a (d ∷ s) n p r in
    let first = show_nat_digit fuel a l in
    (
      lt_of_digits a (length (d ∷ s)) n l (omega arith) (digits_value-lt a (d ∷ s) n r),
      ap (λ b. b ∷ d ∷ s) q
          ∙ sym (ap (λ x. x ++ d ∷ s) first)
          ∙ sym whole
          ∙ ap (λ k. show_nat k n) (omega arith),
    )

show_nat-magnitude : (n : ℕ) → n < 10 ^ 18 → magnitude (show_nat 18 n) ≡ some n
unfolding magnitude
show_nat-magnitude n h =
    let (p, q) = length-show_nat 18 n (omega arith) h in
    ground (arith, digits_value-show_nat 18 n (omega arith) h, zero_or_long n h)
  where
    zero_or_long :
        (n : ℕ)
        → n < 10 ^ 18
        → (starts_zero (show_nat 18 n) && ltb 1 (length (show_nat 18 n))) ≡ false
    zero_or_long zero h = rw (show_nat_digit 17 0 (omega arith)) (unfold starts_zero in refl)
    zero_or_long (suc m) h = rw (starts_zero-show_nat 18 (suc m) (omega arith) h)

-- The numeral of an integer, and the only other text for zero.
pub show_int : ℤ → Bytes
show_int (pos n) = show_nat 18 n
show_int (negsuc n) = b'-' ∷ show_nat 18 (suc n)

abbrev pub Denotes : Bytes → ℤ → Type 0
Denotes t v = (t ≡ show_int v) ⊎ ((t ≡ b'-' ∷ b'0' ∷ []) × (v ≡ pos 0))

-- The absolute value has at most eighteen digits.
abbrev pub IsShort : ℤ → Type 0
IsShort v = (pos_part v < 10 ^ 18) × (neg_part v < 10 ^ 18)

negative_Denotes :
    (s : Bytes) (n : ℕ) → magnitude s ≡ some n → Denotes (b'-' ∷ s) (negate n) × IsShort (negate n)
unfolding show_int
negative_Denotes s zero e =
    let (l, q) = magnitude-show_nat s zero e in
    (inr (ap (◌∷◌ b'-') (q ∙ show_nat_digit 17 0 (omega arith)), refl), omega arith)
negative_Denotes s (suc n) e =
    let (l, q) = magnitude-show_nat s (suc n) e in (inl (ap (◌∷◌ b'-') q), omega arith)

positive_Denotes : (s : Bytes) (n : ℕ) → magnitude s ≡ some n → Denotes s (pos n) × IsShort (pos n)
unfolding show_int
positive_Denotes s n e = let (l, q) = magnitude-show_nat s n e in (inl q, omega arith)

sign-true : (t s : Bytes) → sign t ≡ (true, s) → t ≡ b'-' ∷ s
unfolding sign
sign-true [] s e = absurd (ground arith)
sign-true (c ∷ t) s e = ground arith

sign-false : (t s : Bytes) → sign t ≡ (false, s) → t ≡ s
unfolding sign
sign-false [] s e = ground arith
sign-false (c ∷ t) s e = ground arith

by_sign :
    (t s : Bytes) (b : Bool) (n : ℕ)
    → sign t ≡ (b, s)
    → magnitude s ≡ some n
    → Denotes t (if b then negate n else pos n) × IsShort (if b then negate n else pos n)
by_sign t s true n q m = rw (sign-true t s q) (negative_Denotes s n m)
by_sign t s false n q m = rw (sign-false t s q) (positive_Denotes s n m)

signed_value-Denotes : (t : Bytes) (v : ℤ) → signed_value t ≡ some v → Denotes t v × IsShort v
unfolding signed_value
signed_value-Denotes t v e = elim (Option-cases (magnitude (sign t).1)) [
  | inl n ↦ absurd (ground arith)
  | inr (n, m) ↦
      let w : (if (sign t).0 then negate n else pos n) ≡ v = ground arith in
      subst (λ x. Denotes t x × IsShort x) w (by_sign t (sign t).1 (sign t).0 n refl m)
]

-- A text that starts with a digit has no sign.
sign_of_digits :
    (ds : Bytes) (n : ℕ) → 0 < length ds → digits_value 0 ds ≡ some n → sign ds ≡ (false, ds)
unfolding digits_value sign
sign_of_digits [] n l e = absurd (omega arith)
sign_of_digits (c ∷ s) n l e = ground arith

sign_minus : {s : Bytes} → sign (b'-' ∷ s) ≡ (true, s)
unfolding sign
sign_minus = refl

magnitude_zero : magnitude (b'0' ∷ []) ≡ some 0
unfolding magnitude digits_value starts_zero
magnitude_zero = refl

signed_value_of :
    (t s : Bytes) (b : Bool) (n : ℕ)
    → sign t ≡ (b, s)
    → magnitude s ≡ some n
    → signed_value t ≡ some (if b then negate n else pos n)
unfolding signed_value
signed_value_of t s b n q m = ground arith

Denotes-signed_value : (t : Bytes) (v : ℤ) → Denotes t v → IsShort v → signed_value t ≡ some v
unfolding signed_value show_int
Denotes-signed_value t (pos n) (inl d) s =
    let (l, m) = length-show_nat 18 n (omega arith) s.0 in
    let unsigned = sign_of_digits _ n l (digits_value-show_nat 18 n (omega arith) s.0) in
    signed_value_of t (show_nat 18 n) false n (rw d unsigned) (show_nat-magnitude n s.0)
Denotes-signed_value t (negsuc n) (inl d) s =
    signed_value_of t (show_nat 18 (suc n)) true (suc n) (rw d sign_minus)
      (show_nat-magnitude (suc n) s.1)
Denotes-signed_value t v (inr (d, z)) s =
    rw z (signed_value_of t (b'0' ∷ []) true 0 (rw d sign_minus) magnitude_zero)

int_of-eq-ok :
    (lo hi v : ℤ) (t : Bytes)
    → int_of lo hi t ≡ ok v
    → (signed_value t ≡ some v) × (lo ≤ℤ v) × (v ≤ℤ hi)
unfolding int_of
int_of-eq-ok lo hi v t e = elim (Option-cases (signed_value t)) [
  | inl n ↦ absurd (ground arith)
  | inr (w, s) ↦ let same : w ≡ v = ground arith in (s ∙ ap some same, ground arith, ground arith)
]

int_of_in_range :
    (lo hi v : ℤ) (t : Bytes) → signed_value t ≡ some v → lo ≤ℤ v → v ≤ℤ hi → int_of lo hi t ≡ ok v
unfolding int_of
int_of_in_range lo hi v t s l h = rw (s, int_of) (ground arith)

get_int-eq-ok :
    (o : Object) (key : Bytes) (lo hi v : ℤ)
    → get_int o key lo hi ≡ ok v
    → (t : Bytes) × (find key o ≡ some (record { is_string = false; text = t }))
      × (int_of lo hi t ≡ ok v)
unfolding get_int
get_int-eq-ok o key lo hi v e = elim (Option-cases (find key o)) [
  | inl n ↦ absurd (ground arith)
  | inr (w, f) ↦ (w.text, ground arith, ground arith)
]

-- `GetInt` succeeds exactly on an entry that is no string, whose text is the decimal numeral of the
-- result (or "-0" for zero), with at most eighteen digits, and whose value lies within the bounds.
pub get_int_iff :
    (o : Object) (key : Bytes) (lo hi v : ℤ)
    → (get_int o key lo hi ≡ ok v) ↔ (
        (t : Bytes) × (find key o ≡ some (record { is_string = false; text = t }))
        × Denotes t v
        × IsShort v
        × (lo ≤ℤ v)
        × (v ≤ℤ hi))
unfolding get_int
get_int_iff o key lo hi v = (
  λ e.
      let (t, f, i) = get_int-eq-ok o key lo hi v e in
      let (s, l, h) = int_of-eq-ok lo hi v t i in
      let (d, k) = signed_value-Denotes t v s in (t, f, d, k, l, h),
  λ (t, f, d, k, l, h).
      ground (arith, int_of_in_range lo hi v t (Denotes-signed_value t v d k) l h),
)
