-- ===== src/Double.antt =====
-- All that the code does with a `double`: conversions, arithmetic, the functions of `math.h` that it
-- calls, and comparisons. No law of them is assumed.
use jitterentropy_analysis_d.Prelude.{ℕ, ◌+◌, ◌-◌, ◌*◌, ◌/◌, Bool, true, ltb, leb, ◌==◌}
use jitterentropy_analysis_d.Prelude.Int.{ℤ, pos_part}

pub record Double (F : Type 0) : Type 0 where
  -- `(double)n` for an unsigned and for a signed integer, and `(unsigned int)x`
  pub of_nat : ℕ → F
  pub of_int : ℤ → F
  pub to_u32 : F → ℕ
  pub add : F → F → F
  pub sub : F → F → F
  pub mul : F → F → F
  pub div : F → F → F
  pub neg : F → F
  pub pow : F → F → F
  pub fabs : F → F
  pub sqrt : F → F
  pub log2 : F → F
  pub log : F → F
  pub log1p : F → F
  pub lgamma : F → F
  pub exp : F → F
  pub erfc : F → F
  pub ceil : F → F
  pub nan : F
  -- `<`, `<=`, `==` and `isfinite`
  pub lt : F → F → Bool
  pub le : F → F → Bool
  pub eq : F → F → Bool
  pub is_finite : F → Bool

-- The literals of the code, and the operations with the type's instance left out.
module _ {F : Type 0} ⦃d : Double F⦄ where
  abbrev pub lit : ℕ → F
  lit = d.of_nat

  abbrev pub half : F
  half = d.div (d.of_nat 1) (d.of_nat 2)

  infixl 65 ◌⊕◌ ◌⊖◌
  infixl 70 ◌⊗◌ ◌⊘◌
  abbrev pub ◌⊕◌ : F → F → F
  ◌⊕◌ = d.add

  abbrev pub ◌⊖◌ : F → F → F
  ◌⊖◌ = d.sub

  abbrev pub ◌⊗◌ : F → F → F
  ◌⊗◌ = d.mul

  abbrev pub ◌⊘◌ : F → F → F
  ◌⊘◌ = d.div

-- Whole numbers, for the examples; the transcendental functions are left out.
instance abbrev pub whole : Double ℕ
whole = record {
  of_nat = λ n. n;
  of_int = λ n. pos_part n;
  to_u32 = λ n. n;
  add = λ a b. a + b;
  sub = λ a b. a - b;
  mul = λ a b. a * b;
  div = λ a b. a / b;
  neg = λ a. a;
  pow = λ a b. a;
  fabs = λ a. a;
  sqrt = λ a. a;
  log2 = λ a. a;
  log = λ a. a;
  log1p = λ a. a;
  lgamma = λ a. a;
  exp = λ a. a;
  erfc = λ a. a;
  ceil = λ a. a;
  nan = 0;
  lt = ltb;
  le = leb;
  eq = ◌==◌;
  is_finite = λ a. true;
}
