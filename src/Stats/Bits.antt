-- ===== src/Stats/Bits.antt =====
-- `entropy_stats_monobit` and `entropy_stats_runs` of app/entropy_stats.c. Bits are taken from the
-- lowest one of each byte on. `int64_t` counts of the bits of a buffer are plain numbers: eight times
-- the length of a buffer in memory does not reach 2 ^ 63.
pub mod Sequence
use jitterentropy_analysis_d.Prelude.{
  ℕ, zero, suc, ◌+◌, ◌*◌, ◌/◌, ◌%◌, ◌^◌, Bool, true, false, Option, none, some, List, [], ◌∷◌, ltb,
  ◌==◌, if◌then◌else◌, length,
}
use jitterentropy_analysis_d.Prelude.Int.{sub_ℕ}
use jitterentropy_analysis_d.Double.{Double, lit, half, ◌⊕◌, ◌⊖◌, ◌⊗◌, ◌⊘◌}

-- `(b >> bit) & 1`
abbrev pub bit_at : ℕ → ℕ → ℕ
bit_at b bit = b / 2 ^ bit % 2

-- The inner loop of `entropy_stats_monobit`, with the rounds left.
pub add_bits : ℕ → ℕ → ℕ → ℕ → ℕ
add_bits ones b bit zero = ones
add_bits ones b bit (suc left) = add_bits (ones + bit_at b bit) b (bit + 1) left

pub count_ones : ℕ → List ℕ → ℕ
unfolding add_bits
count_ones ones [] = ones
count_ones ones (b ∷ bytes) = count_ones (add_bits ones b 0 8) bytes

-- `entropy_monobit`
pub record Monobit (F : Type 0) : Type 0 where
  pub bit_total : ℕ
  pub ones : ℕ
  pub statistic : F
  pub p_value : F

-- The variables that the loops of `entropy_stats_runs` change; `none` is a `prev_bit` of -1.
pub record RunState : Type 0 where
  pub run_ones : ℕ
  pub observed : ℕ
  pub prev_bit : Option ℕ

abbrev pub run_bit : RunState → ℕ → RunState
run_bit s bit = record {
  run_ones = s.run_ones + bit;
  observed = elim s.prev_bit [
    | none ↦ 1
    | some prev ↦ if bit == prev then s.observed else s.observed + 1
  ];
  prev_bit = some bit;
}

pub run_bits : RunState → ℕ → ℕ → ℕ → RunState
run_bits s b bit zero = s
run_bits s b bit (suc left) = run_bits (run_bit s (bit_at b bit)) b (bit + 1) left

pub run_bytes : RunState → List ℕ → RunState
unfolding run_bits
run_bytes s [] = s
run_bytes s (b ∷ bytes) = run_bytes (run_bits s b 0 8) bytes

abbrev pub run_start : RunState
run_start = record { run_ones = 0; observed = 0; prev_bit = none }

-- `entropy_runs`
pub record Runs (F : Type 0) : Type 0 where
  pub bit_total : ℕ
  pub ones : ℕ
  pub proportion : F
  pub applicable : Bool
  pub observed_runs : ℕ
  pub p_value : F

module _ {F : Type 0} ⦃d : Double F⦄ where
  pub monobit : List ℕ → Monobit F
  unfolding count_ones
  monobit bytes =
      let bit_total = length bytes * 8 in
      let ones = count_ones 0 bytes in
      let s = d.of_int (sub_ℕ (2 * ones) bit_total) in
      let statistic = d.fabs s ⊘ d.sqrt (d.of_nat bit_total) in
      if bit_total == 0
      then record { bit_total = bit_total; ones = 0; statistic = lit 0; p_value = lit 1 }
      else record {
        bit_total = bit_total;
        ones = ones;
        statistic = statistic;
        p_value = d.erfc (statistic ⊘ d.sqrt (lit 2));
      }

  -- The precondition of the runs test fails.
  pub too_biased : ℕ → F → Bool
  too_biased bit_total pi = d.le (lit 2 ⊘ d.sqrt (d.of_nat bit_total)) (d.fabs (pi ⊖ half))

  pub runs_p_value : ℕ → ℕ → F → F
  runs_p_value bit_total observed pi =
      let n = d.of_nat bit_total in
      let num = d.fabs (d.of_nat observed ⊖ lit 2 ⊗ n ⊗ pi ⊗ (lit 1 ⊖ pi)) in
      let den = lit 2 ⊗ d.sqrt (lit 2 ⊗ n) ⊗ pi ⊗ (lit 1 ⊖ pi) in d.erfc (num ⊘ den)

  pub runs : List ℕ → Runs F
  unfolding run_bytes too_biased runs_p_value
  runs bytes =
      let bit_total = length bytes * 8 in
      let s = run_bytes run_start bytes in
      let pi = d.of_nat s.run_ones ⊘ d.of_nat bit_total in
      let biased = too_biased bit_total pi in
      if ltb bit_total 2
      then record {
        bit_total = bit_total;
        ones = 0;
        proportion = lit 0;
        applicable = false;
        observed_runs = 0;
        p_value = lit 0;
      }
      else record {
        bit_total = bit_total;
        ones = s.run_ones;
        proportion = pi;
        applicable = if biased then false else true;
        observed_runs = s.observed;
        p_value = if biased then lit 0 else runs_p_value bit_total s.observed pi;
      }
