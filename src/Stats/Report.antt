-- ===== src/Stats/Report.antt =====
-- `entropy_stats_serial_correlation` and `entropy_stats_report` of app/entropy_stats.c.
pub mod Counts
use jitterentropy_analysis_d.Prelude.{ℕ, some, List, [], ◌∷◌, ltb, if◌then◌else◌, length, get_or}
use jitterentropy_analysis_d.Double.{Double, lit, ◌⊕◌, ◌⊖◌, ◌⊗◌, ◌⊘◌}
use jitterentropy_analysis_d.Stats.Histogram.{
  histogram, shannon, min_entropy, ChiSquare, chi_square,
}
use jitterentropy_analysis_d.Stats.Bits.{Monobit, monobit, Runs, runs}

-- The sums of the loop.
pub record Sums (F : Type 0) : Type 0 where
  pub sum_xy : F
  pub sum_x : F
  pub sum_x2 : F

-- `entropy_report`
pub record Report (F : Type 0) : Type 0 where
  pub byte_count : ℕ
  pub shannon_bits_per_byte : F
  pub min_entropy_bits_per_byte : F
  pub chi_square_result : ChiSquare F
  pub monobit_result : Monobit F
  pub correlation : F
  pub runs_result : Runs F
  pub counts : List ℕ

module _ {F : Type 0} ⦃d : Double F⦄ where
  -- The loop; the neighbour of the last byte is the first one, `wrap`.
  pub add_products : ℕ → Sums F → List ℕ → Sums F
  add_products wrap s [] = s
  add_products wrap s (x ∷ bytes) =
      let xi = d.of_nat x in
      let xi1 = d.of_nat (get_or bytes 0 wrap) in
      add_products wrap
        record { sum_xy = s.sum_xy ⊕ xi ⊗ xi1; sum_x = s.sum_x ⊕ xi; sum_x2 = s.sum_x2 ⊕ xi ⊗ xi }
        bytes

  pub serial_correlation : List ℕ → F
  unfolding add_products
  serial_correlation bytes =
      let n = d.of_nat (length bytes) in
      let start : Sums F = record { sum_xy = lit 0; sum_x = lit 0; sum_x2 = lit 0 } in
      let s = add_products (get_or bytes 0 0) start bytes in
      let num = n ⊗ s.sum_xy ⊖ s.sum_x ⊗ s.sum_x in
      let den = n ⊗ s.sum_x2 ⊖ s.sum_x ⊗ s.sum_x in
      if ltb (length bytes) 2 then d.nan else (if d.eq den (lit 0) then d.nan else num ⊘ den)

  -- Of data that is not a null pointer.
  pub report : List ℕ → Report F
  unfolding serial_correlation
  report bytes =
      let h = histogram (some bytes) in
      record {
        byte_count = length bytes;
        shannon_bits_per_byte = shannon h;
        min_entropy_bits_per_byte = min_entropy h;
        chi_square_result = chi_square h;
        monobit_result = monobit bytes;
        correlation = serial_correlation bytes;
        runs_result = runs bytes;
        counts = h.counts;
      }
