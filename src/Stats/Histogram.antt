-- ===== src/Stats/Histogram.antt =====
-- The byte histogram of app/entropy_stats.c, and the measures that are computed from it.
pub mod Counts
pub mod MinEntropy
use jitterentropy_analysis_d.Prelude.{
  ℕ, ◌+◌, ◌^◌, ◌%◌, Option, none, some, List, [], ◌∷◌, ltb, ◌==◌, if◌then◌else◌, u64, length,
  get_or, set, replicate,
}
use jitterentropy_analysis_d.Double.{Double, lit, half, ◌⊕◌, ◌⊖◌, ◌⊗◌, ◌⊘◌}

abbrev pub bins : ℕ
bins = 256

-- `entropy_histogram`: the counters are `uint64_t`.
pub record Histogram : Type 0 where
  pub counts : List ℕ
  pub total : ℕ

abbrev pub count_byte : List ℕ → ℕ → List ℕ
count_byte counts b = set counts b (u64 (get_or counts b 0 + 1))

-- The loop `out->counts[data[i]]++`.
pub count_bytes : List ℕ → List ℕ → List ℕ
count_bytes counts [] = counts
count_bytes counts (b ∷ rest) = count_bytes (count_byte counts b) rest

-- `entropy_stats_histogram`; `none` is the null pointer.
pub histogram : Option (List ℕ) → Histogram
histogram none = record { counts = replicate bins 0; total = 0 }
histogram (some bytes) = record {
  counts = count_bytes (replicate bins 0) bytes;
  total = length bytes;
}

-- The loop of `entropy_stats_min_entropy`.
pub largest : ℕ → List ℕ → ℕ
largest max_count [] = max_count
largest max_count (c ∷ counts) = largest (if ltb max_count c then c else max_count) counts

-- `entropy_chi_square`
pub record ChiSquare (F : Type 0) : Type 0 where
  pub statistic : F
  pub p_value : F

module _ {F : Type 0} ⦃d : Double F⦄ where
  -- The loop of `entropy_stats_shannon`, which skips the empty bins.
  pub shannon_bits : ℕ → F → List ℕ → F
  shannon_bits total bits [] = bits
  shannon_bits total bits (c ∷ counts) =
      let p = d.of_nat c ⊘ d.of_nat total in
      shannon_bits total (if c == 0 then bits else bits ⊖ p ⊗ d.log2 p) counts

  pub shannon : Histogram → F
  unfolding shannon_bits
  shannon h = if h.total == 0 then lit 0 else shannon_bits h.total (lit 0) h.counts

  pub min_entropy : Histogram → F
  unfolding largest
  min_entropy h =
      if h.total == 0
      then lit 0
      else d.neg (d.log2 (d.of_nat (largest 0 h.counts) ⊘ d.of_nat h.total))

  -- The loop of `entropy_stats_chi_square`.
  pub chi_statistic : F → F → List ℕ → F
  chi_statistic expected statistic [] = statistic
  chi_statistic expected statistic (c ∷ counts) =
      let diff = d.of_nat c ⊖ expected in
      chi_statistic expected (statistic ⊕ diff ⊗ diff ⊘ expected) counts

  -- The Wilson-Hilferty approximation.
  pub chi_p_value : F → F
  chi_p_value statistic =
      let df = d.of_nat 255 in
      let ratio = statistic ⊘ df in
      let term = lit 1 ⊖ lit 2 ⊘ (lit 9 ⊗ df) in
      let denom = d.sqrt (lit 2 ⊘ (lit 9 ⊗ df)) in
      let z = (d.pow ratio (lit 1 ⊘ lit 3) ⊖ term) ⊘ denom in half ⊗ d.erfc (z ⊘ d.sqrt (lit 2))

  pub chi_square : Histogram → ChiSquare F
  unfolding chi_statistic chi_p_value
  chi_square h =
      let s = chi_statistic (d.of_nat h.total ⊘ d.of_nat bins) (lit 0) h.counts in
      if h.total == 0
      then record { statistic = lit 0; p_value = lit 1 }
      else record { statistic = s; p_value = chi_p_value s }
