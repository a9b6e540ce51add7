-- ===== src/Stats/Apt.antt =====
-- `entropy_stats_apt` of app/entropy_stats.c: the Adaptive Proportion Test of SP 800-90B, 4.4.2. The
-- counters are `unsigned int` and wrap. Every round moves `start` on, so that the fuel, one round for
-- each sample, is enough. A null pointer or no samples is an empty list.
pub mod Windows
use jitterentropy_analysis_d.Prelude.{
  ℕ, zero, suc, ◌+◌, ◌-◌, ◌%◌, ◌^◌, Bool, true, false, List, [], ◌∷◌, ltb, leb, ◌==◌, ◌||◌,
  if◌then◌else◌, length, take, drop, u32,
}
use jitterentropy_analysis_d.Double.{Double, lit}
use jitterentropy_analysis_d.Stats.Rct.{normalize_alpha, normalize_h}
use jitterentropy_analysis_d.Stats.CritBinom.{crit_binom}

-- `entropy_apt_result`
pub record AptResult : Type 0 where
  pub window_size : ℕ
  pub cutoff : ℕ
  pub windows_tested : ℕ
  pub windows_failed : ℕ
  pub passed : Bool

-- What the loop over the windows changes.
pub record Tally : Type 0 where
  pub tested : ℕ
  pub failed : ℕ

module _ {F : Type 0} ⦃d : Double F⦄ where
  -- The inner loop: how often `first` occurs in the window.
  pub count_equal : F → ℕ → List F → ℕ
  count_equal first count [] = count
  count_equal first count (x ∷ window) =
      let found = count_equal first (u32 (count + 1)) window in
      let other = count_equal first count window in if d.eq x first then found else other

  pub window_count : List F → ℕ
  unfolding count_equal
  window_count [] = 0
  window_count (first ∷ window) = count_equal first 0 (first ∷ window)

  abbrev pub test_window : ℕ → Tally → List F → Tally
  test_window cutoff t window = record {
    tested = u32 (t.tested + 1);
    failed = if leb cutoff (window_count window) then u32 (t.failed + 1) else t.failed;
  }

  pub apt_loop : ℕ → List F → ℕ → ℕ → ℕ → Tally → Tally
  unfolding window_count
  apt_loop zero samples size cutoff start t = t
  apt_loop (suc fuel) samples size cutoff start t =
      let window = take size (drop start samples) in
      let rest = apt_loop fuel samples size cutoff (start + size) (test_window cutoff t window) in
      if leb (start + size) (length samples) then rest else t

  pub apt_cutoff : ℕ → F → F → ℕ
  apt_cutoff size alpha h_bits =
      let p = d.pow (lit 2) (d.neg (normalize_h h_bits)) in
      u32 (1 + crit_binom size p (normalize_alpha alpha))

  pub apt : List F → ℕ → F → F → AptResult
  unfolding apt_loop apt_cutoff
  apt samples window_size alpha h_bits =
      let size = if window_size == 0 then 512 else window_size in
      let cutoff = apt_cutoff size alpha h_bits in
      let t = apt_loop (length samples) samples size cutoff 0 (record { tested = 0; failed = 0 }) in
      if length samples == 0 || ltb (length samples) size
      then record {
        window_size = size;
        cutoff = cutoff;
        windows_tested = 0;
        windows_failed = 0;
        passed = true;
      }
      else record {
        window_size = size;
        cutoff = cutoff;
        windows_tested = t.tested;
        windows_failed = t.failed;
        passed = t.failed == 0;
      }
