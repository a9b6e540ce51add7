-- ===== src/Examples/Stats.antt =====
-- The statistics at small buffers, with whole numbers for `double`.
use jitterentropy_analysis_d.Prelude.{
  ℕ, ◌*◌, ◌≤◌, ◌<◌, true, false, some, List, [], ◌∷◌, ◌≡◌, refl, ◌↔◌, arith, length, get_or,
}
use jitterentropy_analysis_d.Double.{Double, whole}
use jitterentropy_analysis_d.Stats.Histogram.{histogram}
use jitterentropy_analysis_d.Stats.Histogram.Counts.{count, sum, AreBytes, histogram-count}
use jitterentropy_analysis_d.Stats.Bits.{monobit, runs}
use jitterentropy_analysis_d.Stats.Bits.Sequence.{runs_lem}
use jitterentropy_analysis_d.Stats.Rct.{rct}
use jitterentropy_analysis_d.Stats.Rct.Longest.{HasRun, rct_lem}
use jitterentropy_analysis_d.Stats.CritBinom.{crit_binom}
use jitterentropy_analysis_d.Stats.CritBinom.Quantile.{IsQuantile, crit_binom_lem}
use jitterentropy_analysis_d.Stats.Apt.{apt}
use jitterentropy_analysis_d.Stats.Apt.Windows.{window, first_occurrences, failing, apt_lem}

abbrev data_ : List ℕ
data_ = 7 ∷ 0 ∷ 7 ∷ []

abbrev data_AreBytes : AreBytes data_
data_AreBytes = (omega arith, (omega arith, (omega arith, tt)))

histogram-count_example :
    let h = histogram (some data_) in
    (length h.counts ≡ 256)
    × ((v : ℕ) → v < 256 → get_or h.counts v 0 ≡ count v data_)
    × (sum h.counts ≡ h.total)
    × (h.total ≡ length data_)
histogram-count_example = histogram-count data_ data_AreBytes (omega arith)

runs_lem_example :
    ((monobit {F = ℕ} data_).ones ≡ 6)
    × ((runs {F = ℕ} data_).ones ≡ 6)
    × ((runs {F = ℕ} data_).observed_runs ≡ 4)
    × (1 ≤ (runs {F = ℕ} data_).observed_runs)
    × ((runs {F = ℕ} data_).observed_runs ≤ 24)
runs_lem_example = runs_lem ℕ data_ (omega arith)

abbrev samples : List ℕ
samples = 5 ∷ 5 ∷ 5 ∷ 8 ∷ 9 ∷ []

rct_lem_example :
    ((rct samples 0 2).max_run ≡ 3)
    × (((rct samples 0 2).passed ≡ false) ↔ HasRun (rct samples 0 2).cutoff samples)
rct_lem_example = rct_lem samples 0 2 (omega arith) (omega arith)

-- Thousandths, so that there is a number between 0 and 1.
abbrev thousandths : Double ℕ
thousandths = record whole { of_nat = λ n. 1000 * n }

crit_binom_lem_example :
    IsQuantile ⦃d = thousandths⦄ 3 500 50 3 (crit_binom ⦃d = thousandths⦄ 3 500 50)
crit_binom_lem_example = crit_binom_lem ⦃d = thousandths⦄ 3 500 50 refl refl

apt_lem_example :
    let r = apt samples 2 0 1 in
    (r.windows_tested ≡ 2)
    × (r.windows_failed ≡ failing samples 2 r.cutoff 2)
    × ((r.passed ≡ true) ↔ ((i : ℕ) → i < 2 → first_occurrences (window samples 2 i) < r.cutoff))
apt_lem_example = apt_lem samples 2 2 0 1 refl (omega arith) (omega arith) (omega arith)
