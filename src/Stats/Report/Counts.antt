-- ===== src/Stats/Report/Counts.antt =====
-- The counts of a report.
use jitterentropy_analysis_d.Prelude.{ℕ, ◌<◌, ◌^◌, List, ◌≡◌, ◌∙◌, length}
use jitterentropy_analysis_d.Double.{Double}
use jitterentropy_analysis_d.Stats.Histogram.Counts.{AreBytes, sum, histogram-count}
use jitterentropy_analysis_d.Stats.Report.{Report, report}

module _ (F : Type 0) ⦃d : Double F⦄ where
  -- They are 256 and add up to the number of bytes.
  pub report-counts :
      (bytes : List ℕ)
      → AreBytes bytes
      → length bytes < 2 ^ 64
      → let r : Report F = report bytes in (length r.counts ≡ 256) × (sum r.counts ≡ r.byte_count)
  unfolding report
  report-counts bytes a small =
      let (width, each, all, total) = histogram-count bytes a small in (width, all ∙ total)
