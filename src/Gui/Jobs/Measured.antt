-- ===== src/Gui/Jobs/Measured.antt =====
-- What a "benchmark" job reports.
use jitterentropy_analysis_d.Prelude.{
  ℕ, ◌*◌, ◌≤◌, ◌<◌, ◌^◌, true, none, [], Bool, ◌≡◌, ◌↔◌, refl, arith,
}
use jitterentropy_analysis_d.Prelude.Int.{pos}
use jitterentropy_analysis_d.Double.{Double}
use jitterentropy_analysis_d.Library.{Library}
use jitterentropy_analysis_d.Rng.{Rng, read_counter}
use jitterentropy_analysis_d.Benchmark.Outcome.{run_benchmark_lem}
use jitterentropy_analysis_d.Gui.State.{measuring}
use jitterentropy_analysis_d.Gui.Messages.Ranges.{InRange}
use jitterentropy_analysis_d.Gui.Jobs.{benchmark_work}
use native.Mathlib.Nat.{mul-le-mul}

module _ {C W F : Type 0} ⦃d : Double F⦄ (lib : Library C W) where
  -- For a "benchmark" job of sizes that a message can ask for, with memory for the buffer: the status
  -- is 0 exactly if all iterations were completed, no more than those are reported, the page gets no
  -- bytes, and no collector is left.
  pub benchmark_work_lem :
      (polls : ℕ → Bool) (n k : ℕ) (r : Rng C W F)
      → InRange (measuring n k)
      → let w = benchmark_work lib true polls n k r in
        ((w.payload.status ≡ pos 0) ↔ (w.payload.iterations ≡ k))
        × (w.payload.iterations ≤ k)
        × (w.payload.hex_data ≡ [])
        × (w.payload.stats ≡ none)
        × (w.rng.collector ≡ none)
  unfolding benchmark_work
  benchmark_work_lem polls n k r (some_bytes, few_bytes, some_rounds, few_rounds) =
      let (t, r0) = read_counter lib r in
      let (t', r1) = read_counter lib r0 in
      let (t'', r2) = read_counter lib r1 in
      let fits : n * k < 2 ^ 64 = omega (arith, mul-le-mul few_bytes few_rounds) in
      let (code, most, total, freed) =
        run_benchmark_lem lib polls n k r2 (omega arith) (omega arith) fits in
      (code, most, refl, refl, freed)
