-- ===== src/Gui/Jobs/Named.antt =====
-- Every job ends in a result with its name.
use jitterentropy_analysis_d.Prelude.{ℕ, Bool, true, none, ◌≡◌, refl, ltb, ◌&&◌, if-elim}
use jitterentropy_analysis_d.Double.{Double}
use jitterentropy_analysis_d.Monitor.{Tick}
use jitterentropy_analysis_d.Library.{Library}
use jitterentropy_analysis_d.Rng.{Rng, init_rng, read_counter}
use jitterentropy_analysis_d.Benchmark.{is_zero}
use jitterentropy_analysis_d.Bridge.Text.{Bytes}
use jitterentropy_analysis_d.Bridge.Getters.{codes}
use jitterentropy_analysis_d.Gui.State.{Payload}
use jitterentropy_analysis_d.Gui.Jobs.{Work, generate_into_buffer, generate_work, benchmark_work}

abbrev pub IsResultOf : {F : Type 0} → Bytes → Payload F → Type 0
IsResultOf name p = (p.valid ≡ true) × (p.action ≡ name)

module _ {C W F : Type 0} ⦃d : Double F⦄ (lib : Library C W) where
  pub generate_work-IsResultOf :
      (allocated : Bool) (polls : ℕ → Bool) (base : Tick) (n : ℕ) (r : Rng C W F)
      → IsResultOf (codes "generate") (generate_work lib allocated polls base n r).payload
  unfolding generate_work generate_into_buffer
  generate_work-IsResultOf allocated polls base n r =
      let P : Work C W F → Type 0 = λ w. IsResultOf (codes "generate") w.payload in
      if-elim P (is_zero (init_rng lib (read_counter lib r).1).0 && ltb 0 n)
        (if-elim P allocated (refl, refl) (refl, refl)) (refl, refl)

  pub benchmark_work-IsResultOf :
      (allocated : Bool) (polls : ℕ → Bool) (n k : ℕ) (r : Rng C W F)
      → IsResultOf (codes "benchmark") (benchmark_work lib allocated polls n k r).payload
  unfolding benchmark_work
  benchmark_work-IsResultOf allocated polls n k r = (refl, refl)

  pub benchmark_work-stats :
      (allocated : Bool) (polls : ℕ → Bool) (n k : ℕ) (r : Rng C W F)
      → (benchmark_work lib allocated polls n k r).payload.stats ≡ none
  unfolding benchmark_work
  benchmark_work-stats allocated polls n k r = refl
