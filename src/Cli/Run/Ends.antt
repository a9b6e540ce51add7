-- ===== src/Cli/Run/Ends.antt =====
-- How a run of the program ends.
use jitterentropy_analysis_d.Prelude.{
  ℕ, Bool, true, false, none, some, List, if◌then◌else◌, ◌≡◌, ◌≤◌, refl, ◌∙◌, arith, inl, inr,
  Bool-cases, if-elim, ◌==◌, not,
}
use jitterentropy_analysis_d.Prelude.Int.{pos}
use jitterentropy_analysis_d.Double.{Double}
use jitterentropy_analysis_d.Library.{Library}
use jitterentropy_analysis_d.Rng.{Rng, rng_configure, init_rng, get_random_bytes}
use jitterentropy_analysis_d.Rng.Release.{
  rng_configure-collector, shutdown_rng-collector, rng_get_status_json-collector, init_rng-fails,
}
use jitterentropy_analysis_d.Benchmark.{is_zero, run_benchmark}
use jitterentropy_analysis_d.Benchmark.Outcome.{is_zero_ne, run_benchmark-collector}
use jitterentropy_analysis_d.Bridge.Text.{Bytes}
use jitterentropy_analysis_d.Cli.Args.{Options}
use jitterentropy_analysis_d.Cli.Run.{
  Surroundings, Outcome, untouched, write_random_file, wants_file, report_status, deliver,
  generate_and_deliver, benchmark, run_main,
}

-- An exit code of the program, and no collector left.
abbrev pub Ends : {C W F : Type 0} → Outcome C W F → Type 0
Ends e = (e.code ≤ 2) × (e.rng.collector ≡ none)

module _ {C W F : Type 0} ⦃d : Double F⦄ (fixed : ℕ → ℕ → F → Bytes) (lib : Library C W) where
  report_status-collector :
      (b : Bool) (r : Rng C W F) → (report_status fixed lib b r).1.collector ≡ r.collector
  unfolding report_status
  report_status-collector false r = refl
  report_status-collector true r = rng_get_status_json-collector lib false 4096 _

  deliver-Ends :
      (around : Surroundings) (o : Options) (bytes : List ℕ) (r : Rng C W F)
      → Ends (deliver fixed lib around o bytes r)
  unfolding deliver
  deliver-Ends around o bytes r =
      let made =
        if wants_file around o then write_random_file around.disk bytes else (true, untouched) in
      if-elim Ends (not made.0) (omega arith, shutdown_rng-collector lib r)
        (omega arith, shutdown_rng-collector lib (report_status fixed lib o.print_status r).1)

  generate-Ends :
      (around : Surroundings) (o : Options) (r : Rng C W F)
      → r.collector ≡ none
      → Ends (generate_and_deliver fixed lib around o r)
  unfolding generate_and_deliver
  generate-Ends around o r e =
      let made = init_rng lib r in
      let got = get_random_bytes lib true o.random_byte_count made.1 in
      elim (Bool-cases (is_zero made.0)) [
        | inl z ↦
            rw (z, is_zero made.0)
              (if-elim Ends (not (is_zero got.0)) (omega arith, shutdown_rng-collector lib got.2)
                (deliver-Ends around o got.1 got.2))
        | inr z ↦ rw (z, is_zero made.0) (omega arith, init_rng-fails lib r e (is_zero_ne made.0 z))
      ]

  benchmark-Ends :
      (around : Surroundings) (o : Options) (r : Rng C W F)
      → r.collector ≡ none
      → Ends (benchmark fixed lib around o r)
  unfolding benchmark
  benchmark-Ends around o r e =
      let f =
        run_benchmark lib around.benchmark_allocated around.polls o.benchmark_bytes
          (pos o.benchmark_iterations) r in
      (
        if-elim (λ (n : ℕ). n ≤ 2) (is_zero f.code) (omega arith) (omega arith),
        report_status-collector o.print_status f.rng
            ∙ run_benchmark-collector lib around.benchmark_allocated around.polls o.benchmark_bytes
                (pos o.benchmark_iterations) r e,
      )

  -- From a state without a collector, whatever the options and the surroundings and whichever call
  -- fails, `main` exits with 0, 1 or 2 and leaves no collector.
  pub run_main_lem :
      (around : Surroundings) (o : Options) (r : Rng C W F)
      → r.collector ≡ none
      → Ends (run_main fixed lib around o r)
  unfolding run_main
  run_main_lem around o r e =
      let made = rng_configure (some o.settings) r in
      let idle = rng_configure-collector (some o.settings) r ∙ e in
      if-elim Ends (not (is_zero made.0)) (omega arith, idle)
        (if-elim Ends o.run_benchmark_mode (benchmark-Ends around o made.1 idle) (
          if-elim Ends (o.random_byte_count == 0) (omega arith, idle)
            (if-elim Ends (not around.allocated) (omega arith, idle)
              (generate-Ends around o made.1 idle))))
