-- ===== src/Cli/Run/Whole.antt =====
-- Runs of the whole program, arguments included.
use jitterentropy_analysis_d.Prelude.{
  ℕ, true, false, none, some, List, ◌≡◌, ◌<◌, ◌*◌, ◌^◌, ◌↔◌, inl, inr, refl, arith, length,
  Bool-cases, if◌then◌else◌, subst,
}
use jitterentropy_analysis_d.Prelude.Int.{ℤ, pos}
use jitterentropy_analysis_d.Double.{Double}
use jitterentropy_analysis_d.Library.{Library}
use jitterentropy_analysis_d.Rng.{Rng, rng_configure}
use jitterentropy_analysis_d.Rng.Release.{rng_configure_idle}
use jitterentropy_analysis_d.Benchmark.{is_zero, run_benchmark}
use jitterentropy_analysis_d.Benchmark.Outcome.{is_zero_lem, is_zero_ne, run_benchmark_lem}
use jitterentropy_analysis_d.Bridge.Text.{Bytes}
use jitterentropy_analysis_d.Cli.Args.{Options, Parsed, go, exit, default_options, parse_args}
use jitterentropy_analysis_d.Cli.Args.Ranges.{
  InRange, Fine, default_options-InRange, parse_args_lem,
}
use jitterentropy_analysis_d.Cli.Run.{Surroundings, benchmark, run_main, run_parsed, program}
use jitterentropy_analysis_d.Cli.Run.Ends.{Ends, run_main_lem}

parse_args-InRange :
    (args : List Bytes) (o : Options)
    → parse_args (length args) args default_options ≡ go o
    → InRange o
parse_args-InRange args o e =
    subst Fine e (parse_args_lem (length args) args default_options default_options-InRange)

code_iff : (z : ℤ) → (if◌then◌else◌ {A = ℕ} (is_zero z) 0 1 ≡ 0) ↔ (z ≡ pos 0)
code_iff z = elim (Bool-cases (is_zero z)) [
  | inl h ↦ rw (h, is_zero z) (λ e. is_zero_lem z h, λ e. refl)
  | inr h ↦ rw (h, is_zero z) (λ e. cc, λ e. absurd (is_zero_ne z h e))
]

module _ {C W F : Type 0} ⦃d : Double F⦄ (fixed : ℕ → ℕ → F → Bytes) (lib : Library C W) where
  run_parsed-Ends :
      (around : Surroundings) (p : Parsed) (r : Rng C W F)
      → Fine p
      → r.collector ≡ none
      → Ends (run_parsed fixed lib around p r)
  unfolding run_parsed
  run_parsed-Ends around (go o) r fine e = run_main_lem fixed lib around o r e
  run_parsed-Ends around (exit n) r (inl z) e = (omega (arith, z), e)
  run_parsed-Ends around (exit n) r (inr z) e = (omega (arith, z), e)

  -- Whatever the arguments and the surroundings and whichever call fails, a run of the program that
  -- starts without a collector exits with 0, 1 or 2 and leaves no collector.
  pub program_lem :
      (around : Surroundings) (args : List Bytes) (r : Rng C W F)
      → r.collector ≡ none
      → Ends (program fixed lib around args r)
  unfolding program
  program_lem around args r e =
      run_parsed-Ends around (parse_args (length args) args default_options) r
        (parse_args_lem (length args) args default_options default_options-InRange) e

  run_main-benchmark :
      (around : Surroundings) (o : Options) (r : Rng C W F)
      → r.collector ≡ none
      → o.run_benchmark_mode ≡ true
      → run_main fixed lib around o r
        ≡ benchmark fixed lib around o (rng_configure (some o.settings) r).1
  unfolding run_main
  run_main-benchmark around o r e b =
      rw (rng_configure_idle (some o.settings) r e, b, o.run_benchmark_mode) refl

  benchmark_code :
      (around : Surroundings) (o : Options) (r : Rng C W F)
      → InRange o
      → around.benchmark_allocated ≡ true
      → 0 < o.benchmark_bytes
      → o.benchmark_bytes * o.benchmark_iterations < 2 ^ 64
      → let f =
          run_benchmark lib true around.polls o.benchmark_bytes (pos o.benchmark_iterations) r in
        ((benchmark fixed lib around o r).code ≡ 0)
        ↔ (f.out.completed_iterations ≡ o.benchmark_iterations)
  unfolding benchmark
  benchmark_code around o r range allocated some_bytes fits =
      let f =
        run_benchmark lib true around.polls o.benchmark_bytes (pos o.benchmark_iterations) r in
      let (all, most, total, idle) =
        run_benchmark_lem lib around.polls o.benchmark_bytes o.benchmark_iterations r some_bytes
          range.some_rounds fits in
      let (have, need) = code_iff f.code in
      rw (allocated, around.benchmark_allocated) (λ h. all.0 (have h), λ h. need (all.1 h))

  -- Arguments that ask for a benchmark of one byte per call or more, in all fewer than 2^64 bytes, with
  -- memory for its buffer and no collector before: the program exits with 0 exactly if the benchmark,
  -- run with the settings that the arguments ask for, completes all iterations that they ask for.
  pub program_benchmark :
      (around : Surroundings) (args : List Bytes) (o : Options) (r : Rng C W F)
      → parse_args (length args) args default_options ≡ go o
      → o.run_benchmark_mode ≡ true
      → r.collector ≡ none
      → around.benchmark_allocated ≡ true
      → 0 < o.benchmark_bytes
      → o.benchmark_bytes * o.benchmark_iterations < 2 ^ 64
      → let f =
          run_benchmark lib true around.polls o.benchmark_bytes
            (pos o.benchmark_iterations)
            (record r { settings = o.settings; self_test_complete = false }) in
        ((program fixed lib around args r).code ≡ 0)
        ↔ (f.out.completed_iterations ≡ o.benchmark_iterations)
  unfolding program run_parsed
  program_benchmark around args o r e b idle allocated some_bytes fits =
      rw (e, program)
        (rw (run_main-benchmark around o r idle b, rng_configure_idle (some o.settings) r idle)
          (benchmark_code around o (record r { settings = o.settings; self_test_complete = false })
            (parse_args-InRange args o e) allocated some_bytes fits))
