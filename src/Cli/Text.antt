-- ===== src/Cli/Text.antt =====
-- What the command line prints on its standard output: `print_entropy_report` and the other output of
-- `main`, `health_monitor_print_report`, and the table of `run_benchmark`. How `printf` writes a `double`
-- with a width and a precision is an argument.
use jitterentropy_analysis_d.Prelude.{ℕ, Bool, List, [], ◌∷◌, ◌++◌, ltb, not, if◌then◌else◌}
use jitterentropy_analysis_d.Double.{Double, lit, ◌⊗◌, ◌⊘◌}
use jitterentropy_analysis_d.Print.{decimal, signed_decimal, hex, hex_number, padded}
use jitterentropy_analysis_d.Monitor.{HealthStats}
use jitterentropy_analysis_d.Stats.Report.{Report}
use jitterentropy_analysis_d.Benchmark.{
  BenchmarkResult, Finished, silent, init_failure, generation_failure, table,
}
use jitterentropy_analysis_d.Bridge.Text.{Bytes}
use jitterentropy_analysis_d.Bridge.Getters.{codes}

-- The lines, each with its end.
unfoldable pub lines : List Bytes → Bytes
lines [] = []
lines (l ∷ ls) = l ++ (b'\n' ∷ lines ls)

-- The bytes with "%02x".
unfoldable pub hex_line : List ℕ → Bytes
unfolding hex
hex_line bytes = hex bytes ++ (b'\n' ∷ [])

-- `? "yes" : "no"`
abbrev yes_no : Bool → Bytes
yes_no b = if b then codes "yes" else codes "no"

abbrev rule : Bytes
rule = codes "+--------------------------------+----------------------+"

abbrev table_rule : Bytes
table_rule = codes "+----------------------------+----------------------+"

module _ {F : Type 0} ⦃d : Double F⦄ (fixed : ℕ → ℕ → F → Bytes) where
  -- A row with a number, and what follows the number.
  abbrev row : Bytes → ℕ → ℕ → F → Bytes → Bytes
  row label width precision x unit =
      codes "| " ++ label ++ codes " | " ++ fixed width precision x ++ unit ++ codes " |"

  -- `print_entropy_report`; a number is not a number if it is not equal to itself.
  pub entropy_text : Report F → Bytes
  unfolding lines
  entropy_text r = lines (
      []
      ∷ (codes "Entropy analysis (" ++ decimal r.byte_count ++ codes " bytes)")
      ∷ rule
      ∷ row (codes "Shannon entropy               ") 15 4 r.shannon_bits_per_byte (codes " bits/B")
      ∷ row (codes "Min-entropy                   ") 15 4 r.min_entropy_bits_per_byte
          (codes " bits/B")
      ∷ row (codes "Chi-square statistic (df=255) ") 20 2 r.chi_square_result.statistic []
      ∷ row (codes "Chi-square p-value            ") 20 4 r.chi_square_result.p_value []
      ∷ row (codes "Monobit p-value (SP800-22 2.1)") 20 4 r.monobit_result.p_value []
      ∷ (if r.runs_result.applicable
          then row (codes "Runs p-value (SP800-22 2.3)   ") 20 4 r.runs_result.p_value []
          else codes "| Runs test                      |    not applicable   |")
      ∷ (if not (d.eq r.correlation r.correlation)
          then codes "| Serial correlation (lag-1)     |    undefined (n<2)  |"
          else row (codes "Serial correlation (lag-1)    ") 20 4 r.correlation [])
      ∷ rule
      ∷ codes "A p-value below ~0.01 flags a deviation from randomness worth investigating;"
      ∷ codes "it is not proof the source is compromised, and passing is not proof it is safe."
      ∷ [])

  -- `health_monitor_print_report` of a snapshot
  pub health_text : HealthStats F → Bytes
  unfolding lines
  health_text s = lines (
      codes "RNG health status"
      ∷ (codes "  initialized: " ++ yes_no s.initialized)
      ∷ (codes "  total bytes generated: " ++ decimal s.total_bytes_generated)
      ∷ (codes "  generation calls: " ++ decimal s.generation_call_count)
      ∷ (codes "  failures: " ++ decimal s.failure_count)
      ∷ (codes "  last error code: " ++ signed_decimal s.last_error_code)
      ∷ (codes "  cumulative generation time: "
          ++ fixed 0 9 s.cumulative_generation_seconds
          ++ codes " s")
      ∷ (codes "  average latency: " ++ fixed 0 9 s.average_latency_seconds ++ codes " s/call")
      ∷ (codes "  throughput: " ++ fixed 0 2 s.throughput_bytes_per_second ++ codes " bytes/s")
      ∷ (codes "  FIPS/NTG.1 health-test failures: "
          ++ decimal s.fips_failure_count
          ++ codes " (last mask: 0x"
          ++ hex_number s.last_fips_failure_mask
          ++ codes ")")
      ∷ [])

  -- The table of a benchmark, and whether it was cancelled.
  pub summary_text : ℕ → BenchmarkResult F → Bool → Bytes
  unfolding lines
  summary_text bytes_per_call res cancelled =
      let latency =
        if ltb 0 res.completed_iterations
        then res.generation_seconds ⊘ d.of_nat res.completed_iterations
        else lit 0 in
      let mib_per_second =
        if d.lt (lit 0) res.generation_seconds
        then d.of_nat res.total_bytes ⊘ (lit 1024 ⊗ lit 1024) ⊘ res.generation_seconds
        else lit 0 in
      let number = λ (label : Bytes) (n : ℕ).
        codes "| " ++ label ++ codes " | " ++ padded 20 (decimal n) ++ codes " |" in
      lines (
        []
        ∷ codes "Benchmark summary"
        ∷ table_rule
        ∷ codes "| metric                     | value                |"
        ∷ table_rule
        ∷ row (codes "init + collector time     ") 18 9 res.init_seconds (codes " s")
        ∷ number (codes "bytes per generation call ") bytes_per_call
        ∷ number (codes "iterations completed      ") res.completed_iterations
        ∷ number (codes "total generated           ") res.total_bytes
        ∷ row (codes "total generation time     ") 18 9 res.generation_seconds (codes " s")
        ∷ row (codes "average latency           ") 18 9 latency (codes " s")
        ∷ row (codes "throughput                ") 16 3 mib_per_second (codes " MiB/s")
        ∷ table_rule
        ∷ (if cancelled then codes "Benchmark cancelled cooperatively." ∷ [] else []))

  -- What `run_benchmark` prints on the standard output.
  pub benchmark_text : {C W : Type 0} → ℕ → Finished C W F → Bytes
  unfolding summary_text
  benchmark_text bytes_per_call f = elim f.notice [
    | silent ↦ []
    | init_failure ret ↦ []
    | generation_failure i ret ↦ []
    | table cancelled ↦ summary_text bytes_per_call f.out cancelled
  ]
