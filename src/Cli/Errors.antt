-- ===== src/Cli/Errors.antt =====
-- What the command line prints on its error output: `print_usage`, the messages of `main`, and those of
-- `run_benchmark`.
pub mod Told
use jitterentropy_analysis_d.Prelude.{ℕ, List, [], ◌∷◌, ◌++◌}
use jitterentropy_analysis_d.Prelude.Int.{ℤ}
use jitterentropy_analysis_d.Print.{decimal, signed_decimal}
use jitterentropy_analysis_d.Benchmark.{Notice, silent, init_failure, generation_failure, table}
use jitterentropy_analysis_d.Bridge.Text.{Bytes}
use jitterentropy_analysis_d.Bridge.Getters.{codes}
use jitterentropy_analysis_d.Cli.Text.{lines}

-- `print_usage`
pub usage : Bytes → Bytes
unfolding lines
usage program_name = lines (
    (codes "Usage: " ++ program_name ++ codes " [options]")
    ∷ codes "Options:"
    ∷ codes "  --bytes N             Generate N random bytes (default: 32)"
    ∷ codes "  --write               Write raw bytes to random.bin"
    ∷ codes "  --prompt-write        Ask whether to write raw bytes to random.bin"
    ∷ codes "  --benchmark [N I]     Benchmark N bytes per call for I iterations"
    ∷ codes "  --status              Print health status and library status (JSON) before exit"
    ∷ codes "  --stats               Print entropy analysis of the generated bytes"
    ∷ codes
        "  --osr N               Oversampling rate passed to the collector (default: library choice)"
    ∷ codes "  --force-fips          Enforce full SP800-90B compliance (JENT_FORCE_FIPS)"
    ∷ codes "  --ntg1                Enforce AIS 20/31 NTG.1 compliance (JENT_NTG1)"
    ∷ codes "  --no-memory-access    Disable memory access noise source (less entropy, less RAM)"
    ∷ codes "  --help                Show this help"
    ∷ [])

-- The messages of `main`, each a line.
pub data Message : Type 0 where
  settings_failed init_failed generation_failed : ℤ → Message
  allocation_failed : ℕ → Message
  no_bytes_asked write_failed : Message

pub message_text : Message → Bytes
message_text (settings_failed code) = codes "Failed to apply RNG settings: " ++ signed_decimal code
message_text (init_failed code) = codes "Failed to initialize RNG: " ++ signed_decimal code
message_text (generation_failed code) =
    codes "Failed to generate random bytes: " ++ signed_decimal code
message_text (allocation_failed n) = codes "Failed to allocate " ++ decimal n ++ codes " bytes"
message_text no_bytes_asked = codes "--bytes must be greater than zero"
message_text write_failed = codes "Failed to write random.bin"

-- With the end of the line.
pub message : Message → Bytes
unfolding lines message_text
message m = lines (message_text m ∷ [])

pub benchmark_errors : Notice → Bytes
unfolding lines
benchmark_errors silent = []
benchmark_errors (init_failure ret) =
    lines ((codes "benchmark init_rng failed: " ++ signed_decimal ret) ∷ [])
benchmark_errors (generation_failure i ret) = lines (
    (codes "benchmark generation failed at iteration "
      ++ decimal i
      ++ codes ": "
      ++ signed_decimal ret)
    ∷ [])
benchmark_errors (table cancelled) = []
