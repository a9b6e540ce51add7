-- ===== src/Examples/Cli.antt =====
-- Runs of the program for the command line.
use jitterentropy_analysis_d.Prelude.{
  inl, length, ℕ, none, ◌⊎◌, true, false, List, [], ◌∷◌, ◌≡◌, refl, ◌↔◌, arith,
}
use jitterentropy_analysis_d.Prelude.Int.{pos}
use jitterentropy_analysis_d.Double.{whole}
use jitterentropy_analysis_d.Rng.{settings_defaults}
use jitterentropy_analysis_d.Rng.Started.{Starts}
use jitterentropy_analysis_d.Rng.Journal.{log_of}
use jitterentropy_analysis_d.Benchmark.{run_benchmark}
use jitterentropy_analysis_d.Bridge.Text.{Bytes}
use jitterentropy_analysis_d.Bridge.Object.{equal}
use jitterentropy_analysis_d.Bridge.Getters.{codes}
use jitterentropy_analysis_d.Cli.Args.{
  go, digits, parse_size, skip_space, positive_part, parse_int, with_size, with_benchmark, Options,
  default_options, parse_args,
}
use jitterentropy_analysis_d.Cli.Args.RoundTrip.{spelled, parse_args-spelled}
use jitterentropy_analysis_d.Cli.Args.Ranges.{InRange}
use jitterentropy_analysis_d.Cli.Run.{Surroundings, program}
use jitterentropy_analysis_d.Cli.Run.Ends.{Ends}
use jitterentropy_analysis_d.Cli.Run.Whole.{program_lem, program_benchmark}
use jitterentropy_analysis_d.Cli.Run.Delivered.{Delivered}
use jitterentropy_analysis_d.Cli.Run.Shows.{Quiet, program_shows}
use jitterentropy_analysis_d.Cli.Run.Works.{program_works}
use jitterentropy_analysis_d.Print.{decimal, padded}
use jitterentropy_analysis_d.Examples.Rng.{
  zeros, before, zeros-Delivers, zeros-Answers, zeros-PutsBytes, zeros-Journal,
}

-- A number, without the decimals.
abbrev show : ℕ → ℕ → ℕ → Bytes
show width precision x = padded width (decimal x)

abbrev surroundings : Surroundings
surroundings = record {
  benchmark_allocated = true;
  allocated = true;
  polls = λ i. false;
  answer = none;
  disk = record { opened = true; room = 100; closed = true };
  program_name = codes "jitter";
}

-- --benchmark 64 10 --osr 3
abbrev arguments : List Bytes
arguments = codes "--benchmark" ∷ codes "64" ∷ codes "10" ∷ codes "--osr" ∷ codes "3" ∷ []

-- --bytes 4 --help --writ
abbrev help : List Bytes
help = codes "--bytes" ∷ codes "4" ∷ codes "--help" ∷ codes "--writ" ∷ []

program_lem_example : Ends (program show zeros surroundings help before)
program_lem_example = program_lem show zeros surroundings help before refl

-- The options of `arguments`.
abbrev benchmark_asked : Options
benchmark_asked = record default_options {
  benchmark_bytes = 64;
  benchmark_iterations = 10;
  run_benchmark_mode = true;
  settings = record settings_defaults { osr = 3 };
}

program_benchmark_example :
    let f =
      run_benchmark zeros true
        (λ i. false)
        64
        (pos 10)
        (record before { settings = record settings_defaults { osr = 3 } }) in
    ((program show zeros surroundings arguments before).code ≡ 0)
    ↔ (f.out.completed_iterations ≡ 10)
unfolding parse_args with_size with_benchmark parse_size parse_int digits positive_part skip_space
    equal
program_benchmark_example =
    program_benchmark show zeros surroundings arguments benchmark_asked before refl refl refl refl
      (omega arith) (omega arith)

abbrev zeros-Starts : Starts zeros
zeros-Starts osr flags w = (refl, ((osr, flags), refl))

-- --bytes 40 --write
abbrev bytes_asked : List Bytes
bytes_asked = codes "--bytes" ∷ codes "40" ∷ codes "--write" ∷ []

abbrev forty_bytes : Options
forty_bytes = record default_options { random_byte_count = 40; write_output = true }

program_works_example :
    Delivered show zeros log_of surroundings forty_bytes before
      (program show zeros surroundings bytes_asked before)
unfolding parse_args with_size with_benchmark parse_size parse_int digits positive_part skip_space
    equal
program_works_example =
    program_works show zeros log_of surroundings bytes_asked forty_bytes before refl refl
      (omega arith) refl refl zeros-Starts zeros-Delivers zeros-Answers zeros-PutsBytes
      zeros-Journal

program_shows_example :
    let e = program show zeros surroundings bytes_asked before in
    Quiet e ⊎ Delivered show zeros log_of surroundings forty_bytes before e
unfolding parse_args with_size with_benchmark parse_size parse_int digits positive_part skip_space
    equal
program_shows_example =
    program_shows show zeros log_of surroundings bytes_asked forty_bytes before refl refl
      zeros-Delivers zeros-PutsBytes zeros-Journal

abbrev benchmark_asked-InRange : InRange benchmark_asked
benchmark_asked-InRange = record {
  bytes_fit = omega arith;
  per_call_fit = omega arith;
  some_rounds = omega arith;
  rounds_fit = omega arith;
  rate_fit = omega arith;
}

parse_args-spelled_example :
    parse_args (length (spelled benchmark_asked)) (spelled benchmark_asked) default_options
    ≡ go benchmark_asked
parse_args-spelled_example = parse_args-spelled benchmark_asked benchmark_asked-InRange (inl refl)
