-- ===== src/Cli/Run.antt =====
-- `main` of app/main.c: its exit code, its two outputs, the file that it writes and the state it leaves.
pub mod Ends
pub mod Whole
pub mod Delivered
pub mod Shows
pub mod Works
use jitterentropy_analysis_d.Prelude.{
  ℕ, Bool, true, false, Option, none, some, List, [], ◌∷◌, ◌++◌, ◌==◌, ◌&&◌, ◌||◌, not, min,
  if◌then◌else◌, length,
}
use jitterentropy_analysis_d.Prelude.Int.{ℤ, pos}
use jitterentropy_analysis_d.Double.{Double}
use jitterentropy_analysis_d.Monitor.{HealthStats, health_snapshot}
use jitterentropy_analysis_d.Library.{Library}
use jitterentropy_analysis_d.Rng.{
  Rng, rng_configure, epoch_reading, init_rng, shutdown_rng, get_random_bytes, rng_get_status_json,
}
use jitterentropy_analysis_d.Stats.Report.{report}
use jitterentropy_analysis_d.Benchmark.{is_zero, run_benchmark}
use jitterentropy_analysis_d.Bridge.Text.{Bytes}
use jitterentropy_analysis_d.Bridge.Getters.{codes}
use jitterentropy_analysis_d.Cli.Args.{Options, Parsed, go, exit, default_options, parse_args}
use jitterentropy_analysis_d.Cli.Errors.{
  usage, settings_failed, init_failed, generation_failed, allocation_failed, no_bytes_asked,
  write_failed, message, benchmark_errors,
}
use jitterentropy_analysis_d.Cli.Text.{hex_line, entropy_text, health_text, benchmark_text}

-- What `write_random_file` meets: whether `fopen` succeeds, how many bytes `fwrite` can write, and
-- whether `fclose` succeeds.
pub record Disk : Type 0 where
  pub opened : Bool
  pub room : ℕ
  pub closed : Bool

-- What becomes of random.bin. After a failure of `fwrite` or `fclose` its content is not known.
pub data File : Type 0 where
  untouched spoilt : File
  holding : List ℕ → File

-- What the run meets: whether the two calls of `malloc` succeed, the cancel flag of a benchmark (which
-- only the GUI sets), the answer to the prompt (`none` if `fgets` fails), the disk, and the program's name in
-- its first argument.
pub record Surroundings : Type 0 where
  pub benchmark_allocated : Bool
  pub allocated : Bool
  pub polls : ℕ → Bool
  pub answer : Option Bytes
  pub disk : Disk
  pub program_name : Bytes

-- What the run leaves. `out` and `err` are the standard and the error output.
pub record Outcome (C W F : Type 0) : Type 0 where
  pub code : ℕ
  pub out : Bytes
  pub err : Bytes
  pub file : File
  pub rng : Rng C W F

-- `write_random_file`: whether it succeeds, and the file.
pub write_random_file : Disk → List ℕ → Bool × File
write_random_file disk bytes =
    if not disk.opened
    then (false, untouched)
    else if not (min disk.room (length bytes) == length bytes)
    then (false, spoilt)
    else if not disk.closed
    then (false, spoilt)
    else (true, holding bytes)

-- The answer of `should_prompt_write`
abbrev pub says_yes : Option Bytes → Bool
says_yes none = false
says_yes (some []) = false
says_yes (some (c ∷ line)) = c == b'y' || c == b'Y'

abbrev pub prompt : Bytes
prompt = codes "Write raw bytes to random.bin? [y/N]: "

-- Whether the prompt is shown, and whether a file is wanted.
abbrev pub prompts : Options → Bool
prompts o = o.prompt_write && not o.write_output

abbrev pub wants_file : Surroundings → Options → Bool
wants_file around o = if prompts o then says_yes around.answer else o.write_output

module _ {C W F : Type 0} ⦃d : Double F⦄ (fixed : ℕ → ℕ → F → Bytes) (lib : Library C W) where
  -- The snapshot that `health_monitor_print_report` prints.
  abbrev snapshot_of : Rng C W F → HealthStats F × Rng C W F
  snapshot_of r =
      let (t, w) = epoch_reading lib r in
      let (s, m) = health_snapshot t r.monitor in (s, record r { monitor = m; world = w })

  -- `--status`: both reports
  pub report_status : Bool → Rng C W F → Bytes × Rng C W F
  report_status false r = ([], r)
  report_status true r =
      let (s, r1) = snapshot_of r in
      let ((ret, answer), r2) = rng_get_status_json lib false 4096 r1 in
      let status =
        if is_zero ret
        then codes "\nLibrary status:\n" ++ elim answer [ none ↦ [] | some text ↦ text ]
        else [] in
      (health_text fixed s ++ status, r2)

  -- With the bytes in the buffer.
  pub deliver : Surroundings → Options → List ℕ → Rng C W F → Outcome C W F
  unfolding report_status
  deliver around o bytes r =
      let shown = hex_line bytes ++ (if prompts o then prompt else []) in
      let (ok, file) =
        if wants_file around o then write_random_file around.disk bytes else (true, untouched) in
      let stats = if o.print_stats then entropy_text fixed (report bytes) else [] in
      let (status, r1) = report_status o.print_status r in
      if not ok
      then record {
        code = 1;
        out = shown;
        err = message write_failed;
        file = file;
        rng = shutdown_rng lib r;
      }
      else record {
        code = 0;
        out = shown ++ (stats ++ status);
        err = [];
        file = file;
        rng = shutdown_rng lib r1;
      }

  -- The end of a run that shows nothing but an error or the usage, and writes no file.
  abbrev pub quiet : ℕ → Bytes → Rng C W F → Outcome C W F
  quiet code err r = record { code = code; out = []; err = err; file = untouched; rng = r }

  -- With a buffer.
  pub generate_and_deliver : Surroundings → Options → Rng C W F → Outcome C W F
  unfolding deliver
  generate_and_deliver around o r =
      let (initialized, r1) = init_rng lib r in
      let (generated, bytes, r2) = get_random_bytes lib true o.random_byte_count r1 in
      if not (is_zero initialized)
      then quiet 1 (message (init_failed initialized)) r1
      else if not (is_zero generated)
      then quiet 1 (message (generation_failed generated)) (shutdown_rng lib r2)
      else deliver around o bytes r2

  -- `--benchmark`
  pub benchmark : Surroundings → Options → Rng C W F → Outcome C W F
  unfolding report_status
  benchmark around o r =
      let f =
        run_benchmark lib around.benchmark_allocated around.polls o.benchmark_bytes
          (pos o.benchmark_iterations) r in
      let (status, r1) = report_status o.print_status f.rng in
      record {
        code = if is_zero f.code then 0 else 1;
        out = benchmark_text fixed o.benchmark_bytes f ++ status;
        err = benchmark_errors f.notice;
        file = untouched;
        rng = r1;
      }

  -- Behind the arguments.
  pub run_main : Surroundings → Options → Rng C W F → Outcome C W F
  unfolding benchmark generate_and_deliver
  run_main around o r =
      let (configured, r0) = rng_configure (some o.settings) r in
      if not (is_zero configured)
      then quiet 1 (message (settings_failed configured)) r0
      else if o.run_benchmark_mode
      then benchmark around o r0
      else if o.random_byte_count == 0
      then quiet 2 (message no_bytes_asked) r0
      else if not around.allocated
      then quiet 1 (message (allocation_failed o.random_byte_count)) r0
      else generate_and_deliver around o r0

  -- What the arguments come to.
  pub run_parsed : Surroundings → Parsed → Rng C W F → Outcome C W F
  unfolding run_main
  run_parsed around (go o) r = run_main around o r
  run_parsed around (exit code) r = quiet code (usage around.program_name) r

  -- The whole of `main`, from the arguments behind the program's name.
  pub program : Surroundings → List Bytes → Rng C W F → Outcome C W F
  unfolding run_parsed
  program around args r = run_parsed around (parse_args (length args) args default_options) r
