-- ===== src/Gui/Jobs.antt =====
-- The bodies of `GenerateWorkerThread` and `BenchmarkWorkerThread` up to the publication. Whether
-- `malloc` succeeds and the cancel flag at each poll are arguments. What the window's thread does to the
-- monitor meanwhile comes before or after the body.
pub mod Kept
pub mod Produced
pub mod Traced
pub mod Measured
pub mod Named
pub mod Cancelled
use jitterentropy_analysis_d.Prelude.{
  ℕ, zero, suc, ◌+◌, ◌-◌, ◌/◌, ◌%◌, min, Bool, true, false, Option, none, some, List, [], ◌∷◌, ◌++◌,
  ltb, ◌==◌, ◌&&◌, if◌then◌else◌,
}
use jitterentropy_analysis_d.Prelude.Int.{ℤ, pos}
use jitterentropy_analysis_d.Double.{Double, lit}
use jitterentropy_analysis_d.Monitor.{Tick}
use jitterentropy_analysis_d.Library.{Library, err_alloc_failed}
use jitterentropy_analysis_d.Rng.{Rng, init_rng, get_random_bytes, read_counter}
use jitterentropy_analysis_d.Benchmark.{result_cancelled, is_zero, run_benchmark}
use jitterentropy_analysis_d.Stats.Report.{Report, report}
use jitterentropy_analysis_d.Print.{hex}
use jitterentropy_analysis_d.Bridge.Text.{Bytes}
use jitterentropy_analysis_d.Bridge.Getters.{codes}
use jitterentropy_analysis_d.Gui.State.{Payload, Marks, elapsed}

abbrev pub generate_chunk_bytes : ℕ
generate_chunk_bytes = 4096

-- What the loop over the chunks changes; `written` is the buffer up to `done`.
pub record Chunks (C W F : Type 0) : Type 0 where
  pub gen_ret : ℤ
  pub done : ℕ
  pub written : List ℕ
  pub rng : Rng C W F

-- What a body hands to `RecordTimeline` and publishes, and what it leaves of the wrapper.
pub record Work (C W F : Type 0) : Type 0 where
  pub payload : Payload F
  pub marks : Marks
  pub rng : Rng C W F

module _ {F : Type 0} ⦃d : Double F⦄ where
  abbrev pub generated : ℤ → ℕ → F → Bytes → Option (Report F) → Payload F
  generated status produced duration hex_data stats = record {
    valid = true;
    action = codes "generate";
    status = status;
    bytes = produced;
    iterations = 1;
    duration = duration;
    init_seconds = lit 0;
    hex_data = hex_data;
    stats = stats;
  }

module _ {C W F : Type 0} ⦃d : Double F⦄ where
  -- Without a buffer nothing is produced, and the later stages take no time.
  abbrev pub nothing_generated : ℤ → Tick → Tick → Rng C W F → Work C W F
  nothing_generated status req_start req_end r = record {
    payload = generated status 0 (lit 0) [] none;
    marks = record {
      req_start = req_start;
      req_end = req_end;
      ent_start = req_end;
      ent_end = req_end;
      proc_start = req_end;
      proc_end = req_end;
    };
    rng = r;
  }

module _ {C W F : Type 0} ⦃d : Double F⦄ (lib : Library C W) where
  -- `polls i` is the cancel flag in round `i`. Every round that goes on adds a byte, so that
  -- `byte_count` rounds are enough.
  pub read_chunks : (ℕ → Bool) → ℕ → ℕ → ℕ → Chunks C W F → Chunks C W F
  read_chunks polls zero byte_count i s = s
  read_chunks polls (suc fuel) byte_count i s =
      let n = min (byte_count - s.done) generate_chunk_bytes in
      let (ret, bytes, rng) = get_random_bytes lib true n s.rng in
      let rest =
        read_chunks polls fuel byte_count (i + 1)
          record { gen_ret = ret; done = s.done + n; written = s.written ++ bytes; rng = rng } in
      if ltb s.done byte_count
      then if polls i
        then record s { gen_ret = result_cancelled }
        else if is_zero ret
        then rest
        else record s { gen_ret = ret; rng = rng }
      else s

  -- With the buffer. `base` is the time base.
  pub generate_into_buffer : (ℕ → Bool) → Tick → ℕ → Tick → Tick → Rng C W F → Work C W F
  unfolding read_chunks
  generate_into_buffer polls base byte_count req_start req_end r =
      let (ent_start, r0) = read_counter lib r in
      let begin_ : Chunks C W F = record { gen_ret = pos 0; done = 0; written = []; rng = r0 } in
      let s = read_chunks polls byte_count byte_count 0 begin_ in
      let (ent_end, r1) = read_counter lib s.rng in
      let (proc_start, r2) = read_counter lib r1 in
      let (proc_end, r3) = read_counter lib r2 in
      record {
        payload =
            generated s.gen_ret s.done (elapsed base ent_start ent_end)
              (if is_zero s.gen_ret then hex s.written else [])
              (if ltb 0 s.done then some (report s.written) else none);
        marks = record {
          req_start = req_start;
          req_end = req_end;
          ent_start = ent_start;
          ent_end = ent_end;
          proc_start = proc_start;
          proc_end = proc_end;
        };
        rng = r3;
      }

  -- `GenerateWorkerThread`
  pub generate_work : Bool → (ℕ → Bool) → Tick → ℕ → Rng C W F → Work C W F
  unfolding generate_into_buffer
  generate_work allocated polls base byte_count r =
      let (req_start, r0) = read_counter lib r in
      let (init_ret, r1) = init_rng lib r0 in
      let (req_end, r2) = read_counter lib r1 in
      if is_zero init_ret && ltb 0 byte_count
      then if allocated
        then generate_into_buffer polls base byte_count req_start req_end r2
        else nothing_generated err_alloc_failed req_start req_end r2
      else nothing_generated init_ret req_start req_end r2

  -- `BenchmarkWorkerThread`
  pub benchmark_work : Bool → (ℕ → Bool) → ℕ → ℕ → Rng C W F → Work C W F
  benchmark_work allocated polls bytes_per_call iterations r =
      let (req_start, r0) = read_counter lib r in
      let (req_end, r1) = read_counter lib r0 in
      let (ent_start, r2) = read_counter lib r1 in
      let f = run_benchmark lib allocated polls bytes_per_call (pos iterations) r2 in
      let (ent_end, r3) = read_counter lib f.rng in
      let (proc_start, r4) = read_counter lib r3 in
      let (proc_end, r5) = read_counter lib r4 in
      record {
        payload = record {
          valid = true;
          action = codes "benchmark";
          status = f.code;
          bytes = bytes_per_call;
          iterations = f.out.completed_iterations;
          duration = f.out.generation_seconds;
          init_seconds = f.out.init_seconds;
          hex_data = [];
          stats = none;
        };
        marks = record {
          req_start = req_start;
          req_end = req_end;
          ent_start = ent_start;
          ent_end = ent_end;
          proc_start = proc_start;
          proc_end = proc_end;
        };
        rng = r5;
      }
