-- ===== src/Benchmark.antt =====
-- `run_benchmark` of app/benchmark.c, over the wrapper. The texts of what it prints are in Cli/Text and Cli/Errors. Whether `malloc`
-- succeeds, and the cancel flag at each poll, are arguments. The loop counts its iterations down.
pub mod Outcome
pub mod Kept
use jitterentropy_analysis_d.Prelude.{
  ℕ, zero, suc, ◌+◌, ◌-◌, ◌*◌, ◌/◌, ◌^◌, Bool, true, false, Option, none, some, List, [], ltb, ◌==◌,
  ◌||◌, if◌then◌else◌, not, u64,
}
use jitterentropy_analysis_d.Prelude.Int.{ℤ, pos, negsuc, pos_part}
use jitterentropy_analysis_d.Double.{Double, lit}
use jitterentropy_analysis_d.Library.{Library, err_alloc_failed, err_invalid_argument}
use jitterentropy_analysis_d.Rng.{
  Rng, init_rng, shutdown_rng, get_random_bytes, read_counter, qpc_elapsed_seconds,
}

-- `RNG_RESULT_CANCELLED`: -2001
abbrev pub result_cancelled : ℤ
result_cancelled = negsuc 2000

-- `benchmark_result`
pub record BenchmarkResult (F : Type 0) : Type 0 where
  pub completed_iterations : ℕ
  pub total_bytes : ℕ
  pub init_seconds : F
  pub generation_seconds : F

-- What the loop changes.
pub record Progress (C W F : Type 0) : Type 0 where
  pub completed : ℕ
  pub ret : ℤ
  pub cancelled : Bool
  pub rng : Rng C W F

-- What is printed: nothing, the failure of `init_rng`, that of a generation with the number of the
-- iteration, or the table, with whether the run was cancelled.
pub data Notice : Type 0 where
  silent : Notice
  init_failure : ℤ → Notice
  generation_failure : ℕ → ℤ → Notice
  table : Bool → Notice

-- The code returned, what is printed, what goes through the pointer `out`, and the state left.
pub record Finished (C W F : Type 0) : Type 0 where
  pub code : ℤ
  pub notice : Notice
  pub out : BenchmarkResult F
  pub rng : Rng C W F

-- `if (ret)`
abbrev pub is_zero : ℤ → Bool
is_zero (pos zero) = true
is_zero (pos (suc n)) = false
is_zero (negsuc n) = false

-- `iterations <= 0`, no bytes, or more bytes than a `size_t` can count.
abbrev pub refuses : ℕ → ℤ → Bool
refuses bytes_per_call (negsuc n) = true
refuses bytes_per_call (pos iterations) =
    bytes_per_call == 0 || iterations == 0 || ltb ((2 ^ 64 - 1) / iterations) bytes_per_call

-- What is returned after the loop.
abbrev pub closing_code : ℤ → Bool → ℤ
closing_code ret cancelled =
    if is_zero ret then (if cancelled then result_cancelled else pos 0) else ret

module _ {C W F : Type 0} ⦃d : Double F⦄ (lib : Library C W) where
  -- `polls i` is the cancel flag in iteration `i`.
  pub iterate : (ℕ → Bool) → ℕ → ℕ → ℕ → Progress C W F → Progress C W F
  iterate polls bytes_per_call zero i s = s
  iterate polls bytes_per_call (suc left) i s =
      let (ret, written, rng) = get_random_bytes lib true bytes_per_call s.rng in
      let rest =
        iterate polls bytes_per_call left (i + 1)
          (record s { completed = s.completed + 1; ret = ret; rng = rng }) in
      if polls i
      then record s { cancelled = true }
      else (if is_zero ret then rest else record s { ret = ret; rng = rng })

  -- From the successful `init_rng` to the cleanup.
  pub measure : (ℕ → Bool) → ℕ → ℕ → F → Rng C W F → Finished C W F
  unfolding iterate
  measure polls bytes_per_call iterations init_seconds r =
      let (start, r0) = read_counter lib r in
      let begin_ : Progress C W F = record {
        completed = 0;
        ret = pos 0;
        cancelled = false;
        rng = r0;
      } in
      let s = iterate polls bytes_per_call iterations 0 begin_ in
      let (end_, r1) = read_counter lib s.rng in
      record {
        code = closing_code s.ret s.cancelled;
        notice =
            if is_zero s.ret then table s.cancelled else generation_failure (s.completed + 1) s.ret;
        out = record {
          completed_iterations = s.completed;
          total_bytes = u64 (bytes_per_call * s.completed);
          init_seconds = init_seconds;
          generation_seconds = qpc_elapsed_seconds lib start end_;
        };
        rng = shutdown_rng lib r1;
      }

  abbrev pub nothing : F → BenchmarkResult F
  nothing init_seconds = record {
    completed_iterations = 0;
    total_bytes = 0;
    init_seconds = init_seconds;
    generation_seconds = lit 0;
  }

  -- From the first `shutdown_rng` on.
  pub start_and_measure : (ℕ → Bool) → ℕ → ℕ → Rng C W F → Finished C W F
  unfolding measure
  start_and_measure polls bytes_per_call iterations r =
      let (start, r0) = read_counter lib (shutdown_rng lib r) in
      let (ret, r1) = init_rng lib r0 in
      let (end_, r2) = read_counter lib r1 in
      let init_seconds = qpc_elapsed_seconds lib start end_ in
      if is_zero ret then measure polls bytes_per_call iterations init_seconds r2 else record {
        code = ret;
        notice = init_failure ret;
        out = nothing init_seconds;
        rng = shutdown_rng lib r2;
      }

  -- `run_benchmark`; `allocated` says that `malloc` did not fail.
  pub run_benchmark : Bool → (ℕ → Bool) → ℕ → ℤ → Rng C W F → Finished C W F
  unfolding start_and_measure
  run_benchmark allocated polls bytes_per_call iterations r =
      if refuses bytes_per_call iterations
      then record { code = err_invalid_argument; notice = silent; out = nothing (lit 0); rng = r }
      else if allocated
      then start_and_measure polls bytes_per_call (pos_part iterations) r
      else record { code = err_alloc_failed; notice = silent; out = nothing (lit 0); rng = r }
