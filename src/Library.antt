-- ===== src/Library.antt =====
-- What app/rng_wrapper.c calls outside this repository's own code, and the constants of both.
use jitterentropy_analysis_d.Prelude.{ℕ, Option, List}
use jitterentropy_analysis_d.Prelude.Int.{ℤ, negsuc}
use jitterentropy_analysis_d.Monitor.{Tick}

-- One call of `jent_read_entropy_safe`: its result, the bytes it put into the buffer, what it left in
-- `*ec` (it may replace the collector), and the masks of the health failures of which it told the
-- callback.
pub record Read (C : Type 0) : Type 0 where
  pub ret : ℤ
  pub bytes : List ℕ
  pub collector_left : Option C
  pub alarms : List ℕ

pub record Library (C W : Type 0) : Type 0 where
  -- `jent_entropy_init_ex` and `jent_entropy_collector_alloc`, by oversampling rate and flags
  pub entropy_init_ex : ℕ → ℕ → W → ℤ × W
  pub collector_alloc : ℕ → ℕ → W → Option C × W
  pub read_entropy_safe : Option C → ℕ → W → Read C × W
  pub collector_free : Option C → W → W
  -- `jent_status` with the length of the buffer: its result, and the text if it wrote one
  pub status : C → ℕ → W → (ℤ × Option (List ℕ)) × W
  pub version : ℕ
  -- `QueryPerformanceCounter`
  pub now : W → Tick × W

-- `RNG_ERR_...`: negsuc n is -(n + 1)
abbrev pub err_self_test_failed : ℤ
err_self_test_failed = negsuc 1000

abbrev pub err_alloc_failed : ℤ
err_alloc_failed = negsuc 1001

abbrev pub err_not_initialized : ℤ
err_not_initialized = negsuc 1002

abbrev pub err_short_read : ℤ
err_short_read = negsuc 1003

abbrev pub err_invalid_argument : ℤ
err_invalid_argument = negsuc 1004

abbrev pub err_generation_failed : ℤ
err_generation_failed = negsuc 1005

abbrev pub err_already_running : ℤ
err_already_running = negsuc 1007
