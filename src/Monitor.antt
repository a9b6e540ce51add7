-- ===== src/Monitor.antt =====
-- app/health_monitor.c: counters, and two rings of samples. Every function holds `stats_lock` from
-- its first access to its last, so each is one step on the state. What the performance counter
-- returns is an argument.
pub mod Account
pub mod Counters
pub mod StatsOf
pub mod Initialized
pub mod Tracks
use jitterentropy_analysis_d.Prelude.{
  ℕ, ◌+◌, ◌^◌, ◌%◌, Bool, true, false, Option, none, some, List, [], ◌==◌, if◌then◌else◌, u64,
}
use jitterentropy_analysis_d.Prelude.Int.{ℤ, pos, sub_ℕ}
use jitterentropy_analysis_d.Double.{Double, lit, ◌⊕◌, ◌⊘◌}
use jitterentropy_analysis_d.Ring.{Ring, empty, push, snapshot}

-- `rng_health_stats`. The counters are `uint64_t`.
pub record HealthStats (F : Type 0) : Type 0 where
  pub initialized : Bool
  pub total_bytes_generated : ℕ
  pub generation_call_count : ℕ
  pub failure_count : ℕ
  pub last_error_code : ℤ
  pub cumulative_generation_seconds : F
  pub average_latency_seconds : F
  pub throughput_bytes_per_second : F
  pub last_fips_failure_mask : ℕ
  pub fips_failure_count : ℕ

pub record HistorySample (F : Type 0) : Type 0 where
  pub timestamp_seconds : F
  pub byte_count : ℕ
  pub duration_seconds : F

-- A reading of the performance counter, with its frequency.
pub record Tick : Type 0 where
  pub counter : ℕ
  pub frequency : ℕ

abbrev pub history_ring_size : ℕ
history_ring_size = 300

abbrev pub jitter_ring_size : ℕ
jitter_ring_size = 256

-- The static variables of the file. `epoch` is unset until the first call.
pub record Monitor (F : Type 0) : Type 0 where
  pub epoch : Option Tick
  pub stats : HealthStats F
  pub history : Ring (HistorySample F)
  pub jitter : Ring F

-- `init_lock_callback` runs in the first call of `ensure_lock` only: a later one keeps the epoch.
abbrev pub latch : Tick → Option Tick → Tick
latch t none = t
latch t (some e) = e

module _ {F : Type 0} where
  pub ensure_lock : Tick → Monitor F → Monitor F
  ensure_lock t m = record m { epoch = some (latch t m.epoch) }

  -- What goes through the two pointers.
  pub get_epoch : Tick → Monitor F → Tick × Monitor F
  unfolding ensure_lock
  get_epoch t m = let m' = ensure_lock t m in (latch t m'.epoch, m')

  pub set_initialized : Tick → Bool → Monitor F → Monitor F
  unfolding ensure_lock
  set_initialized t b m =
      let m' = ensure_lock t m in record m' { stats = record (m'.stats) { initialized = b } }

  pub record_failure : Tick → ℤ → Monitor F → Monitor F
  unfolding ensure_lock
  record_failure t error_code m =
      let m' = ensure_lock t m in
      record m' {
        stats = record (m'.stats) {
          failure_count = u64 (m'.stats.failure_count + 1);
          last_error_code = error_code;
        };
      }

  pub record_fips_failure : Tick → ℕ → Monitor F → Monitor F
  unfolding ensure_lock
  record_fips_failure t failure_mask m =
      let m' = ensure_lock t m in
      record m' {
        stats = record (m'.stats) {
          last_fips_failure_mask = failure_mask;
          fips_failure_count = u64 (m'.stats.fips_failure_count + 1);
        };
      }

  pub record_jitter_sample : Tick → F → Monitor F → Monitor F
  unfolding ensure_lock
  record_jitter_sample t microseconds m =
      let m' = ensure_lock t m in
      record m' { jitter = push jitter_ring_size m'.jitter microseconds }

module _ {F : Type 0} ⦃d : Double F⦄ where
  -- `get_process_elapsed_seconds` at a reading `now`.
  abbrev pub elapsed_seconds : Tick → Tick → F
  elapsed_seconds epoch now = d.of_int (sub_ℕ now.counter epoch.counter) ⊘ d.of_nat epoch.frequency

  abbrev pub blank_stats : HealthStats F
  blank_stats = record {
    initialized = false;
    total_bytes_generated = 0;
    generation_call_count = 0;
    failure_count = 0;
    last_error_code = pos 0;
    cumulative_generation_seconds = lit 0;
    average_latency_seconds = lit 0;
    throughput_bytes_per_second = lit 0;
    last_fips_failure_mask = 0;
    fips_failure_count = 0;
  }

  abbrev pub blank_sample : HistorySample F
  blank_sample = record { timestamp_seconds = lit 0; byte_count = 0; duration_seconds = lit 0 }

  -- The zeroed variables at the start of the process.
  abbrev pub blank_monitor : Monitor F
  blank_monitor = record {
    epoch = none;
    stats = blank_stats;
    history = empty history_ring_size blank_sample;
    jitter = empty jitter_ring_size (lit 0);
  }

  -- `health_monitor_update_derived_values`
  pub update_derived_values : HealthStats F → HealthStats F
  update_derived_values s = record s {
    average_latency_seconds =
        if s.generation_call_count == 0
        then lit 0
        else s.cumulative_generation_seconds ⊘ d.of_nat s.generation_call_count;
    throughput_bytes_per_second =
        if d.lt (lit 0) s.cumulative_generation_seconds
        then d.of_nat s.total_bytes_generated ⊘ s.cumulative_generation_seconds
        else lit 0;
  }

  abbrev pub count_attempt : Bool → ℕ → F → ℤ → HealthStats F → HealthStats F
  count_attempt success byte_count duration_seconds error_code s = record s {
    generation_call_count = u64 (s.generation_call_count + 1);
    cumulative_generation_seconds = s.cumulative_generation_seconds ⊕ duration_seconds;
    total_bytes_generated = u64 (s.total_bytes_generated + byte_count);
    failure_count = if success then s.failure_count else u64 (s.failure_count + 1);
    last_error_code = if success then pos 0 else error_code;
  }

  abbrev pub attempt_sample : Tick → Tick → Bool → ℕ → F → HistorySample F
  attempt_sample epoch now success byte_count duration_seconds = record {
    timestamp_seconds = elapsed_seconds epoch now;
    byte_count = if success then byte_count else 0;
    duration_seconds = duration_seconds;
  }

  -- `now` is the reading for the sample, behind the one of `ensure_lock`.
  pub record_generation_attempt : Tick → Tick → Bool → ℕ → F → ℤ → Monitor F → Monitor F
  unfolding get_epoch update_derived_values
  record_generation_attempt t now success byte_count duration_seconds error_code m =
      let (epoch, m') = get_epoch t m in
      record m' {
        stats =
            update_derived_values
              (count_attempt success byte_count duration_seconds error_code m'.stats);
        history =
            push history_ring_size m'.history
              (attempt_sample epoch now success byte_count duration_seconds);
      }

  -- `health_monitor_snapshot`: what goes through the pointer, and the state left.
  pub health_snapshot : Tick → Monitor F → HealthStats F × Monitor F
  unfolding ensure_lock update_derived_values
  health_snapshot t m =
      let m' = ensure_lock t m in
      let s = update_derived_values m'.stats in (s, record m' { stats = s })

  -- The lists are what goes through the pointers, which are not null; its length is the result.
  pub recent_history_snapshot : Tick → ℕ → Monitor F → List (HistorySample F) × Monitor F
  unfolding ensure_lock
  recent_history_snapshot t max_count m =
      if max_count == 0
      then ([], m)
      else let m' = ensure_lock t m in
        (snapshot history_ring_size blank_sample m'.history max_count, m')

  pub jitter_samples_snapshot : Tick → ℕ → Monitor F → List F × Monitor F
  unfolding ensure_lock
  jitter_samples_snapshot t max_count m =
      if max_count == 0
      then ([], m)
      else let m' = ensure_lock t m in (snapshot jitter_ring_size (lit 0) m'.jitter max_count, m')

  pub clear_history : Tick → Monitor F → Monitor F
  unfolding ensure_lock
  clear_history t m =
      let m' = ensure_lock t m in
      record m' {
        stats = record blank_stats { initialized = m'.stats.initialized };
        history = empty history_ring_size blank_sample;
        jitter = empty jitter_ring_size (lit 0);
      }
