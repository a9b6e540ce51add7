-- ===== src/Monitor/StatsOf.antt =====
-- The counters of the monitor and of its account.
use jitterentropy_analysis_d.Prelude.{
  ℕ, ◌+◌, Bool, false, Option, ◌≡◌, arith, ◌==◌, if◌then◌else◌, u64,
}
use jitterentropy_analysis_d.Prelude.Int.{ℤ}
use jitterentropy_analysis_d.Double.{Double, lit, ◌⊘◌}
use jitterentropy_analysis_d.Monitor.{
  Tick, HealthStats, blank_stats, count_attempt, update_derived_values,
}
use jitterentropy_analysis_d.Monitor.Account.{attempt, Account, blank_account, account_step}

module _ {F : Type 0} ⦃d : Double F⦄ where
  -- The counters, the cached quotients and the settings of the last error.
  pub record StatsOf (a : Account F) (s : HealthStats F) : Type 0 where
    pub initialized : s.initialized ≡ a.initialized
    pub bytes : s.total_bytes_generated ≡ u64 a.bytes
    pub calls : s.generation_call_count ≡ u64 a.calls
    pub failures : s.failure_count ≡ u64 a.failures
    pub last_error : s.last_error_code ≡ a.last_error
    pub seconds : s.cumulative_generation_seconds ≡ a.seconds
    pub last_mask : s.last_fips_failure_mask ≡ a.last_mask
    pub alarms : s.fips_failure_count ≡ u64 a.alarms
    pub average :
        s.average_latency_seconds
        ≡ (if u64 a.calls == 0 then lit 0 else a.seconds ⊘ d.of_nat (u64 a.calls))
    pub throughput :
        s.throughput_bytes_per_second
        ≡ (if d.lt (lit 0) a.seconds then d.of_nat (u64 a.bytes) ⊘ a.seconds else lit 0)

  pub updated :
      {a : Account F} {s : HealthStats F} → StatsOf a s → StatsOf a (update_derived_values s)
  unfolding update_derived_values
  updated h = ground arith

  pub attempt-StatsOf :
      {a : Account F} {s : HealthStats F} (t now : Tick) (good : Bool) (n : ℕ) (x : F) (e : ℤ)
      → StatsOf a s
      → StatsOf
          (account_step t (attempt now good n x e) a)
          (update_derived_values (count_attempt good n x e s))
  unfolding update_derived_values
  attempt-StatsOf t now good n x e h = ground arith

  pub set-StatsOf :
      {a : Account F} {s : HealthStats F} (b : Bool)
      → StatsOf a s
      → StatsOf (record a { initialized = b }) (record s { initialized = b })
  set-StatsOf b h = ground arith

  pub failure-StatsOf :
      {a : Account F} {s : HealthStats F} (e : ℤ)
      → StatsOf a s
      → StatsOf
          (record a { failures = a.failures + 1; last_error = e })
          (record s { failure_count = u64 (s.failure_count + 1); last_error_code = e })
  failure-StatsOf e h = ground arith

  pub fips-StatsOf :
      {a : Account F} {s : HealthStats F} (k : ℕ)
      → StatsOf a s
      → StatsOf
          (record a { last_mask = k; alarms = a.alarms + 1 })
          (record s {
            last_fips_failure_mask = k;
            fips_failure_count = u64 (s.fips_failure_count + 1);
          })
  fips-StatsOf k h = ground arith

  pub blank-StatsOf :
      (b : Bool)
      → d.lt (lit 0) (lit 0) ≡ false
      → StatsOf (record blank_account { initialized = b }) (record blank_stats { initialized = b })
  blank-StatsOf b z = ground arith

  pub cleared-StatsOf :
      {a : Account F} {s : HealthStats F} (e : Option Tick)
      → d.lt (lit 0) (lit 0) ≡ false
      → StatsOf a s
      → StatsOf
          (record blank_account { first = e; initialized = a.initialized })
          (record blank_stats { initialized = s.initialized })
  cleared-StatsOf e z h = ground arith
