-- ===== src/Monitor/Counters.antt =====
-- The counters that only an attempt and a failed initialisation change.
use jitterentropy_analysis_d.Prelude.{ℕ, ◌+◌, ◌≡◌, refl, ◌∙◌, Bool, if◌then◌else◌, u64}
use jitterentropy_analysis_d.Prelude.Int.{ℤ}
use jitterentropy_analysis_d.Double.{Double}
use jitterentropy_analysis_d.Monitor.{
  Tick, Monitor, record_fips_failure, record_jitter_sample, record_generation_attempt, get_epoch,
  update_derived_values,
}

-- Two states with the same calls, bytes and failures counted.
pub record Same {F : Type 0} (m n : Monitor F) : Type 0 where
  pub calls : m.stats.generation_call_count ≡ n.stats.generation_call_count
  pub bytes : m.stats.total_bytes_generated ≡ n.stats.total_bytes_generated
  pub failures : m.stats.failure_count ≡ n.stats.failure_count

-- `n` has one call more than `m`, with `k` bytes, which failed if `good` is false.
pub record Counted {F : Type 0} (k : ℕ) (good : Bool) (m n : Monitor F) : Type 0 where
  pub calls : n.stats.generation_call_count ≡ u64 (m.stats.generation_call_count + 1)
  pub bytes : n.stats.total_bytes_generated ≡ u64 (m.stats.total_bytes_generated + k)
  pub failures :
      n.stats.failure_count
      ≡ (if good then m.stats.failure_count else u64 (m.stats.failure_count + 1))

module _ {F : Type 0} where
  pub Same-refl : (m : Monitor F) → Same m m
  Same-refl m = record { calls = refl; bytes = refl; failures = refl }

  pub Same-trans : {a b c : Monitor F} → Same a b → Same b c → Same a c
  Same-trans p q = record {
    calls = p.calls ∙ q.calls;
    bytes = p.bytes ∙ q.bytes;
    failures = p.failures ∙ q.failures;
  }

  pub record_fips_failure-Same :
      (t : Tick) (mask : ℕ) (m : Monitor F) → Same (record_fips_failure t mask m) m
  unfolding record_fips_failure
  record_fips_failure-Same t mask m = record { calls = refl; bytes = refl; failures = refl }

  pub record_jitter_sample-Same :
      (t : Tick) (x : F) (m : Monitor F) → Same (record_jitter_sample t x m) m
  unfolding record_jitter_sample
  record_jitter_sample-Same t x m = record { calls = refl; bytes = refl; failures = refl }

pub record_generation_attempt-Counted :
    {F : Type 0} ⦃d : Double F⦄ (t now : Tick) (good : Bool) (k : ℕ) (x : F) (e : ℤ)
    (m n : Monitor F)
    → Same m n
    → Counted k good n (record_generation_attempt t now good k x e m)
unfolding record_generation_attempt get_epoch update_derived_values
record_generation_attempt-Counted t now good k x e m n same = record {
  calls = cc;
  bytes = cc;
  failures = cc;
}
