-- ===== src/Monitor/Account.antt =====
-- What the health monitor promises, with no wrap, no ring and no cached quotient: plain totals, and
-- the full logs of attempts and latencies since the last clear, newest first.
use jitterentropy_analysis_d.Prelude.{
  ℕ, ◌+◌, Bool, false, Option, none, some, List, [], ◌∷◌, ◌==◌, if◌then◌else◌,
}
use jitterentropy_analysis_d.Prelude.Int.{ℤ, pos}
use jitterentropy_analysis_d.Double.{Double, lit, ◌⊕◌}
use jitterentropy_analysis_d.Monitor.{
  Tick, latch, HistorySample, Monitor, attempt_sample, get_epoch, set_initialized, record_failure,
  record_fips_failure, record_jitter_sample, record_generation_attempt, health_snapshot,
  recent_history_snapshot, jitter_samples_snapshot, clear_history,
}

-- A call of the interface.
pub data Op (F : Type 0) : Type 0 where
  epoch snapshot clear : Op F
  set : Bool → Op F
  failure : ℤ → Op F
  fips : ℕ → Op F
  latency : F → Op F
  attempt : Tick → Bool → ℕ → F → ℤ → Op F
  history jitter : ℕ → Op F

pub record Account (F : Type 0) : Type 0 where
  pub first : Option Tick
  pub initialized : Bool
  pub bytes : ℕ
  pub calls : ℕ
  pub failures : ℕ
  pub last_error : ℤ
  pub seconds : F
  pub last_mask : ℕ
  pub alarms : ℕ
  pub attempts : List (HistorySample F)
  pub latencies : List F

module _ {F : Type 0} ⦃d : Double F⦄ where
  abbrev pub blank_account : Account F
  blank_account = record {
    first = none;
    initialized = false;
    bytes = 0;
    calls = 0;
    failures = 0;
    last_error = pos 0;
    seconds = lit 0;
    last_mask = 0;
    alarms = 0;
    attempts = [];
    latencies = [];
  }

  -- The reading that the epoch has from a call at `t` on.
  abbrev pub epoch_at : Tick → Account F → Tick
  epoch_at t a = latch t a.first

  abbrev pub account_step : Tick → Op F → Account F → Account F
  account_step t (set b) a = record a { first = some (epoch_at t a); initialized = b }
  account_step t (failure e) a = record a {
    first = some (epoch_at t a);
    failures = a.failures + 1;
    last_error = e;
  }
  account_step t (fips k) a = record a {
    first = some (epoch_at t a);
    last_mask = k;
    alarms = a.alarms + 1;
  }
  account_step t (latency x) a = record a {
    first = some (epoch_at t a);
    latencies = x ∷ a.latencies;
  }
  account_step t (attempt now good n x e) a = record a {
    first = some (epoch_at t a);
    bytes = a.bytes + n;
    calls = a.calls + 1;
    failures = if good then a.failures else a.failures + 1;
    last_error = if good then pos 0 else e;
    seconds = a.seconds ⊕ x;
    attempts = attempt_sample (epoch_at t a) now good n x ∷ a.attempts;
  }
  account_step t clear a = record blank_account {
    first = some (epoch_at t a);
    initialized = a.initialized;
  }
  account_step t (history k) a = if k == 0 then a else record a { first = some (epoch_at t a) }
  account_step t (jitter k) a = if k == 0 then a else record a { first = some (epoch_at t a) }
  account_step t _ a = record a { first = some (epoch_at t a) }

  abbrev pub step : Tick → Op F → Monitor F → Monitor F
  step t epoch m = (get_epoch t m).1
  step t snapshot m = (health_snapshot t m).1
  step t clear m = clear_history t m
  step t (set b) m = set_initialized t b m
  step t (failure e) m = record_failure t e m
  step t (fips k) m = record_fips_failure t k m
  step t (latency x) m = record_jitter_sample t x m
  step t (attempt now good n x e) m = record_generation_attempt t now good n x e m
  step t (history k) m = (recent_history_snapshot t k m).1
  step t (jitter k) m = (jitter_samples_snapshot t k m).1

  -- A sequence of calls, the first one first.
  unfoldable pub run : List (Tick × Op F) → Monitor F → Monitor F
  run [] m = m
  run ((t, o) ∷ ops) m = run ops (step t o m)

  unfoldable pub account_run : List (Tick × Op F) → Account F → Account F
  account_run [] a = a
  account_run ((t, o) ∷ ops) a = account_run ops (account_step t o a)
