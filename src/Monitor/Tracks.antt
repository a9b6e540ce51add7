-- ===== src/Monitor/Tracks.antt =====
-- The monitor implements its account, up to the wrap of the counters and the size of the rings.
use jitterentropy_analysis_d.Prelude.{
  ℕ, Bool, true, false, Option, some, List, [], ◌∷◌, ◌≡◌, refl, ap, Bool-cases, inl, inr, arith,
  ◌==◌, if◌then◌else◌, reverse, take, min,
}
use jitterentropy_analysis_d.Double.{Double, lit}
use jitterentropy_analysis_d.Ring.Holds.{Holds, empty-Holds, push-Holds, snapshot_lem}
use jitterentropy_analysis_d.Monitor.{
  Tick, latch, HealthStats, Monitor, history_ring_size, jitter_ring_size, blank_monitor,
  blank_sample, attempt_sample, get_epoch, set_initialized, record_failure, record_fips_failure,
  record_jitter_sample, update_derived_values, record_generation_attempt, health_snapshot,
  recent_history_snapshot, jitter_samples_snapshot, clear_history,
}
use jitterentropy_analysis_d.Monitor.Account.{
  Op, epoch, snapshot, clear, set, failure, fips, latency, attempt, history, jitter, Account,
  blank_account, epoch_at, account_step, step, run, account_run,
}
use jitterentropy_analysis_d.Monitor.StatsOf.{
  StatsOf, updated, attempt-StatsOf, set-StatsOf, failure-StatsOf, fips-StatsOf, blank-StatsOf,
  cleared-StatsOf,
}

module _ {F : Type 0} ⦃d : Double F⦄ where
  pub record Tracks (a : Account F) (m : Monitor F) : Type 0 where
    pub first : m.epoch ≡ a.first
    pub stats : StatsOf a m.stats
    pub attempts : Holds history_ring_size blank_sample a.attempts m.history
    pub latencies : Holds jitter_ring_size (lit 0) a.latencies m.jitter

  first_lem :
      {a : Account F} {m : Monitor F} (t : Tick)
      → Tracks a m
      → ◌≡◌ {A = Option Tick} (some (latch t m.epoch)) (some (latch t a.first))
  first_lem t h = ap (λ e. some (latch t e)) h.first

  -- A step that moves neither ring: what is left to show is about the counters.
  quiet :
      {a : Account F} {m : Monitor F} (t : Tick) (a' : Account F) (s : HealthStats F)
      → Tracks a m
      → StatsOf a' s
      → Tracks
          (record a' {
            first = some (epoch_at t a);
            attempts = a.attempts;
            latencies = a.latencies;
          })
          (record m { epoch = some (latch t m.epoch); stats = s })
  quiet t a' s h g = record {
    first = first_lem t h;
    stats = ground arith;
    attempts = h.attempts;
    latencies = h.latencies;
  }

  -- The latest sample has the time since the epoch.
  sample_at :
      {a : Account F} {m : Monitor F} (t now : Tick) (good : Bool) (n : ℕ) (x : F)
      → Tracks a m
      → attempt_sample (latch t m.epoch) now good n x ≡ attempt_sample (epoch_at t a) now good n x
  sample_at t now good n x h = ap (λ e. attempt_sample (latch t e) now good n x) h.first

  -- A snapshot of no samples does not touch the state, and any other sees to the epoch only.
  peek-Tracks :
      {a : Account F} {m : Monitor F} (b : Bool) (t : Tick)
      → Tracks a m
      → Tracks
          (if b then a else record a { first = some (epoch_at t a) })
          (if b then m else record m { epoch = some (latch t m.epoch) })
  peek-Tracks true t h = h
  peek-Tracks {a} {m} false t h = quiet t a m.stats h h.stats

  recent_history_state :
      (t : Tick) (k : ℕ) (m : Monitor F)
      → (recent_history_snapshot t k m).1
        ≡ (if k == 0 then m else record m { epoch = some (latch t m.epoch) })
  unfolding recent_history_snapshot
  recent_history_state t k m = ground arith

  jitter_samples_state :
      (t : Tick) (k : ℕ) (m : Monitor F)
      → (jitter_samples_snapshot t k m).1
        ≡ (if k == 0 then m else record m { epoch = some (latch t m.epoch) })
  unfolding jitter_samples_snapshot
  jitter_samples_state t k m = ground arith

  -- A snapshot is taken of a ring that holds its log.
  skip_empty :
      {A : Type 0} (k size : ℕ) (log : List A) {s : List A} (m m' : Monitor F)
      → s ≡ reverse (take (min k size) log)
      → (let r : List A × Monitor F = if k == 0 then ([], m) else (s, m') in r.0)
        ≡ reverse (take (min k size) log)
  skip_empty k size log m m' e = elim (Bool-cases (k == 0)) [
    | inl z ↦ let none_left : min k size ≡ 0 = ground arith in rw (z, none_left)
    | inr z ↦ rw z e
  ]

  module _ (zero_not_positive : d.lt (lit 0) (lit 0) ≡ false) where
    pub blank-Tracks : Tracks blank_account blank_monitor
    blank-Tracks = record {
      first = refl;
      stats = blank-StatsOf false zero_not_positive;
      attempts = empty-Holds history_ring_size blank_sample (omega arith);
      latencies = empty-Holds jitter_ring_size (lit 0) (omega arith);
    }

    pub step-Tracks :
        {a : Account F} {m : Monitor F} (t : Tick) (o : Op F)
        → Tracks a m
        → Tracks (account_step t o a) (step t o m)
    unfolding get_epoch set_initialized record_failure record_fips_failure record_jitter_sample
        record_generation_attempt health_snapshot recent_history_snapshot jitter_samples_snapshot
        clear_history
    step-Tracks {a} {m} t epoch h = quiet t a m.stats h h.stats
    step-Tracks {a} {m} t snapshot h = quiet t a (update_derived_values m.stats) h (updated h.stats)
    step-Tracks {a} {m} t (set b) h =
        quiet t (record a { initialized = b }) (record (m.stats) { initialized = b }) h
          (set-StatsOf b h.stats)
    step-Tracks {a} {m} t (failure e) h = quiet t _ _ h (failure-StatsOf e h.stats)
    step-Tracks {a} {m} t (fips k) h = quiet t _ _ h (fips-StatsOf k h.stats)
    step-Tracks {a} {m} t clear h = record {
      first = first_lem t h;
      stats = cleared-StatsOf _ zero_not_positive h.stats;
      attempts = empty-Holds history_ring_size blank_sample (omega arith);
      latencies = empty-Holds jitter_ring_size (lit 0) (omega arith);
    }
    step-Tracks {a} {m} t (latency x) h = record {
      first = first_lem t h;
      stats = let g = h.stats in ground arith;
      attempts = h.attempts;
      latencies = push-Holds jitter_ring_size (lit 0) x h.latencies;
    }
    step-Tracks {a} {m} t (attempt now good n x e) h = record {
      first = first_lem t h;
      stats = attempt-StatsOf t now good n x e h.stats;
      attempts =
          rw (← sample_at t now good n x h)
            (push-Holds history_ring_size blank_sample _ h.attempts);
      latencies = h.latencies;
    }
    step-Tracks {a} {m} t (history k) h = rw (recent_history_state t k m) (peek-Tracks (k == 0) t h)
    step-Tracks {a} {m} t (jitter k) h = rw (jitter_samples_state t k m) (peek-Tracks (k == 0) t h)

    pub run-Tracks :
        (ops : List (Tick × Op F)) {a : Account F} {m : Monitor F}
        → Tracks a m
        → Tracks (account_run ops a) (run ops m)
    unfolding run account_run
    run-Tracks [] h = h
    run-Tracks ((t, o) ∷ ops) h = run-Tracks ops (step-Tracks t o h)

    -- Where 0 < 0 is false for `double`, after any sequence of calls since the start, the counters are the account's
    -- totals modulo 2^64, the average and the throughput are the quotients of those, the epoch is the
    -- reading of the first call, and the two rings hold the account's logs of attempts and latencies.
    pub run_lem :
        (ops : List (Tick × Op F)) → Tracks (account_run ops blank_account) (run ops blank_monitor)
    run_lem ops = run-Tracks ops blank-Tracks

    -- Where 0 < 0 is false for `double`, after any sequence of calls since the start, a snapshot of the history is the
    -- last attempts since the latest clear, 300 at most and as many as asked for, oldest first.
    pub recent_history_lem :
        (ops : List (Tick × Op F)) (t : Tick) (max_count : ℕ)
        → (recent_history_snapshot t max_count (run ops blank_monitor)).0
          ≡ reverse (take (min max_count 300) (account_run ops blank_account).attempts)
    unfolding recent_history_snapshot
    recent_history_lem ops t k =
        skip_empty k 300 _ _ _
          (snapshot_lem 300 blank_sample (omega arith) (run-Tracks ops blank-Tracks).attempts k)

    -- Where 0 < 0 is false for `double`, after any sequence of calls since the start, a snapshot of the
    -- latencies is the last ones since the latest clear, 256 at most and as many as asked for, oldest
    -- first.
    pub jitter_samples_lem :
        (ops : List (Tick × Op F)) (t : Tick) (max_count : ℕ)
        → (jitter_samples_snapshot t max_count (run ops blank_monitor)).0
          ≡ reverse (take (min max_count 256) (account_run ops blank_account).latencies)
    unfolding jitter_samples_snapshot
    jitter_samples_lem ops t k =
        skip_empty k 256 _ _ _
          (snapshot_lem 256 (lit 0) (omega arith) (run-Tracks ops blank-Tracks).latencies k)
