-- ===== src/Rng/Journal.antt =====
-- The bytes that the library gives away, in order, beside the bytes that the calls of the wrapper hand
-- on.
use mathlib.Core.List.{append_assoc, append-nil}
use jitterentropy_analysis_d.Prelude.{
  ℕ, zero, suc, ◌-◌, Bool, true, false, Option, none, some, List, [], ◌∷◌, ◌++◌, ◌≡◌, refl, sym, ap,
  ◌∙◌, inl, inr, Bool-cases, Option-cases, if-elim, if◌then◌else◌, not, ◌&&◌, ◌==◌, ltb,
}
use jitterentropy_analysis_d.Prelude.Int.{ℤ, pos, negsuc, ltb_ℤ}
use jitterentropy_analysis_d.Double.{Double, lit}
use jitterentropy_analysis_d.Monitor.{
  Tick, Monitor, set_initialized, record_failure, record_fips_failure,
}
use jitterentropy_analysis_d.Library.{
  Read, Library, err_alloc_failed, err_not_initialized, err_invalid_argument, err_self_test_failed,
}
use jitterentropy_analysis_d.Rng.{
  Settings, settings_to_flags, Rng, rng_configure, Loop, monitored, fail_init, init_collector,
  after_test, init_rng, shutdown_rng, record_alarms, read_counter, read_once, read_loop, attempt,
  generate, get_random_bytes, rng_get_status_json,
}

-- The bytes of a read that counts some.
abbrev pub given : {C : Type 0} → Read C → List ℕ
given got = if ltb_ℤ (pos 0) got.ret then got.bytes else []

-- `log` keeps what the reads have given, oldest first: each read appends its bytes, and no other call
-- changes it.
pub record Journal {C W : Type 0} (lib : Library C W) (log : W → List ℕ) : Type 0 where
  pub reads :
      (held : Option C) (n : ℕ) (w : W)
      → let (got, after) = lib.read_entropy_safe held n w in log after ≡ log w ++ given got
  pub counts : (w : W) → log (lib.now w).1 ≡ log w
  pub tests : (osr flags : ℕ) (w : W) → log (lib.entropy_init_ex osr flags w).1 ≡ log w
  pub allocates : (osr flags : ℕ) (w : W) → log (lib.collector_alloc osr flags w).1 ≡ log w
  pub frees : (held : Option C) (w : W) → log (lib.collector_free held w) ≡ log w
  pub answers : (c : C) (n : ℕ) (w : W) → log (lib.status c n w).1 ≡ log w

-- The library with such a log in its world.
abbrev pub recorded : {C W : Type 0} → Library C W → Library C (W × List ℕ)
recorded lib = record {
  entropy_init_ex =
      λ osr flags (w, l). let (ret, w') = lib.entropy_init_ex osr flags w in (ret, (w', l));
  collector_alloc =
      λ osr flags (w, l). let (c, w') = lib.collector_alloc osr flags w in (c, (w', l));
  read_entropy_safe = λ held n (w, l).
      let (got, w') = lib.read_entropy_safe held n w in (got, (w', l ++ given got));
  collector_free = λ held (w, l). (lib.collector_free held w, l);
  status = λ c n (w, l). let (answer, w') = lib.status c n w in (answer, (w', l));
  version = lib.version;
  now = λ (w, l). let (t, w') = lib.now w in (t, (w', l));
}

abbrev pub log_of : {W : Type 0} → W × List ℕ → List ℕ
log_of (w, l) = l

-- Every library has a log, if it is kept beside it.
pub recorded-Journal : {C W : Type 0} (lib : Library C W) → Journal (recorded lib) log_of
recorded-Journal lib = record {
  reads = λ held n w. refl;
  counts = λ w. refl;
  tests = λ osr flags w. refl;
  allocates = λ osr flags w. refl;
  frees = λ held w. refl;
  answers = λ c n w. refl;
}

module _ {C W : Type 0} (lib : Library C W) (log : W → List ℕ) (j : Journal lib log) where
  pub epoch_reading-log :
      (epoch : Option Tick) (w : W)
      → log (elim epoch as (λ e. Tick × W) [ some t ↦ (t, w) | none ↦ lib.now w ]).1 ≡ log w
  epoch_reading-log none w = j.counts w
  epoch_reading-log (some t) w = refl

module _ {C W F : Type 0} (lib : Library C W) (log : W → List ℕ) (j : Journal lib log) where
  abbrev pub logged : Rng C W F → List ℕ
  logged r = log r.world

  pub monitored-log :
      (f : Tick → Monitor F → Monitor F) (r : Rng C W F) → logged (monitored lib f r) ≡ logged r
  unfolding monitored
  monitored-log f r = epoch_reading-log lib log j r.monitor.epoch r.world

  pub shutdown_rng-log : (r : Rng C W F) → logged (shutdown_rng lib r) ≡ logged r
  unfolding shutdown_rng
  shutdown_rng-log r =
      monitored-log (λ t m. set_initialized t false m)
        (record r { world = lib.collector_free r.collector r.world; collector = none })
      ∙ j.frees r.collector r.world

  pub configure-log :
      (wanted : Option Settings) (r : Rng C W F) → logged (rng_configure wanted r).1 ≡ logged r
  unfolding rng_configure
  configure-log wanted r = elim (Option-cases r.collector) [
    | inl e ↦ rw (e, rng_configure) refl
    | inr (c, e) ↦ rw (e, rng_configure) refl
  ]

  fail_init-log : (code : ℤ) (r : Rng C W F) → logged (fail_init lib code r).1 ≡ logged r
  unfolding fail_init monitored
  fail_init-log code r =
      let m = monitored lib (λ t m. set_initialized t false m) r in
      monitored-log (λ t m. record_failure t code m) m
      ∙ monitored-log (λ t m. set_initialized t false m) r

  init_collector-log : (r : Rng C W F) → logged (init_collector lib r).1 ≡ logged r
  unfolding init_collector
  init_collector-log r =
      let flags = settings_to_flags r.settings in
      let asked = lib.collector_alloc r.settings.osr flags r.world in
      let r' = record r { callback_set = true; collector = asked.0; world = asked.1 } in
      let same = j.allocates r.settings.osr flags r.world in
      elim (Option-cases asked.0) [
        | inl e ↦ rw (e, init_collector) (fail_init-log err_alloc_failed r' ∙ same)
        | inr (c, e) ↦
            rw (e, init_collector) (monitored-log (λ t m. set_initialized t true m) r' ∙ same)
      ]

  after_test-log : (code : ℤ) (r : Rng C W F) → logged (after_test lib code r).1 ≡ logged r
  unfolding after_test
  after_test-log (pos zero) r = init_collector-log (record r { self_test_complete = true })
  after_test-log (pos (suc n)) r = fail_init-log err_self_test_failed r
  after_test-log (negsuc n) r = fail_init-log err_self_test_failed r

  pub init_rng-log : (r : Rng C W F) → logged (init_rng lib r).1 ≡ logged r
  unfolding init_rng
  init_rng-log r =
      let flags = settings_to_flags r.settings in
      let test = lib.entropy_init_ex r.settings.osr flags r.world in
      let P : ℤ × Rng C W F → Type 0 = λ x. logged x.1 ≡ logged r in
      elim (Option-cases r.collector) [
        | inr (c, e) ↦ rw (e, init_rng) refl
        | inl e ↦
            rw (e, init_rng)
              (if-elim P r.self_test_complete (init_collector-log r) (
                after_test-log test.0 (record r { world = test.1 })
                ∙ j.tests r.settings.osr flags r.world))
      ]

  record_alarms-log :
      (masks : List ℕ) (r : Rng C W F) → logged (record_alarms lib masks r) ≡ logged r
  unfolding record_alarms
  record_alarms-log [] r = refl
  record_alarms-log (mask ∷ masks) r =
      let told = monitored lib (λ t m. record_fips_failure t mask m) r in
      record_alarms-log masks (if r.callback_set then told else r)
      ∙ if-elim (λ (x : Rng C W F). logged x ≡ logged r) r.callback_set {x = told} {y = r}
          (monitored-log (λ t m. record_fips_failure t mask m) r) refl

  pub status-log :
      (busy : Bool) (n : ℕ) (r : Rng C W F) → logged (rng_get_status_json lib busy n r).1 ≡ logged r
  unfolding rng_get_status_json
  status-log busy n r =
      let P : ((ℤ × Option (List ℕ)) × Rng C W F) → Type 0 = λ x. logged x.1 ≡ logged r in
      if-elim P (n == 0) refl (
        if-elim P busy refl (elim (Option-cases r.collector) [
          | inl e ↦ rw (e, r.collector) refl
          | inr (c, e) ↦ rw (e, r.collector) (j.answers c n r.world)
        ]))

module _ {C W F : Type 0} ⦃d : Double F⦄ (lib : Library C W) (log : W → List ℕ)
    (j : Journal lib log) where
  -- What is written since the log was `before`.
  abbrev Since : List ℕ → Loop C W F → Type 0
  Since before s = log s.rng.world ≡ before ++ s.written

  read_once-Since :
      (before : List ℕ) (len : ℕ) (s : Loop C W F)
      → Since before s
      → Since before (read_once lib len s)
  unfolding read_once monitored
  read_once-Since before len s so_far =
      let w = (lib.now s.rng.world).1 in
      let (got, w') = lib.read_entropy_safe s.rng.collector (len - s.generated) w in
      let r = record (s.rng) { collector = got.collector_left; world = w' } in
      let told : log (read_once lib len s).rng.world ≡ (before ++ s.written) ++ given got =
        epoch_reading-log lib log j _ _
        ∙ j.counts _
        ∙ record_alarms-log lib log j got.alarms r
        ∙ j.reads s.rng.collector (len - s.generated) w
        ∙ ap (λ l. l ++ given got) (j.counts s.rng.world ∙ so_far) in
      elim (Bool-cases (ltb_ℤ (pos 0) got.ret)) [
        | inl h ↦ rw (h, read_once) (rw h at told ∙ append_assoc before s.written got.bytes)
        | inr h ↦ rw (h, read_once) (rw h at told ∙ append-nil _)
      ]

  read_loop-Since :
      (before : List ℕ) (fuel len : ℕ) (s : Loop C W F)
      → Since before s
      → Since before (read_loop lib fuel len s)
  unfolding read_loop
  read_loop-Since before zero len s so_far = so_far
  read_loop-Since before (suc fuel) len s so_far =
      let next = read_once-Since before len s so_far in
      let rest = read_loop-Since before fuel len (read_once lib len s) next in
      if-elim (Since before) (ltb s.generated len)
        (if-elim (Since before) (ltb_ℤ (pos 0) (read_once lib len s).ret) rest next) so_far

  attempt-log :
      (success : Bool) (n : ℕ) (x : F) (code : ℤ) (r : Rng C W F)
      → log (attempt lib success n x code r).world ≡ log r.world
  attempt-log success n x code r = j.counts _ ∙ epoch_reading-log lib log j r.monitor.epoch r.world

  -- Every call gives the bytes of its reads, in order.
  pub get_random_bytes-log :
      (has_buffer : Bool) (len : ℕ) (r : Rng C W F)
      → let (code, written, after) = get_random_bytes lib has_buffer len r in
        log after.world ≡ log r.world ++ written
  unfolding get_random_bytes generate
  get_random_bytes-log has_buffer len r =
      let P : (ℤ × List ℕ × Rng C W F) → Type 0 = λ x. log x.2.world ≡ log r.world ++ x.1 in
      let refused = λ (code : ℤ). attempt-log false 0 (lit 0) code r ∙ sym (append-nil _) in
      let begin_ : Loop C W F = record {
        ret = pos 0;
        generated = 0;
        written = [];
        rng = (read_counter lib r).1;
      } in
      let s = read_loop lib len len begin_ in
      let read : Since (log r.world) s =
        read_loop-Since (log r.world) len len begin_ (j.counts r.world ∙ sym (append-nil _)) in
      if-elim P (not has_buffer && not (len == 0)) (refused err_invalid_argument)
        (elim (Option-cases r.collector) [
          | inl e ↦ rw (e, r.collector) (refused err_not_initialized)
          | inr (c, e) ↦
              rw (e, r.collector)
                (if-elim P (len == 0) (sym (append-nil _))
                  (j.counts _ ∙ epoch_reading-log lib log j _ _ ∙ j.counts _ ∙ read))
        ])
