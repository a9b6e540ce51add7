-- ===== src/Rng/Initialized.antt =====
-- The monitor says `initialized` exactly while there is a collector.
use jitterentropy_analysis_d.Prelude.{
  ℕ, zero, suc, ◌-◌, Bool, true, false, Option, none, some, List, [], ◌∷◌, ◌≡◌, refl, sym, ap, ◌∙◌,
  inl, inr, Bool-cases, Option-cases, if-elim, not, ◌&&◌, ◌==◌, ltb,
}
use jitterentropy_analysis_d.Prelude.Int.{ℤ, pos, negsuc, ltb_ℤ}
use jitterentropy_analysis_d.Double.{Double}
use jitterentropy_analysis_d.Monitor.{record_fips_failure}
use jitterentropy_analysis_d.Monitor.Initialized.{
  set_initialized_lem, record_failure-initialized, record_fips_failure-initialized,
  record_jitter_sample-initialized, record_generation_attempt-initialized,
}
use jitterentropy_analysis_d.Library.{Library, err_alloc_failed, err_self_test_failed}
use jitterentropy_analysis_d.Rng.{
  Settings, settings_to_flags, Rng, Loop, Call, configure, init, get_bytes, shutdown, rng_configure,
  monitored, fail_init, init_collector, after_test, init_rng, shutdown_rng, record_alarms,
  read_once, read_loop, attempt, generate, get_random_bytes, call, run_calls,
}

abbrev pub is_some {ℓ} : {A : Type ℓ} → Option A → Bool
is_some none = false
is_some (some a) = true

-- A read with a collector leaves one.
abbrev pub Remains : {C W : Type 0} → Library C W → Type 0
Remains {C} {W} lib =
    (c : C) (n : ℕ) (w : W) → is_some (lib.read_entropy_safe (some c) n w).0.collector_left ≡ true

-- What the monitor says of the collector is true.
abbrev pub Agrees : {C W F : Type 0} → Rng C W F → Type 0
Agrees r = r.monitor.stats.initialized ≡ is_some r.collector

module _ {C W F : Type 0} (lib : Library C W) where
  pub configure-Agrees :
      (wanted : Option Settings) (r : Rng C W F) → Agrees r → Agrees (rng_configure wanted r).1
  unfolding rng_configure
  configure-Agrees wanted r a = elim (Option-cases r.collector) [
    | inl e ↦ rw (e, rng_configure) a
    | inr (c, e) ↦ rw (e, rng_configure) a
  ]

  fail_init-Agrees :
      (code : ℤ) (r : Rng C W F) → r.collector ≡ none → Agrees (fail_init lib code r).1
  unfolding fail_init monitored
  fail_init-Agrees code r e =
      record_failure-initialized _ code _ ∙ set_initialized_lem _ false _ ∙ sym (ap is_some e)

  init_collector-Agrees : (r : Rng C W F) → Agrees (init_collector lib r).1
  unfolding init_collector monitored
  init_collector-Agrees r =
      let asked = lib.collector_alloc r.settings.osr (settings_to_flags r.settings) r.world in
      elim (Option-cases asked.0) [
        | inl e ↦
            rw (e, init_collector)
              (fail_init-Agrees err_alloc_failed
                (record r { callback_set = true; collector = asked.0; world = asked.1 }) e)
        | inr (c, e) ↦ rw (e, init_collector) (set_initialized_lem _ true _ ∙ sym (ap is_some e))
      ]

  after_test-Agrees :
      (code : ℤ) (r : Rng C W F) → r.collector ≡ none → Agrees (after_test lib code r).1
  unfolding after_test
  after_test-Agrees (pos zero) r e = init_collector-Agrees (record r { self_test_complete = true })
  after_test-Agrees (pos (suc n)) r e = fail_init-Agrees err_self_test_failed r e
  after_test-Agrees (negsuc n) r e = fail_init-Agrees err_self_test_failed r e

  pub init_rng-Agrees : (r : Rng C W F) → Agrees r → Agrees (init_rng lib r).1
  unfolding init_rng
  init_rng-Agrees r a =
      let test = lib.entropy_init_ex r.settings.osr (settings_to_flags r.settings) r.world in
      elim (Option-cases r.collector) [
        | inr (c, e) ↦ rw (e, init_rng) a
        | inl e ↦ elim (Bool-cases r.self_test_complete) [
          | inl t ↦
              rw (e, init_rng, t) (init_collector-Agrees (record r { self_test_complete = true }))
          | inr t ↦
              rw (e, init_rng, t)
                (after_test-Agrees test.0 (record r { self_test_complete = false; world = test.1 })
                  e)
        ]
      ]

  pub shutdown_rng-Agrees : (r : Rng C W F) → Agrees (shutdown_rng lib r)
  unfolding shutdown_rng monitored
  shutdown_rng-Agrees r = set_initialized_lem _ false _

  alarms-Agrees : (masks : List ℕ) (r : Rng C W F) → Agrees r → Agrees (record_alarms lib masks r)
  unfolding record_alarms monitored
  alarms-Agrees [] r a = a
  alarms-Agrees (mask ∷ masks) r a = alarms-Agrees masks _ (
      if-elim Agrees r.callback_set {x = monitored lib (λ t m. record_fips_failure t mask m) r}
        {y = r} (record_fips_failure-initialized _ mask _ ∙ a) a)

  alarms-collector :
      (masks : List ℕ) (r : Rng C W F) → (record_alarms lib masks r).collector ≡ r.collector
  unfolding record_alarms monitored
  alarms-collector [] r = refl
  alarms-collector (mask ∷ masks) r =
      alarms-collector masks _
      ∙ if-elim (λ (s : Rng C W F). s.collector ≡ r.collector) r.callback_set
          {x = monitored lib (λ t m. record_fips_failure t mask m) r} {y = r} refl refl

-- With a collector.
abbrev Ready : {C W F : Type 0} → Rng C W F → Type 0
Ready r = Agrees r × (is_some r.collector ≡ true)

module _ {C W : Type 0} (lib : Library C W) where
  left_there :
      (held : Option C) (n : ℕ) (w : W)
      → Remains lib
      → is_some held ≡ true
      → is_some (lib.read_entropy_safe held n w).0.collector_left ≡ true
  left_there none n w remains e = cc
  left_there (some c) n w remains e = remains c n w

module _ {C W F : Type 0} ⦃d : Double F⦄ (lib : Library C W) where
  read_once-Ready :
      (len : ℕ) (s : Loop C W F) → Remains lib → Ready s.rng → Ready (read_once lib len s).rng
  unfolding read_once monitored
  read_once-Ready len s remains (a, there) =
      let w = (lib.now s.rng.world).1 in
      let (got, w') = lib.read_entropy_safe s.rng.collector (len - s.generated) w in
      let left = left_there lib s.rng.collector (len - s.generated) w remains there in
      let r : Rng C W F = record (s.rng) { collector = got.collector_left; world = w' } in
      (
        record_jitter_sample-initialized _ _ _
            ∙ alarms-Agrees lib got.alarms r (a ∙ there ∙ sym left),
        ap is_some (alarms-collector lib got.alarms r) ∙ left,
      )

  read_loop-Ready :
      (fuel len : ℕ) (s : Loop C W F)
      → Remains lib
      → Ready s.rng
      → Ready (read_loop lib fuel len s).rng
  unfolding read_loop
  read_loop-Ready zero len s remains a = a
  read_loop-Ready (suc fuel) len s remains a =
      let P : Loop C W F → Type 0 = λ t. Ready t.rng in
      let next = read_once-Ready len s remains a in
      let rest = read_loop-Ready fuel len (read_once lib len s) remains next in
      if-elim P (ltb s.generated len)
        (if-elim P (ltb_ℤ (pos 0) (read_once lib len s).ret) rest next) a

  attempt-Agrees :
      (success : Bool) (n : ℕ) (x : F) (code : ℤ) (r : Rng C W F)
      → Agrees r
      → Agrees (attempt lib success n x code r)
  attempt-Agrees success n x code r a =
      record_generation_attempt-initialized _ _ success n x code _ ∙ a

  generate-Agrees :
      (len : ℕ) (r : Rng C W F) → Remains lib → Ready r → Agrees (generate lib len r).2
  unfolding generate
  generate-Agrees len r remains a =
      let (ok, there) = read_loop-Ready len len _ remains a in
      record_generation_attempt-initialized _ _ _ _ _ _ _ ∙ ok

  pub get_random_bytes-Agrees :
      (has_buffer : Bool) (len : ℕ) (r : Rng C W F)
      → Remains lib
      → Agrees r
      → Agrees (get_random_bytes lib has_buffer len r).2
  unfolding get_random_bytes
  get_random_bytes-Agrees has_buffer len r remains a =
      elim (Bool-cases (not has_buffer && not (len == 0))) [
        | inl h ↦ rw (h, get_random_bytes) (attempt-Agrees false 0 _ _ r a)
        | inr h ↦ elim (Option-cases r.collector) [
          | inl e ↦ rw (h, get_random_bytes, e) (attempt-Agrees false 0 _ _ r a)
          | inr (c, e) ↦ elim (Bool-cases (len == 0)) [
            | inl z ↦ rw (h, get_random_bytes, e, z) a
            | inr z ↦
                rw (h, get_random_bytes, e, z) (generate-Agrees len r remains (a, ap is_some e))
          ]
        ]
      ]

  call-Agrees : (c : Call) (r : Rng C W F) → Remains lib → Agrees r → Agrees (call lib c r)
  unfolding call
  call-Agrees (configure wanted) r remains a = configure-Agrees lib wanted r a
  call-Agrees init r remains a = init_rng-Agrees lib r a
  call-Agrees (get_bytes has_buffer len) r remains a =
      get_random_bytes-Agrees has_buffer len r remains a
  call-Agrees shutdown r remains a = shutdown_rng-Agrees lib r

  -- Where a read with a collector leaves one: whatever the calls of `rng_configure`, `init_rng`,
  -- `get_random_bytes` and `shutdown_rng`, whether they fail or not, if the monitor's flag `initialized`
  -- says before them whether there is a collector, it does so after them.
  pub run_calls-Agrees :
      (calls : List Call) (r : Rng C W F) → Remains lib → Agrees r → Agrees (run_calls lib calls r)
  unfolding run_calls
  run_calls-Agrees [] r remains a = a
  run_calls-Agrees (c ∷ calls) r remains a =
      run_calls-Agrees calls (call lib c r) remains (call-Agrees c r remains a)
