-- ===== src/Rng/Release.antt =====
-- Where the wrapper has no collector.
use jitterentropy_analysis_d.Prelude.{
  ℕ, zero, suc, Bool, true, false, Option, none, ◌≡◌, ◌≢◌, refl, inl, inr, Bool-cases, Option-cases,
  ◌==◌,
}
use jitterentropy_analysis_d.Prelude.Int.{ℤ, pos, negsuc}
use jitterentropy_analysis_d.Monitor.{Tick, Monitor}
use jitterentropy_analysis_d.Library.{Library}
use jitterentropy_analysis_d.Rng.{
  Settings, chosen, settings_to_flags, Rng, rng_configure, monitored, init_collector, after_test,
  init_rng, shutdown_rng, rng_get_status_json,
}

module _ {C W F : Type 0} where
  pub rng_configure-collector :
      (wanted : Option Settings) (r : Rng C W F)
      → (rng_configure wanted r).1.collector ≡ r.collector
  unfolding rng_configure
  rng_configure-collector wanted r = elim (Option-cases r.collector) [
    | inl e ↦ rw (e, rng_configure) e
    | inr (c, e) ↦ rw (e, rng_configure) e
  ]

  -- Without a collector the settings are taken.
  pub rng_configure_idle :
      (wanted : Option Settings) (r : Rng C W F)
      → r.collector ≡ none
      → rng_configure wanted r
        ≡ (pos 0, record r { settings = chosen wanted; self_test_complete = false })
  unfolding rng_configure
  rng_configure_idle wanted r e = rw (e, r.collector) refl

module _ {C W F : Type 0} (lib : Library C W) where
  pub shutdown_rng-collector : (r : Rng C W F) → (shutdown_rng lib r).collector ≡ none
  unfolding shutdown_rng monitored
  shutdown_rng-collector r = refl

  pub monitored-collector :
      (f : Tick → Monitor F → Monitor F) (r : Rng C W F)
      → (monitored lib f r).collector ≡ r.collector
  unfolding monitored
  monitored-collector f r = refl

  pub rng_get_status_json-collector :
      (busy : Bool) (buflen : ℕ) (r : Rng C W F)
      → (rng_get_status_json lib busy buflen r).1.collector ≡ r.collector
  unfolding rng_get_status_json
  rng_get_status_json-collector busy buflen r = elim (Bool-cases (buflen == 0)) [
    | inl z ↦ rw (z, rng_get_status_json) refl
    | inr z ↦ elim (Bool-cases busy) [
      | inl b ↦ rw (z, rng_get_status_json, b) refl
      | inr b ↦ elim (Option-cases r.collector) [
        | inl e ↦ rw (z, rng_get_status_json, b, e) e
        | inr (c, e) ↦ rw (z, rng_get_status_json, b, e) e
      ]
    ]
  ]

  init_collector-fails :
      (r : Rng C W F) → (init_collector lib r).0 ≢ pos 0 → (init_collector lib r).1.collector ≡ none
  unfolding init_collector monitored
  init_collector-fails r =
      let asked = lib.collector_alloc r.settings.osr (settings_to_flags r.settings) r.world in
      elim (Option-cases asked.0) [
        | inl e ↦ rw (e, init_collector) (λ h. e)
        | inr (c, e) ↦ rw (e, init_collector) (λ h. absurd (h refl))
      ]

  after_test-fails :
      (code : ℤ) (r : Rng C W F)
      → r.collector ≡ none
      → (after_test lib code r).0 ≢ pos 0
      → (after_test lib code r).1.collector ≡ none
  unfolding after_test monitored
  after_test-fails (pos zero) r e h =
      init_collector-fails (record r { self_test_complete = true }) h
  after_test-fails (pos (suc n)) r e h = e
  after_test-fails (negsuc n) r e h = e

  -- A failed initialisation leaves no collector where there was none.
  pub init_rng-fails :
      (r : Rng C W F)
      → r.collector ≡ none
      → (init_rng lib r).0 ≢ pos 0
      → (init_rng lib r).1.collector ≡ none
  unfolding init_rng
  init_rng-fails r e =
      let test = lib.entropy_init_ex r.settings.osr (settings_to_flags r.settings) r.world in
      elim (Bool-cases r.self_test_complete) [
        | inl t ↦
            rw (e, init_rng, t) (init_collector-fails (record r { self_test_complete = true }))
        | inr t ↦
            rw (e, init_rng, t)
              (after_test-fails test.0 (record r { self_test_complete = false; world = test.1 }) e)
      ]
