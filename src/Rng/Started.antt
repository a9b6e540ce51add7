-- ===== src/Rng/Started.antt =====
-- `init_rng` with a library that works.
use jitterentropy_analysis_d.Prelude.{true, none, some, ℕ, ◌≡◌, refl, inl, inr, Bool-cases}
use jitterentropy_analysis_d.Prelude.Int.{pos}
use jitterentropy_analysis_d.Library.{Library}
use jitterentropy_analysis_d.Rng.{
  Rng, settings_to_flags, init_collector, after_test, init_rng, monitored,
}

module _ {C W : Type 0} (lib : Library C W) where
  -- The self-test passes and a collector can be allocated.
  abbrev pub Starts : Type 0
  Starts =
      (osr flags : ℕ) (w : W)
      → ((lib.entropy_init_ex osr flags w).0 ≡ pos 0)
        × ((c : C) × ((lib.collector_alloc osr flags w).0 ≡ some c))

module _ {C W F : Type 0} (lib : Library C W) where
  init_collector_works :
      (r : Rng C W F)
      → Starts lib
      → ((init_collector lib r).0 ≡ pos 0)
        × ((c : C) × ((init_collector lib r).1.collector ≡ some c))
  unfolding init_collector monitored
  init_collector_works r starts =
      let (c, e) = (starts r.settings.osr (settings_to_flags r.settings) r.world).1 in
      rw (e, init_collector) (refl, (c, e))

  -- It returns 0 and leaves a collector.
  pub init_rng_works :
      (r : Rng C W F)
      → Starts lib
      → r.collector ≡ none
      → ((init_rng lib r).0 ≡ pos 0) × ((c : C) × ((init_rng lib r).1.collector ≡ some c))
  unfolding init_rng after_test
  init_rng_works r starts idle =
      let (passed, given) = starts r.settings.osr (settings_to_flags r.settings) r.world in
      let test = lib.entropy_init_ex r.settings.osr (settings_to_flags r.settings) r.world in
      elim (Bool-cases r.self_test_complete) [
        | inl t ↦
            rw (idle, init_rng, t)
              (init_collector_works (record r { collector = none; self_test_complete = true })
                starts)
        | inr t ↦
            rw (idle, init_rng, t, passed)
              (init_collector_works
                (record r { collector = none; self_test_complete = true; world = test.1 }) starts)
      ]
