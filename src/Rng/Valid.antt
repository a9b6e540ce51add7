-- ===== src/Rng/Valid.antt =====
-- A collector in use was allocated with the settings in force, after a self-test with them.
use jitterentropy_analysis_d.Prelude.{
  ℕ, zero, suc, ◌-◌, Bool, false, none, List, [], ◌∷◌, ◌≡◌, inl, inr, Bool-cases, if-elim,
  Option-cases, not, ◌&&◌, ◌==◌, ltb,
}
use jitterentropy_analysis_d.Prelude.Int.{pos, ltb_ℤ}
use jitterentropy_analysis_d.Double.{Double}
use jitterentropy_analysis_d.Monitor.{record_fips_failure}
use jitterentropy_analysis_d.Library.{Library}
use jitterentropy_analysis_d.Rng.{
  settings_to_flags, Rng, Loop, Call, configure, init, get_bytes, shutdown, monitored,
  record_alarms, read_once, read_loop, generate, get_random_bytes, call, run_calls,
}
use jitterentropy_analysis_d.Rng.Allocated.{
  Allocates, Keeps, Descends, StaysNone, Allocates-Descends, Keeps-Descends, InUse, ValidRng,
  Valid-InUse, configure-Valid, shutdown-Valid, init-Valid,
}

module _ {C W F : Type 0} ⦃d : Double F⦄ (lib : Library C W) (Under : ℕ → ℕ → C → Type 0) where
  alarms-Valid :
      (masks : List ℕ) (r : Rng C W F)
      → ValidRng lib Under r
      → ValidRng lib Under (record_alarms lib masks r)
  unfolding record_alarms monitored
  alarms-Valid [] r v = v
  alarms-Valid (mask ∷ masks) r v = alarms-Valid masks _ (
      if-elim (ValidRng lib Under) r.callback_set
        {x = monitored lib (λ t m. record_fips_failure t mask m) r} {y = r} v v)

  read_once-Valid :
      (len : ℕ) (s : Loop C W F)
      → Keeps lib Under
      → ValidRng lib Under s.rng
      → ValidRng lib Under (read_once lib len s).rng
  unfolding read_once monitored
  read_once-Valid len s keeps v =
      let w = (lib.now s.rng.world).1 in
      let got = (lib.read_entropy_safe s.rng.collector (len - s.generated) w).0 in
      alarms-Valid got.alarms _ record {
        passed = v.passed;
        before_use = λ left e.
            let (c, had, same) = keeps s.rng.collector (len - s.generated) w left e in
            v.before_use c had;
        configured = λ left e.
            let (c, had, same) = keeps s.rng.collector (len - s.generated) w left e in
            same s.rng.settings.osr (settings_to_flags s.rng.settings) (v.configured c had);
      }

  read_loop-Valid :
      (fuel len : ℕ) (s : Loop C W F)
      → Keeps lib Under
      → ValidRng lib Under s.rng
      → ValidRng lib Under (read_loop lib fuel len s).rng
  unfolding read_loop
  read_loop-Valid zero len s keeps v = v
  read_loop-Valid (suc fuel) len s keeps v =
      let P : Loop C W F → Type 0 = λ t. ValidRng lib Under t.rng in
      let next = read_once-Valid len s keeps v in
      let rest = read_loop-Valid fuel len (read_once lib len s) keeps next in
      if-elim P (ltb s.generated len)
        (if-elim P (ltb_ℤ (pos 0) (read_once lib len s).ret) rest next) v

  generate-Valid :
      (len : ℕ) (r : Rng C W F)
      → Keeps lib Under
      → ValidRng lib Under r
      → ValidRng lib Under (generate lib len r).2
  unfolding generate
  generate-Valid len r keeps v = read_loop-Valid len len _ keeps v

  pub get_random_bytes-Valid :
      (has_buffer : Bool) (len : ℕ) (r : Rng C W F)
      → Keeps lib Under
      → ValidRng lib Under r
      → ValidRng lib Under (get_random_bytes lib has_buffer len r).2
  unfolding get_random_bytes
  get_random_bytes-Valid has_buffer len r keeps v =
      elim (Bool-cases (not has_buffer && not (len == 0))) [
        | inl h ↦ rw (h, get_random_bytes) v
        | inr h ↦ elim (Option-cases r.collector) [
          | inl e ↦ rw (h, get_random_bytes, e) v
          | inr (c, e) ↦ elim (Bool-cases (len == 0)) [
            | inl z ↦ rw (h, get_random_bytes, e, z) v
            | inr z ↦ rw (h, get_random_bytes, e, z) (generate-Valid len r keeps v)
          ]
        ]
      ]

  call-Valid :
      (c : Call) (r : Rng C W F)
      → Allocates lib Under
      → Keeps lib Under
      → ValidRng lib Under r
      → ValidRng lib Under (call lib c r)
  unfolding call
  call-Valid (configure wanted) r allocates keeps v = configure-Valid lib Under wanted r v
  call-Valid init r allocates keeps v = init-Valid lib Under r allocates v
  call-Valid (get_bytes has_buffer len) r allocates keeps v =
      get_random_bytes-Valid has_buffer len r keeps v
  call-Valid shutdown r allocates keeps v = shutdown-Valid lib Under r v

  run_calls-Valid :
      (calls : List Call) (r : Rng C W F)
      → Allocates lib Under
      → Keeps lib Under
      → ValidRng lib Under r
      → ValidRng lib Under (run_calls lib calls r)
  unfolding run_calls
  run_calls-Valid [] r allocates keeps v = v
  run_calls-Valid (c ∷ calls) r allocates keeps v =
      run_calls-Valid calls (call lib c r) allocates keeps (call-Valid c r allocates keeps v)

module _ {C W F : Type 0} ⦃d : Double F⦄ (lib : Library C W) where
  -- Where a read without a collector leaves none: after any calls of `rng_configure`, `init_rng`,
  -- `get_random_bytes` and `shutdown_rng` from a state without collector and self-test, a collector that
  -- is there was allocated with the current settings, or the library's reads have put it in the place of
  -- one that was, and the self-test has passed with these settings.
  pub run_calls_lem :
      (calls : List Call) (r : Rng C W F)
      → StaysNone lib
      → r.collector ≡ none
      → r.self_test_complete ≡ false
      → let s = run_calls lib calls r in InUse lib (Descends lib) s.settings s.collector
  run_calls_lem calls r stays idle fresh =
      let start : ValidRng lib (Descends lib) r = record {
        passed = λ t. cc;
        before_use = λ c h. cc;
        configured = λ c h. cc;
      } in
      let s = run_calls lib calls r in
      let v =
        run_calls-Valid lib (Descends lib) calls r (Allocates-Descends lib)
          (Keeps-Descends lib stays) start in
      Valid-InUse lib (Descends lib) s.collector v
