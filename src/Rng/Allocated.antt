-- ===== src/Rng/Allocated.antt =====
-- What a collector in use was made with, and what making, configuring and freeing one keep of it.
use jitterentropy_analysis_d.Prelude.{
  ℕ, zero, suc, Bool, true, false, Option, none, some, ◌≡◌, refl, inl, inr, Bool-cases,
  Option-cases,
}
use jitterentropy_analysis_d.Prelude.Int.{ℤ, pos, negsuc}
use jitterentropy_analysis_d.Double.{Double}
use jitterentropy_analysis_d.Library.{Library}
use jitterentropy_analysis_d.Rng.{
  Settings, chosen, settings_to_flags, Rng, after_test, rng_configure, monitored, init_collector,
  init_rng, shutdown_rng,
}

-- The collector was allocated with these settings, or a read left it in the place of one that goes back
-- to them: behind a health failure the library puts a collector with a higher rate there.
pub data Descends {C W : Type 0} (lib : Library C W) (osr flags : ℕ) : C → Type 0 where
  allocated :
      {c : C} (w : W) → (lib.collector_alloc osr flags w).0 ≡ some c → Descends lib osr flags c
  left_by_read :
      {c left : C} (n : ℕ) (w : W)
      → Descends lib osr flags c
      → (lib.read_entropy_safe (some c) n w).0.collector_left ≡ some left
      → Descends lib osr flags left

-- A read without a collector leaves none.
abbrev pub StaysNone : {C W : Type 0} → Library C W → Type 0
StaysNone {C} {W} lib = (n : ℕ) (w : W) → (lib.read_entropy_safe none n w).0.collector_left ≡ none

module _ {C W : Type 0} (lib : Library C W) where
  -- The self-test has returned 0 for these settings.
  abbrev pub Passed : Settings → Type 0
  Passed s = (w : W) × ((lib.entropy_init_ex s.osr (settings_to_flags s) w).0 ≡ pos 0)

  -- `Under` holds of what allocation gives for the settings asked for.
  abbrev pub Allocates : (ℕ → ℕ → C → Type 0) → Type 0
  Allocates Under =
      (osr flags : ℕ) (w : W) (c : C)
      → (lib.collector_alloc osr flags w).0 ≡ some c
      → Under osr flags c

  -- A read leaves a collector only where there was one, and `Under` goes on holding.
  abbrev pub Keeps : (ℕ → ℕ → C → Type 0) → Type 0
  Keeps Under =
      (held : Option C) (n : ℕ) (w : W) (left : C)
      → (lib.read_entropy_safe held n w).0.collector_left ≡ some left
      → (c : C) × (held ≡ some c) × ((osr flags : ℕ) → Under osr flags c → Under osr flags left)

  -- `Under osr flags c`: the collector goes back to these settings.
  pub record Valid (Under : ℕ → ℕ → C → Type 0) (held : Option C) (tested : Bool) (s : Settings)
      : Type 0 where
    pub passed : tested ≡ true → Passed s
    pub before_use : (c : C) → held ≡ some c → tested ≡ true
    pub configured : (c : C) → held ≡ some c → Under s.osr (settings_to_flags s) c

  -- What is promised of a collector, if there is one.
  abbrev pub InUse : (ℕ → ℕ → C → Type 0) → Settings → Option C → Type 0
  InUse Under s none = Unit
  InUse Under s (some c) = Passed s × Under s.osr (settings_to_flags s) c

  abbrev pub ValidRng : {F : Type 0} → (ℕ → ℕ → C → Type 0) → Rng C W F → Type 0
  ValidRng Under r = Valid Under r.collector r.self_test_complete r.settings

module _ {C W : Type 0} (lib : Library C W) where
  pub Allocates-Descends : Allocates lib (Descends lib)
  Allocates-Descends osr flags w c e = allocated w e

  pub Keeps-Descends : StaysNone lib → Keeps lib (Descends lib)
  Keeps-Descends stays none n w left e = let nothing = stays n w in cc
  Keeps-Descends stays (some c) n w left e = (c, refl, λ osr flags from. left_by_read n w from e)

module _ {C W : Type 0} (lib : Library C W) (Under : ℕ → ℕ → C → Type 0) where
  pub idle_Valid : (b : Bool) (s : Settings) → (b ≡ true → Passed lib s) → Valid lib Under none b s
  idle_Valid b s p = record { passed = p; before_use = λ c e. cc; configured = λ c e. cc }

  pub Valid-InUse :
      (held : Option C) {b : Bool} {s : Settings}
      → Valid lib Under held b s
      → InUse lib Under s held
  Valid-InUse none v = tt
  Valid-InUse (some c) v = (v.passed (v.before_use c refl), v.configured c refl)

module _ {C W F : Type 0} ⦃d : Double F⦄ (lib : Library C W) (Under : ℕ → ℕ → C → Type 0) where
  pub configure-Valid :
      (wanted : Option Settings) (r : Rng C W F)
      → ValidRng lib Under r
      → ValidRng lib Under (rng_configure wanted r).1
  unfolding rng_configure
  configure-Valid wanted r v = elim (Option-cases r.collector) [
    | inl e ↦ rw (e, r.collector) (idle_Valid lib Under false (chosen wanted) (λ e. cc))
    | inr (c, e) ↦ rw (e, r.collector) (rw (e, r.collector) at v)
  ]

  pub shutdown-Valid :
      (r : Rng C W F) → ValidRng lib Under r → ValidRng lib Under (shutdown_rng lib r)
  unfolding shutdown_rng monitored
  shutdown-Valid r v = idle_Valid lib Under r.self_test_complete r.settings v.passed

  init_collector-Valid :
      (r : Rng C W F)
      → Allocates lib Under
      → r.self_test_complete ≡ true
      → Passed lib r.settings
      → ValidRng lib Under (init_collector lib r).1
  unfolding init_collector monitored
  init_collector-Valid r allocates t p =
      let flags = settings_to_flags r.settings in
      let asked = lib.collector_alloc r.settings.osr flags r.world in
      let good : Valid lib Under asked.0 r.self_test_complete r.settings = record {
        passed = λ h. p;
        before_use = λ c h. t;
        configured = λ c h. allocates r.settings.osr flags r.world c h;
      } in
      elim (Option-cases asked.0) [
        | inl e ↦ rw (e, init_collector) good
        | inr (c, e) ↦ rw (e, init_collector) good
      ]

  after_test-Valid :
      (code : ℤ) (r : Rng C W F)
      → Allocates lib Under
      → r.collector ≡ none
      → r.self_test_complete ≡ false
      → (code ≡ pos 0 → Passed lib r.settings)
      → ValidRng lib Under (after_test lib code r).1
  unfolding after_test monitored
  after_test-Valid (pos zero) r allocates idle fresh p =
      init_collector-Valid (record r { self_test_complete = true }) allocates refl (p refl)
  after_test-Valid (pos (suc n)) r allocates idle fresh p =
      rw (idle, r.collector) (idle_Valid lib Under r.self_test_complete r.settings (λ h. cc))
  after_test-Valid (negsuc n) r allocates idle fresh p =
      rw (idle, r.collector) (idle_Valid lib Under r.self_test_complete r.settings (λ h. cc))

  pub init-Valid :
      (r : Rng C W F)
      → Allocates lib Under
      → ValidRng lib Under r
      → ValidRng lib Under (init_rng lib r).1
  unfolding init_rng
  init-Valid r allocates v =
      let flags = settings_to_flags r.settings in
      let test = lib.entropy_init_ex r.settings.osr flags r.world in
      elim (Option-cases r.collector) [
        | inr (c, e) ↦ rw (e, r.collector) (rw (e, r.collector) at v)
        | inl e ↦ elim (Bool-cases r.self_test_complete) [
          | inl t ↦
              rw (e, init_rng, t)
                (init_collector-Valid (record r { self_test_complete = true }) allocates refl
                  (v.passed t))
          | inr t ↦
              rw (e, init_rng, t)
                (after_test-Valid test.0 (record r { self_test_complete = false; world = test.1 })
                  allocates e refl (λ z. (r.world, z)))
        ]
      ]
