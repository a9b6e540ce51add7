-- ===== src/Rng/Kept.antt =====
-- What all calls of the wrapper but `rng_configure` keep, and that they keep the settings.
use jitterentropy_analysis_d.Prelude.{
  ℕ, zero, suc, ◌-◌, Bool, true, Option, List, [], ◌∷◌, ◌≡◌, refl, inl, inr, Option-cases, if-elim,
  not, ◌&&◌, ◌==◌, ltb,
}
use jitterentropy_analysis_d.Prelude.Int.{ℤ, pos, negsuc, ltb_ℤ}
use jitterentropy_analysis_d.Double.{Double}
use jitterentropy_analysis_d.Monitor.{Monitor, record_fips_failure}
use jitterentropy_analysis_d.Library.{Library}
use jitterentropy_analysis_d.Rng.{
  Settings, settings_to_flags, Rng, Loop, monitored, init_collector, after_test, init_rng,
  shutdown_rng, record_alarms, read_once, read_loop, generate, get_random_bytes,
  rng_get_status_json,
}
use jitterentropy_analysis_d.Rng.Allocated.{ValidRng, Allocates, Keeps, init-Valid, shutdown-Valid}
use jitterentropy_analysis_d.Rng.Valid.{get_random_bytes-Valid}

-- A property of the wrapper's state that each of these calls keeps. `aside`: of the
-- monitor it looks at `initialized` at most, and not at the world.
pub record Kept {C W F : Type 0} ⦃d : Double F⦄ (lib : Library C W) (P : Rng C W F → Type 0)
    : Type 0 where
  pub aside :
      (m : Monitor F) (w : W) (r : Rng C W F)
      → m.stats.initialized ≡ r.monitor.stats.initialized
      → P r
      → P (record r { monitor = m; world = w })
  pub init_keeps : (r : Rng C W F) → P r → P (init_rng lib r).1
  pub get_keeps : (n : ℕ) (r : Rng C W F) → P r → P (get_random_bytes lib true n r).2
  pub shutdown_keeps : (r : Rng C W F) → P r → P (shutdown_rng lib r)

module _ {C W F : Type 0} ⦃d : Double F⦄ (lib : Library C W) (P : Rng C W F → Type 0) where
  pub status-Kept :
      (busy : Bool) (buflen : ℕ) (r : Rng C W F)
      → Kept lib P
      → P r
      → P (rng_get_status_json lib busy buflen r).1
  unfolding rng_get_status_json
  status-Kept busy buflen r kept p =
      if-elim (λ (x : (ℤ × Option (List ℕ)) × Rng C W F). P x.1) (buflen == 0) p
        (if-elim (λ (x : (ℤ × Option (List ℕ)) × Rng C W F). P x.1) busy p
          (elim (Option-cases r.collector) [
            | inl e ↦ rw (e, r.collector) p
            | inr (c, e) ↦
                rw (e, r.collector) (kept.aside r.monitor (lib.status c buflen r.world).1 r refl p)
          ]))

module _ {C W F : Type 0} ⦃d : Double F⦄ (lib : Library C W) (s : Settings) where
  abbrev pub With : Rng C W F → Type 0
  With r = r.settings ≡ s

  init_collector-With : (r : Rng C W F) → With r → With (init_collector lib r).1
  unfolding init_collector monitored
  init_collector-With r e =
      let asked = lib.collector_alloc r.settings.osr (settings_to_flags r.settings) r.world in
      elim (Option-cases asked.0) [
        | inl h ↦ rw (h, init_collector) e
        | inr (c, h) ↦ rw (h, init_collector) e
      ]

  after_test-With : (code : ℤ) (r : Rng C W F) → With r → With (after_test lib code r).1
  unfolding after_test monitored
  after_test-With (pos zero) r e = init_collector-With (record r { self_test_complete = true }) e
  after_test-With (pos (suc n)) r e = e
  after_test-With (negsuc n) r e = e

  init_rng-With : (r : Rng C W F) → With r → With (init_rng lib r).1
  unfolding init_rng
  init_rng-With r e =
      let test = lib.entropy_init_ex r.settings.osr (settings_to_flags r.settings) r.world in
      elim (Option-cases r.collector) [
        | inl h ↦
            rw (h, init_rng)
              (if-elim (λ (x : ℤ × Rng C W F). With x.1) r.self_test_complete
                (init_collector-With r e) (after_test-With test.0 (record r { world = test.1 }) e))
        | inr (c, h) ↦ rw (h, init_rng) e
      ]

  record_alarms-With : (masks : List ℕ) (r : Rng C W F) → With r → With (record_alarms lib masks r)
  unfolding record_alarms monitored
  record_alarms-With [] r e = e
  record_alarms-With (mask ∷ masks) r e = record_alarms-With masks _ (
      if-elim With r.callback_set {x = monitored lib (λ t m. record_fips_failure t mask m) r}
        {y = r} e e)

  read_once-With : (len : ℕ) (t : Loop C W F) → With t.rng → With (read_once lib len t).rng
  unfolding read_once monitored
  read_once-With len t e =
      let w = (lib.now t.rng.world).1 in
      let (got, w') = lib.read_entropy_safe t.rng.collector (len - t.generated) w in
      record_alarms-With got.alarms (record (t.rng) { collector = got.collector_left; world = w' })
        e

  read_loop-With :
      (fuel len : ℕ) (t : Loop C W F) → With t.rng → With (read_loop lib fuel len t).rng
  unfolding read_loop
  read_loop-With zero len t e = e
  read_loop-With (suc fuel) len t e =
      let P : Loop C W F → Type 0 = λ x. With x.rng in
      let next = read_once-With len t e in
      let rest = read_loop-With fuel len (read_once lib len t) next in
      if-elim P (ltb t.generated len)
        (if-elim P (ltb_ℤ (pos 0) (read_once lib len t).ret) rest next) e

  get_random_bytes-With :
      (has_buffer : Bool) (len : ℕ) (r : Rng C W F)
      → With r
      → With (get_random_bytes lib has_buffer len r).2
  unfolding get_random_bytes generate
  get_random_bytes-With has_buffer len r e =
      let P : (ℤ × List ℕ × Rng C W F) → Type 0 = λ x. With x.2 in
      if-elim P (not has_buffer && not (len == 0)) e (elim (Option-cases r.collector) [
        | inl h ↦ rw (h, r.collector) e
        | inr (c, h) ↦ rw (h, r.collector) (if-elim P (len == 0) e (read_loop-With len len _ e))
      ])

  shutdown_rng-With : (r : Rng C W F) → With r → With (shutdown_rng lib r)
  unfolding shutdown_rng monitored
  shutdown_rng-With r e = e

module _ {C W F : Type 0} ⦃d : Double F⦄ (lib : Library C W) (Under : ℕ → ℕ → C → Type 0) where
  -- The settings are `s`, and a collector was made with them.
  abbrev pub MadeWith : Settings → Rng C W F → Type 0
  MadeWith s r = ValidRng lib Under r × With lib s r

  pub MadeWith-Kept : (s : Settings) → Allocates lib Under → Keeps lib Under → Kept lib (MadeWith s)
  MadeWith-Kept s allocates keeps = record {
    aside = λ m w r e p. p;
    init_keeps = λ r p. (init-Valid lib Under r allocates p.0, init_rng-With lib s r p.1);
    get_keeps = λ n r p. (
      get_random_bytes-Valid lib Under true n r keeps p.0,
      get_random_bytes-With lib s true n r p.1,
    );
    shutdown_keeps = λ r p. (shutdown-Valid lib Under r p.0, shutdown_rng-With lib s r p.1);
  }
