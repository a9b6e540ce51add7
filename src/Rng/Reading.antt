-- ===== src/Rng/Reading.antt =====
-- What `get_random_bytes` delivers and reports.
use jitterentropy_analysis_d.Prelude.{
  ℕ, zero, suc, ◌-◌, ◌≤◌, ◌<◌, true, false, none, some, ◌≢◌, inl, inr, Option-cases, List, [], ◌∷◌,
  ◌++◌, ◌≡◌, ◌↔◌, refl, ◌∙◌, arith, ltb, ◌==◌, if◌then◌else◌, length, if-elim,
}
use jitterentropy_analysis_d.Prelude.Int.{pos, ltb_ℤ}
use jitterentropy_analysis_d.Double.{Double}
use jitterentropy_analysis_d.Monitor.{record_fips_failure}
use jitterentropy_analysis_d.Monitor.Counters.{
  Same, Counted, Same-refl, Same-trans, record_fips_failure-Same, record_jitter_sample-Same,
  record_generation_attempt-Counted,
}
use jitterentropy_analysis_d.Library.{Library}
use jitterentropy_analysis_d.Rng.{
  Rng, Loop, record_alarms, monitored, read_once, read_loop, generate, get_random_bytes,
}
use jitterentropy_analysis_d.Rng.Journal.{Journal, get_random_bytes-log}
use jitterentropy_analysis_d.Rng.Rounds.{
  Delivers, Answers, Good, outcome_iff, read_loop-Good, read_loop_full,
}

module _ {C W F : Type 0} (lib : Library C W) where
  record_alarms-Same :
      (masks : List ℕ) (r : Rng C W F) → Same (record_alarms lib masks r).monitor r.monitor
  unfolding record_alarms monitored
  record_alarms-Same [] r = Same-refl r.monitor
  record_alarms-Same (mask ∷ masks) r =
      let told = monitored lib (λ t m. record_fips_failure t mask m) r in
      Same-trans (record_alarms-Same masks (if r.callback_set then told else r)) (
        if-elim (λ (x : Rng C W F). Same x.monitor r.monitor) r.callback_set {x = told} {y = r}
          (record_fips_failure-Same _ mask r.monitor) (Same-refl r.monitor))

module _ {C W F : Type 0} ⦃d : Double F⦄ (lib : Library C W) where
  read_once-Same : (len : ℕ) (s : Loop C W F) → Same (read_once lib len s).rng.monitor s.rng.monitor
  unfolding read_once monitored
  read_once-Same len s =
      let w = (lib.now s.rng.world).1 in
      let (got, w') = lib.read_entropy_safe s.rng.collector (len - s.generated) w in
      let r = record (s.rng) { collector = got.collector_left; world = w' } in
      Same-trans (record_jitter_sample-Same _ _ _) (record_alarms-Same lib got.alarms r)

  read_loop-Same :
      (fuel len : ℕ) (s : Loop C W F) → Same (read_loop lib fuel len s).rng.monitor s.rng.monitor
  unfolding read_loop
  read_loop-Same zero len s = Same-refl s.rng.monitor
  read_loop-Same (suc fuel) len s =
      let P : Loop C W F → Type 0 = λ t. Same t.rng.monitor s.rng.monitor in
      let next = read_once-Same len s in
      let rest = Same-trans (read_loop-Same fuel len (read_once lib len s)) next in
      if-elim P (ltb s.generated len)
        (if-elim P (ltb_ℤ (pos 0) (read_once lib len s).ret) rest next) (Same-refl s.rng.monitor)

  -- The state in which the loop starts.
  abbrev begin_loop : Rng C W F → Loop C W F
  begin_loop r = record {
    ret = pos 0;
    generated = 0;
    written = [];
    rng = record r { world = (lib.now r.world).1 };
  }

  begin_loop-Good : (len : ℕ) (r : Rng C W F) → Good len (begin_loop r)
  begin_loop-Good len r = record {
    counted = refl;
    bounded = omega arith;
    unfinished = λ h. absurd (ground arith);
  }

  generate_lem :
      (len : ℕ) (r : Rng C W F)
      → Delivers lib
      → let (code, written, after) = generate lib len r in
        (length written ≤ len)
        × ((code ≡ pos 0) ↔ (length written ≡ len))
        × Counted (length written) (length written == len) r.monitor after.monitor
  unfolding generate
  generate_lem len r delivers =
      let s = read_loop lib len len (begin_loop r) in
      let g = read_loop-Good lib len len (begin_loop r) delivers (begin_loop-Good len r) in
      let same = read_loop-Same len len (begin_loop r) in
      let (code, success) = outcome_iff len s.ret s.generated g.unfinished in
      rw (g.counted)
        (g.bounded, code, rw success (record_generation_attempt-Counted _ _ _ _ _ _ _ _ same))

  no_collector :
      (len : ℕ) (r : Rng C W F) → r.collector ≡ none → (get_random_bytes lib true len r).0 ≢ pos 0
  unfolding get_random_bytes
  no_collector len r e = rw (e, get_random_bytes) (λ z. cc)

  some_collector :
      (len : ℕ) (r : Rng C W F) (c : C)
      → Delivers lib
      → 0 < len
      → r.collector ≡ some c
      → let (code, written, after) = get_random_bytes lib true len r in
        (length written ≤ len)
        × ((code ≡ pos 0) ↔ (length written ≡ len))
        × Counted (length written) (length written == len) r.monitor after.monitor
  unfolding get_random_bytes
  some_collector len r c delivers some_bytes e =
      let nonzero : (len == 0) ≡ false = ground arith in
      rw (e, get_random_bytes, nonzero) (generate_lem len r delivers)

  -- Where a read's positive result counts the bytes it delivers, and `log` keeps the bytes that the
  -- reads give, in order: `get_random_bytes` with a buffer, a length that is not 0 and a collector puts
  -- the bytes that are appended to the log meanwhile, at most `len`, in the same order into the buffer,
  -- returns 0 exactly if they are `len`, and counts one call, the bytes delivered, and a failure exactly
  -- if it does not return 0.
  pub get_random_bytes_lem :
      (log : W → List ℕ) (len : ℕ) (r : Rng C W F) (c : C)
      → Delivers lib
      → Journal lib log
      → 0 < len
      → r.collector ≡ some c
      → let (code, written, after) = get_random_bytes lib true len r in
        (log after.world ≡ log r.world ++ written)
        × (length written ≤ len)
        × ((code ≡ pos 0) ↔ (length written ≡ len))
        × Counted (length written) (length written == len) r.monitor after.monitor
  get_random_bytes_lem log len r c delivers journal some_bytes e =
      let (most, code, counted) = some_collector len r c delivers some_bytes e in
      (get_random_bytes-log lib log journal true len r, most, code, counted)

  -- Whatever the state, a result of 0 comes with all bytes.
  pub get_random_bytes_zero :
      (len : ℕ) (r : Rng C W F)
      → Delivers lib
      → 0 < len
      → (get_random_bytes lib true len r).0 ≡ pos 0
      → length (get_random_bytes lib true len r).1 ≡ len
  get_random_bytes_zero len r delivers some_bytes z = elim (Option-cases r.collector) [
    | inl e ↦ absurd (no_collector len r e z)
    | inr (c, e) ↦
        let (most, code, counted) = some_collector len r c delivers some_bytes e in code.0 z
  ]

  -- Where a read's positive result counts the bytes it delivers, and every read with a collector for a
  -- byte or more delivers one and leaves a collector, `get_random_bytes` with a buffer, a length that
  -- is not 0 and a collector returns 0 with all `len` bytes, however short the reads are.
  pub get_random_bytes_full :
      (len : ℕ) (r : Rng C W F) (c : C)
      → Delivers lib
      → Answers lib
      → 0 < len
      → r.collector ≡ some c
      → let (code, written, after) = get_random_bytes lib true len r in
        (code ≡ pos 0) × (length written ≡ len)
  unfolding get_random_bytes generate
  get_random_bytes_full len r c delivers answers some_bytes e =
      let (all, fine) =
        read_loop_full lib len len (begin_loop r) c delivers answers e (begin_loop-Good len r) refl
          (omega arith) in
      let s = read_loop lib len len (begin_loop r) in
      let nonzero : (len == 0) ≡ false = ground arith in
      let g = read_loop-Good lib len len (begin_loop r) delivers (begin_loop-Good len r) in
      let code = (outcome_iff len s.ret s.generated g.unfinished).0.1 all in
      rw (e, get_random_bytes, nonzero) (code, g.counted ∙ all)
