-- ===== src/Gui/Messages/Waiting.antt =====
-- A result that waits for its frame, and the configuration.
use jitterentropy_analysis_d.Prelude.{
  Bool, true, false, Option, none, some, ◌≡◌, refl, inl, inr, Bool-cases, Option-cases, if-elim,
  if_false, if◌then◌else◌,
}
use jitterentropy_analysis_d.Prelude.Int.{ℤ, pos}
use jitterentropy_analysis_d.Double.{Double}
use jitterentropy_analysis_d.Library.{Library, err_invalid_argument}
use jitterentropy_analysis_d.Rng.{Settings, rng_get_settings, rng_configure, shutdown_rng}
use jitterentropy_analysis_d.Rng.Release.{shutdown_rng-collector, rng_configure_idle}
use jitterentropy_analysis_d.Benchmark.{is_zero}
use jitterentropy_analysis_d.Bridge.Text.{Bytes}
use jitterentropy_analysis_d.Bridge.Object.{Object}
use jitterentropy_analysis_d.Bridge.Getters.{codes}
use jitterentropy_analysis_d.Gui.State.{
  Job, Payload, Gui, no_bytes, rejection, publish_rejection, reap_worker_handle, try_admit_job,
}
use jitterentropy_analysis_d.Gui.Threads.{action_of, start_job}
use jitterentropy_analysis_d.Gui.Messages.{
  Action, generate, benchmark, cancel_benchmark, clear, configure, unknown, generate_job,
  benchmark_job, read_settings, reconfigure, apply_settings, request_job, clear_all, action_in, act,
  invoke,
}

module _ {C W F : Type 0} ⦃d : Double F⦄ where
  publish_rejection_waiting :
      (name : Bytes) (code : ℤ) (g : Gui C W F) (p : Payload F)
      → g.pending ≡ p
      → p.valid ≡ true
      → (publish_rejection name code g).pending ≡ p
  unfolding publish_rejection
  publish_rejection_waiting name code g p e v = rw (e, v) refl

  reap_worker_handle-pending :
      (in_time : Bool) (g : Gui C W F) → (reap_worker_handle in_time g).1.pending ≡ g.pending
  unfolding reap_worker_handle
  reap_worker_handle-pending in_time g =
      let P : Bool × Gui C W F → Type 0 = λ x. x.1.pending ≡ g.pending in
      if-elim P g.handle (if-elim P in_time refl refl) refl

  try_admit_job-pending :
      (in_time : Bool) (name : Bytes) (g : Gui C W F)
      → g.pending.valid ≡ true
      → (try_admit_job in_time name g).1.pending ≡ g.pending
  unfolding try_admit_job
  try_admit_job-pending in_time name g v =
      let P : Bool × Gui C W F → Type 0 = λ x. x.1.pending ≡ g.pending in
      let g0 : Gui C W F = record g { busy = true } in
      let reaped = reap_worker_handle in_time g0 in
      let same = reap_worker_handle-pending in_time g0 in
      if-elim P g.busy (publish_rejection_waiting name _ g g.pending refl v) (
        if-elim P reaped.0 same
          (publish_rejection_waiting name _ (record (reaped.1) { busy = false }) g.pending same v))

  request_job-pending :
      (in_time : Bool) (name : Bytes) (job : Option Job) (g : Gui C W F)
      → g.pending.valid ≡ true
      → (request_job in_time true name job g).pending ≡ g.pending
  unfolding request_job start_job
  request_job-pending in_time name none g v = publish_rejection_waiting name _ g g.pending refl v
  request_job-pending in_time name (some job) g v =
      let P : Gui C W F → Type 0 = λ x. x.pending ≡ g.pending in
      let same = try_admit_job-pending in_time (action_of job) g v in
      if-elim P (try_admit_job in_time (action_of job) g).0 same same

-- What a "configure" message does where no job runs, with the settings read from it: without any, it is
-- an invalid argument and nothing else changes; else these settings are taken by the wrapper and the
-- page, the collector is freed, the next one is tested anew, and the session's bytes are forgotten.
abbrev pub Configures :
    {C W F : Type 0} ⦃d : Double F⦄ → Option Settings → Gui C W F → Gui C W F → Type 0
Configures none g g' = g' ≡ publish_rejection (codes "configure") err_invalid_argument g
Configures (some s) g g' =
    (g'.rng.settings ≡ s)
    × (g'.ui_settings ≡ s)
    × (g'.rng.collector ≡ none)
    × (g'.rng.self_test_complete ≡ false)
    × (g'.session ≡ no_bytes)
    × (g'.pending
        ≡ (if g.pending.valid then g.pending else rejection (codes "configure") (pos 0) g.pending))

module _ {C W F : Type 0} ⦃d : Double F⦄ (lib : Library C W) where
  apply_settings-pending :
      (s : Settings) (g : Gui C W F)
      → g.pending.valid ≡ true
      → (apply_settings lib s g).pending ≡ g.pending
  unfolding apply_settings
  apply_settings-pending s g v =
      let cfg = rng_configure (some s) (shutdown_rng lib g.rng) in
      let P : Gui C W F → Type 0 =
        λ x. (publish_rejection (codes "configure") cfg.0 x).pending ≡ g.pending in
      let g1 : Gui C W F = record g { rng = cfg.1 } in
      let g2 : Gui C W F = record g1 { ui_settings = s; session = no_bytes } in
      if-elim P (is_zero cfg.0)
        (publish_rejection_waiting (codes "configure") cfg.0 g2 g.pending refl v)
        (publish_rejection_waiting (codes "configure") cfg.0 g1 g.pending refl v)

  apply_settings_lem :
      (s : Settings) (g : Gui C W F) → Configures (some s) g (apply_settings lib s g)
  unfolding apply_settings publish_rejection
  apply_settings_lem s g =
      let r = shutdown_rng lib g.rng in
      let freed = shutdown_rng-collector lib g.rng in
      let took = rng_configure_idle (some s) r freed in
      rw (took, rng_configure (some s) r) (refl, refl, freed, refl, refl, refl)

  reconfigure_lem :
      (o : Object) (g : Gui C W F)
      → g.busy ≡ false
      → Configures (read_settings o g.rng.settings) g (reconfigure lib o g)
  unfolding reconfigure rng_get_settings
  reconfigure_lem o g b = elim (Option-cases (read_settings o g.rng.settings)) [
    | inl e ↦ rw (e, reconfigure) (if_false g.busy _ _ b)
    | inr (s, e) ↦ rw (b, reconfigure, e) (apply_settings_lem s g)
  ]

  -- A "configure" message that comes while no job runs is refused whole, or takes effect whole: if
  -- a field is invalid the page is told so and nothing else changes; else the settings read are
  -- those of the wrapper and of the page, no collector is left, the self-test is due again, the
  -- session's bytes are forgotten, and the page is told of success, unless a result waits.
  pub invoke_configure :
      (in_time created : Bool) (json : Bytes) (o : Object) (g : Gui C W F)
      → g.busy ≡ false
      → action_in json ≡ some (configure, o)
      → Configures (read_settings o g.rng.settings) g (invoke lib in_time created json g)
  unfolding invoke act
  invoke_configure in_time created json o g b e = rw (e, invoke) (reconfigure_lem o g b)

  reconfigure-pending :
      (o : Object) (g : Gui C W F)
      → g.pending.valid ≡ true
      → (reconfigure lib o g).pending ≡ g.pending
  unfolding reconfigure
  reconfigure-pending o g v = elim (Bool-cases g.busy) [
    | inl b ↦
        rw (b, reconfigure) (publish_rejection_waiting (codes "configure") _ g g.pending refl v)
    | inr b ↦ elim (Option-cases (read_settings o (rng_get_settings g.rng))) [
      | inl e ↦
          rw (b, reconfigure, e)
            (publish_rejection_waiting (codes "configure") _ g g.pending refl v)
      | inr (s, e) ↦ rw (b, reconfigure, e) (apply_settings-pending s g v)
    ]
  ]

  act-pending :
      (in_time : Bool) (action : Action) (o : Object) (g : Gui C W F)
      → g.pending.valid ≡ true
      → (act lib in_time true action o g).pending ≡ g.pending
  unfolding act clear_all
  act-pending in_time generate o g v =
      request_job-pending in_time (codes "generate") (generate_job o) g v
  act-pending in_time benchmark o g v =
      request_job-pending in_time (codes "benchmark") (benchmark_job o) g v
  act-pending in_time cancel_benchmark o g v = refl
  act-pending in_time clear o g v = refl
  act-pending in_time configure o g v = reconfigure-pending o g v
  act-pending in_time unknown o g v = refl

  -- A result that waits is not changed by any message, if `CreateThread` does not fail.
  pub invoke-pending :
      (in_time : Bool) (json : Bytes) (g : Gui C W F)
      → g.pending.valid ≡ true
      → (invoke lib in_time true json g).pending ≡ g.pending
  unfolding invoke
  invoke-pending in_time json g v = elim (Option-cases (action_in json)) [
    | inl e ↦ rw (e, invoke) refl
    | inr ((action, o), e) ↦ rw (e, invoke) (act-pending in_time action o g v)
  ]
