-- ===== src/Gui/Events/Alone.antt =====
-- At most one worker thread, and the flag `g_rng_busy`.
use jitterentropy_analysis_d.Prelude.{
  Bool, Option, none, some, List, [], ◌∷◌, refl, inl, inr, Bool-cases, if-elim,
}
use jitterentropy_analysis_d.Double.{Double}
use jitterentropy_analysis_d.Library.{Library, err_invalid_argument}
use jitterentropy_analysis_d.Rng.{Settings, rng_get_settings, shutdown_rng, rng_configure}
use jitterentropy_analysis_d.Benchmark.{is_zero}
use jitterentropy_analysis_d.Bridge.Text.{Bytes}
use jitterentropy_analysis_d.Gui.State.{Job, publish_rejection, Gui}
use jitterentropy_analysis_d.Gui.Messages.{
  Action, generate, benchmark, cancel_benchmark, clear, configure, unknown, generate_job,
  benchmark_job, read_settings, reconfigure, apply_settings, request_job, clear_all, action_in, act,
  invoke,
}
use jitterentropy_analysis_d.Bridge.Object.{Object}
use jitterentropy_analysis_d.Bridge.Getters.{codes}
use jitterentropy_analysis_d.Gui.Messages.Ranges.{
  Granted, generate_job-InRange, benchmark_job-InRange,
}
use jitterentropy_analysis_d.Gui.Telemetry.{begin_frame, end_frame, build_telemetry}
use jitterentropy_analysis_d.Gui.Events.{Event, message, tick, step, launch, happen, run_events}
use jitterentropy_analysis_d.Gui.Threads.Alone.{
  Alone, AloneIn, go_on-Alone, go_all-Alone, start_job-Alone,
}

module _ {C W F : Type 0} ⦃d : Double F⦄ (lib : Library C W) where
  request_job-Alone :
      (in_time created : Bool) (action : Bytes) (job : Option Job) (g : Gui C W F)
      → Granted job
      → AloneIn g
      → AloneIn (request_job in_time created action job g)
  unfolding request_job publish_rejection
  request_job-Alone in_time created action none g fits a = a
  request_job-Alone in_time created action (some job) g fits a =
      start_job-Alone in_time created job g fits a

  apply_settings-Alone :
      (s : Settings) (g : Gui C W F) → AloneIn g → AloneIn (apply_settings lib s g)
  unfolding apply_settings publish_rejection
  apply_settings-Alone s g a =
      elim (Bool-cases (is_zero (rng_configure (some s) (shutdown_rng lib g.rng)).0)) [
        | inl z ↦ rw (z, apply_settings) a
        | inr z ↦ rw (z, apply_settings) a
      ]

  reconfigure-Alone : (o : Object) (g : Gui C W F) → AloneIn g → AloneIn (reconfigure lib o g)
  unfolding reconfigure publish_rejection apply_settings
  reconfigure-Alone o g a =
      let P : Gui C W F → Type 0 = AloneIn in
      if-elim P g.busy a
        (elim (read_settings o (rng_get_settings g.rng))
          as (λ x. AloneIn (elim x as (λ y. Gui C W F) [
            | none ↦ publish_rejection (codes "configure") err_invalid_argument g
            | some s ↦ apply_settings lib s g
          ])) [ none ↦ a | some s ↦ apply_settings-Alone s g a ])

  act-Alone :
      (in_time created : Bool) (action : Action) (o : Object) (g : Gui C W F)
      → AloneIn g
      → AloneIn (act lib in_time created action o g)
  unfolding act clear_all
  act-Alone in_time created generate o g a =
      request_job-Alone in_time created (codes "generate") (generate_job o) g
        (generate_job-InRange o) a
  act-Alone in_time created benchmark o g a =
      request_job-Alone in_time created (codes "benchmark") (benchmark_job o) g
        (benchmark_job-InRange o) a
  act-Alone in_time created cancel_benchmark o g a = a
  act-Alone in_time created clear o g a = a
  act-Alone in_time created configure o g a = reconfigure-Alone o g a
  act-Alone in_time created unknown o g a = a

  invoke-Alone :
      (in_time created : Bool) (json : Bytes) (g : Gui C W F)
      → AloneIn g
      → AloneIn (invoke lib in_time created json g)
  unfolding invoke
  invoke-Alone in_time created json g a =
      elim (action_in json)
        as (λ x. AloneIn (elim x as (λ y. Gui C W F) [
          | none ↦ g
          | some (action, o) ↦ act lib in_time created action o g
        ])) [ none ↦ a | some (action, o) ↦ act-Alone in_time created action o g a ]

  pub happen-Alone : (e : Event) (g : Gui C W F) → AloneIn g → AloneIn (happen lib e g)
  unfolding happen build_telemetry begin_frame end_frame
  happen-Alone (message in_time created json) g a = invoke-Alone in_time created json g a
  happen-Alone (tick lock_busy between) g a =
      go_all-Alone lib between (begin_frame lib lock_busy g).1 a
  happen-Alone (step luck i) g a = go_on-Alone lib luck i g a

  run_events-Alone :
      (events : List Event) (g : Gui C W F) → AloneIn g → AloneIn (run_events lib events g)
  unfolding run_events
  run_events-Alone [] g a = a
  run_events-Alone (e ∷ events) g a = run_events-Alone events (happen lib e g) (happen-Alone e g a)

module _ {C W : Type 0} (lib : Library C W) (F : Type 0) ⦃d : Double F⦄ where
  -- After any events since the start there is at most one worker thread whose handle is not closed;
  -- its handle is at hand exactly if it is there; `g_rng_busy` is set exactly if it has not come to
  -- its reset yet; and a thread that has not begun has a job within the limits on sizes.
  pub run_events_lem :
      (events : List Event) (w : W)
      → let g : Gui C W F = run_events lib events (launch lib w) in Alone g.busy g.handle g.threads
  unfolding launch
  run_events_lem events w = run_events-Alone lib events (launch lib w) (refl, refl)
