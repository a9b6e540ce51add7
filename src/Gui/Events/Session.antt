-- ===== src/Gui/Events/Session.antt =====
-- The histogram of the session.
use jitterentropy_analysis_d.Prelude.{
  ℕ, Bool, Option, none, some, List, [], ◌∷◌, refl, inl, inr, Bool-cases, if-elim,
}
use jitterentropy_analysis_d.Double.{Double}
use jitterentropy_analysis_d.Library.{Library, err_invalid_argument}
use jitterentropy_analysis_d.Rng.{Settings, rng_get_settings, shutdown_rng, rng_configure}
use jitterentropy_analysis_d.Rng.Rounds.{Delivers}
use jitterentropy_analysis_d.Rng.Octets.{PutsBytes}
use jitterentropy_analysis_d.Benchmark.{is_zero}
use jitterentropy_analysis_d.Bridge.Text.{Bytes}
use jitterentropy_analysis_d.Bridge.Object.{Object}
use jitterentropy_analysis_d.Bridge.Getters.{codes}
use jitterentropy_analysis_d.Gui.State.{Job, Gui, publish_rejection}
use jitterentropy_analysis_d.Gui.State.Sums.{IsConsistent, no_bytes-IsConsistent}
use jitterentropy_analysis_d.Gui.Threads.{Luck, go_on, go_all}
use jitterentropy_analysis_d.Gui.Threads.Alone.{AloneIn, go_on-Alone}
use jitterentropy_analysis_d.Gui.Threads.Start.{start_job-Untouched, start_job-All}
use jitterentropy_analysis_d.Gui.Threads.Carried.{Carries, Sums, thread_step-Sums}
use jitterentropy_analysis_d.Gui.Messages.{
  Action, generate, benchmark, cancel_benchmark, clear, configure, unknown, generate_job,
  benchmark_job, read_settings, reconfigure, apply_settings, request_job, clear_all, action_in, act,
  invoke,
}
use jitterentropy_analysis_d.Gui.Telemetry.{begin_frame, end_frame, build_telemetry}
use jitterentropy_analysis_d.Gui.Events.{Event, message, tick, step, launch, happen, run_events}
use jitterentropy_analysis_d.Gui.Events.Alone.{happen-Alone}

module _ {C W F : Type 0} ⦃d : Double F⦄ (lib : Library C W) where
  request_job-Sums :
      (in_time created : Bool) (action : Bytes) (job : Option Job) (g : Gui C W F)
      → Sums lib g
      → Sums lib (request_job in_time created action job g)
  unfolding request_job publish_rejection
  request_job-Sums in_time created action none g v = v
  request_job-Sums in_time created action (some job) g (s, c) =
      let (rng, session, settings, timeline, base) = start_job-Untouched in_time created job g in
      (rw (session) s, start_job-All Carries in_time created job g (λ j. tt) c)

  apply_settings-Sums :
      (s : Settings) (g : Gui C W F) → Sums lib g → Sums lib (apply_settings lib s g)
  unfolding apply_settings publish_rejection
  apply_settings-Sums s g v =
      elim (Bool-cases (is_zero (rng_configure (some s) (shutdown_rng lib g.rng)).0)) [
        | inl z ↦ rw (z, apply_settings) (no_bytes-IsConsistent, v.1)
        | inr z ↦ rw (z, apply_settings) v
      ]

  act-Sums :
      (in_time created : Bool) (action : Action) (o : Object) (g : Gui C W F)
      → Sums lib g
      → Sums lib (act lib in_time created action o g)
  unfolding act clear_all reconfigure publish_rejection
  act-Sums in_time created generate o g v =
      request_job-Sums in_time created (codes "generate") (generate_job o) g v
  act-Sums in_time created benchmark o g v =
      request_job-Sums in_time created (codes "benchmark") (benchmark_job o) g v
  act-Sums in_time created cancel_benchmark o g v = v
  act-Sums in_time created clear o g v = (no_bytes-IsConsistent, v.1)
  act-Sums in_time created configure o g v =
      if-elim (Sums lib) g.busy v
        (elim (read_settings o (rng_get_settings g.rng))
          as (λ x. Sums lib (elim x as (λ y. Gui C W F) [
            | none ↦ publish_rejection (codes "configure") err_invalid_argument g
            | some s ↦ apply_settings lib s g
          ])) [ none ↦ v | some s ↦ apply_settings-Sums s g v ])
  act-Sums in_time created unknown o g v = v

  go_all-Sums :
      (steps : List (Luck × ℕ)) (g : Gui C W F)
      → Delivers lib
      → PutsBytes lib
      → AloneIn g
      → Sums lib g
      → Sums lib (go_all lib steps g)
  unfolding go_on
  go_all-Sums [] g delivers puts a v = v
  go_all-Sums ((luck, i) ∷ steps) g delivers puts a v =
      go_all-Sums steps (go_on lib luck i g) delivers puts (go_on-Alone lib luck i g a)
        (thread_step-Sums lib luck i g.threads g delivers puts a v.1 v.0)

  happen-Sums :
      (e : Event) (g : Gui C W F)
      → Delivers lib
      → PutsBytes lib
      → AloneIn g
      → Sums lib g
      → Sums lib (happen lib e g)
  unfolding happen invoke go_on build_telemetry begin_frame end_frame
  happen-Sums (message in_time created json) g delivers puts a v =
      elim (action_in json)
        as (λ x. Sums lib (elim x as (λ y. Gui C W F) [
          | none ↦ g
          | some (action, o) ↦ act lib in_time created action o g
        ])) [ none ↦ v | some (action, o) ↦ act-Sums in_time created action o g v ]
  happen-Sums (tick lock_busy between) g delivers puts a v =
      go_all-Sums between (begin_frame lib lock_busy g).1 delivers puts a v
  happen-Sums (step luck i) g delivers puts a v =
      thread_step-Sums lib luck i g.threads g delivers puts a v.1 v.0

  run_events-Sums :
      (events : List Event) (g : Gui C W F)
      → Delivers lib
      → PutsBytes lib
      → AloneIn g
      → Sums lib g
      → Sums lib (run_events lib events g)
  unfolding run_events
  run_events-Sums [] g delivers puts a v = v
  run_events-Sums (e ∷ events) g delivers puts a v =
      run_events-Sums events (happen lib e g) delivers puts (happen-Alone lib e g a)
        (happen-Sums e g delivers puts a v)

module _ {C W : Type 0} (lib : Library C W) (F : Type 0) ⦃d : Double F⦄ where
  -- Where a read's positive result counts the bytes it delivers, each less than 256: after any events
  -- since the start, the session has 256 counters, which add up to its total modulo 2^64.
  pub run_events-IsConsistent :
      (events : List Event) (w : W)
      → Delivers lib
      → PutsBytes lib
      → let g : Gui C W F = run_events lib events (launch lib w) in IsConsistent g.session
  unfolding launch
  run_events-IsConsistent events w delivers puts =
      let start : Gui C W F = launch lib w in
      (run_events-Sums lib events start delivers puts (refl, refl) (no_bytes-IsConsistent, tt)).0
