-- ===== src/Gui/Events/Kept.antt =====
-- What all calls of the wrapper keep holds of it, with the settings that the page is shown, through
-- all events.
use jitterentropy_analysis_d.Prelude.{
  ℕ, zero, suc, Bool, Option, none, some, List, [], ◌∷◌, if-elim,
}
use jitterentropy_analysis_d.Double.{Double}
use jitterentropy_analysis_d.Library.{Library, err_invalid_argument}
use jitterentropy_analysis_d.Rng.{
  Settings, Rng, monitored, rng_get_settings, shutdown_rng, rng_configure,
}
use jitterentropy_analysis_d.Rng.Release.{shutdown_rng-collector, rng_configure_idle}
use jitterentropy_analysis_d.Rng.Kept.{Kept}
use jitterentropy_analysis_d.Monitor.Initialized.{clear_history-initialized}
use jitterentropy_analysis_d.Bridge.Text.{Bytes}
use jitterentropy_analysis_d.Bridge.Object.{Object}
use jitterentropy_analysis_d.Bridge.Getters.{codes}
use jitterentropy_analysis_d.Gui.State.{
  Job, generating, measuring, Phase, publish_rejection, started, computed, recorded, published,
  leaving, ended, Gui, record_timeline,
}
use jitterentropy_analysis_d.Gui.Jobs.Kept.{generate_work-Kept, benchmark_work-Kept}
use jitterentropy_analysis_d.Gui.Threads.{
  Luck, sees_cancel, work, progress, thread_step, go_on, go_all, start_job,
}
use jitterentropy_analysis_d.Gui.Threads.Start.{start_job-Untouched}
use jitterentropy_analysis_d.Gui.Messages.{
  Action, generate, benchmark, cancel_benchmark, clear, configure, unknown, generate_job,
  benchmark_job, read_settings, reconfigure, apply_settings, request_job, clear_all, action_in, act,
  invoke,
}
use jitterentropy_analysis_d.Gui.Telemetry.{begin_frame, build_telemetry}
use jitterentropy_analysis_d.Gui.Telemetry.Kept.{begin_frame-Kept, end_frame-Kept}
use jitterentropy_analysis_d.Gui.Events.{Event, message, tick, step, happen, run_events}

-- A property of the settings and the wrapper that the calls keep; a configuration behind a shutdown
-- carries it over to the new settings.
pub record KeptThroughout {C W F : Type 0} ⦃d : Double F⦄ (lib : Library C W)
    (P : Settings → Rng C W F → Type 0) : Type 0 where
  pub calls : (s : Settings) → Kept lib (P s)
  pub configures :
      (old s : Settings) (r : Rng C W F)
      → P old r
      → P s (rng_configure (some s) (shutdown_rng lib r)).1

module _ {C W F : Type 0} ⦃d : Double F⦄ (lib : Library C W) (P : Settings → Rng C W F → Type 0)
    (kept : KeptThroughout lib P) where
  abbrev Shown : Gui C W F → Type 0
  Shown g = P g.ui_settings g.rng

  work-Shown :
      (luck : Luck) (job : Job) (g : Gui C W F)
      → Shown g
      → P g.ui_settings (work lib luck job g).rng
  work-Shown luck (generating n) g v =
      generate_work-Kept lib (P g.ui_settings) luck.allocated (sees_cancel g.cancel luck)
        g.time_base n g.rng (kept.calls g.ui_settings) v
  work-Shown luck (measuring n k) g v =
      benchmark_work-Kept lib (P g.ui_settings) luck.allocated (sees_cancel g.cancel luck) n k g.rng
        (kept.calls g.ui_settings) v

  thread_step-Shown :
      (luck : Luck) (i : ℕ) (threads : List (Phase F)) (g : Gui C W F)
      → Shown g
      → Shown (thread_step lib luck i threads g).1
  unfolding thread_step progress record_timeline
  thread_step-Shown luck i [] g v = v
  thread_step-Shown luck zero (started job ∷ threads) g v = work-Shown luck job g v
  thread_step-Shown luck zero (computed p m ∷ threads) g v = v
  thread_step-Shown luck zero (recorded p ∷ threads) g v = v
  thread_step-Shown luck zero (published ∷ threads) g v = v
  thread_step-Shown luck zero (leaving ∷ threads) g v = v
  thread_step-Shown luck zero (ended ∷ threads) g v = v
  thread_step-Shown luck (suc i) (p ∷ threads) g v = thread_step-Shown luck i threads g v

  request_job-Shown :
      (in_time created : Bool) (action : Bytes) (job : Option Job) (g : Gui C W F)
      → Shown g
      → Shown (request_job in_time created action job g)
  unfolding request_job publish_rejection
  request_job-Shown in_time created action none g v = v
  request_job-Shown in_time created action (some job) g v =
      let (rng, session, settings, timeline, base) = start_job-Untouched in_time created job g in
      rw (rng, (start_job in_time created job g).rng, settings) v

  apply_settings-Shown : (s : Settings) (g : Gui C W F) → Shown g → Shown (apply_settings lib s g)
  unfolding apply_settings publish_rejection
  apply_settings-Shown s g v =
      let r = shutdown_rng lib g.rng in
      let took = rng_configure_idle (some s) r (shutdown_rng-collector lib g.rng) in
      let good = kept.configures g.ui_settings s g.rng v in
      rw (took, rng_configure (some s) r) (rw (took, rng_configure (some s) r) at good)

  act-Shown :
      (in_time created : Bool) (action : Action) (o : Object) (g : Gui C W F)
      → Shown g
      → Shown (act lib in_time created action o g)
  unfolding act clear_all reconfigure publish_rejection monitored
  act-Shown in_time created generate o g v =
      request_job-Shown in_time created (codes "generate") (generate_job o) g v
  act-Shown in_time created benchmark o g v =
      request_job-Shown in_time created (codes "benchmark") (benchmark_job o) g v
  act-Shown in_time created cancel_benchmark o g v = v
  act-Shown in_time created clear o g v =
      (kept.calls g.ui_settings).aside _ _ g.rng (clear_history-initialized _ _) v
  act-Shown in_time created configure o g v =
      if-elim Shown g.busy v
        (elim (read_settings o (rng_get_settings g.rng))
          as (λ x. Shown (elim x as (λ y. Gui C W F) [
            | none ↦ publish_rejection (codes "configure") err_invalid_argument g
            | some s ↦ apply_settings lib s g
          ])) [ none ↦ v | some s ↦ apply_settings-Shown s g v ])
  act-Shown in_time created unknown o g v = v

  go_all-Shown : (steps : List (Luck × ℕ)) (g : Gui C W F) → Shown g → Shown (go_all lib steps g)
  unfolding go_on
  go_all-Shown [] g v = v
  go_all-Shown ((luck, i) ∷ steps) g v =
      go_all-Shown steps (go_on lib luck i g) (thread_step-Shown luck i g.threads g v)

  happen-Shown : (e : Event) (g : Gui C W F) → Shown g → Shown (happen lib e g)
  unfolding happen invoke go_on build_telemetry
  happen-Shown (message in_time created json) g v =
      elim (action_in json)
        as (λ x. Shown (elim x as (λ y. Gui C W F) [
          | none ↦ g
          | some (action, o) ↦ act lib in_time created action o g
        ])) [ none ↦ v | some (action, o) ↦ act-Shown in_time created action o g v ]
  happen-Shown (tick lock_busy between) g v =
      let ((t, f), g1) = begin_frame lib lock_busy g in
      let g2 = go_all lib between g1 in
      let v1 = begin_frame-Kept lib (P g.ui_settings) lock_busy g (kept.calls g.ui_settings) v in
      end_frame-Kept lib (P g2.ui_settings) t f g2 (kept.calls g2.ui_settings)
        (go_all-Shown between g1 v1)
  happen-Shown (step luck i) g v = thread_step-Shown luck i g.threads g v

  -- What holds of the settings on the page and the wrapper goes on holding.
  pub run_events-Shown :
      (events : List Event) (g : Gui C W F) → Shown g → Shown (run_events lib events g)
  unfolding run_events
  run_events-Shown [] g v = v
  run_events-Shown (e ∷ events) g v = run_events-Shown events (happen lib e g) (happen-Shown e g v)
