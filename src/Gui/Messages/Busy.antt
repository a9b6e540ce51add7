-- ===== src/Gui/Messages/Busy.antt =====
-- What messages do while a job runs, and to a result that waits.
use jitterentropy_analysis_d.Prelude.{
  Bool, true, Option, none, some, ◌≡◌, refl, inl, inr, Option-cases, if◌then◌else◌,
}
use jitterentropy_analysis_d.Prelude.Int.{ℤ, pos}
use jitterentropy_analysis_d.Double.{Double}
use jitterentropy_analysis_d.Library.{Library, err_invalid_argument}
use jitterentropy_analysis_d.Rng.{monitored}
use jitterentropy_analysis_d.Bridge.Text.{Bytes}
use jitterentropy_analysis_d.Bridge.Object.{Object}
use jitterentropy_analysis_d.Bridge.Getters.{codes, get_int}
use jitterentropy_analysis_d.Gui.State.{
  Job, Payload, Gui, err_busy, rejection, max_generate_bytes, max_bench_bytes, max_bench_iterations,
  publish_rejection, try_admit_job,
}
use jitterentropy_analysis_d.Gui.Threads.{action_of, start_job}
use jitterentropy_analysis_d.Gui.Messages.{
  Action, generate, benchmark, cancel_benchmark, clear, configure, unknown, or_default,
  generate_job, benchmark_job, reconfigure, request_job, clear_all, action_in, act, invoke,
}

-- What the page is told of a message that comes while a job runs: a job out of range is an invalid
-- argument, any other job or configuration is refused as busy.
abbrev refusal : Option Job → ℤ
refusal none = err_invalid_argument
refusal (some job) = err_busy

abbrev pub told : Action → Object → Option (Bytes × ℤ)
told generate o = some (codes "generate", refusal (generate_job o))
told benchmark o = some (codes "benchmark", refusal (benchmark_job o))
told configure o = some (codes "configure", err_busy)
told cancel_benchmark o = none
told clear o = none
told unknown o = none

abbrev pub answered : {F : Type 0} ⦃d : Double F⦄ → Option (Bytes × ℤ) → Payload F → Payload F
answered none p = p
answered (some (action, code)) p = if p.valid then p else rejection action code p

-- A job, if there is one, answers by this name.
abbrev Named : Option Job → Bytes → Type 0
Named none name = Unit
Named (some job) name = action_of job ≡ name

generate_job-Named : (o : Object) → Named (generate_job o) (codes "generate")
unfolding generate_job
generate_job-Named o =
    elim (Option-cases
      (or_default (pos 32) (get_int o (codes "bytes") (pos 1) (pos max_generate_bytes)))) [
        | inl e ↦ rw (e, generate_job) tt
        | inr (n, e) ↦ rw (e, generate_job) refl
      ]

benchmark_job-Named : (o : Object) → Named (benchmark_job o) (codes "benchmark")
unfolding benchmark_job
benchmark_job-Named o =
    elim (Option-cases
      (or_default (pos 1024) (get_int o (codes "bytesPerCall") (pos 1) (pos max_bench_bytes)))) [
        | inl e ↦ rw (e, benchmark_job) tt
        | inr (n, e) ↦
            elim (Option-cases (
              or_default (pos 100)
                (get_int o (codes "iterations") (pos 1) (pos max_bench_iterations)))) [
                  | inl e' ↦ rw (e, benchmark_job, e') tt
                  | inr (k, e') ↦ rw (e, benchmark_job, e') refl
                ]
      ]

module _ {C W F : Type 0} where
  -- The job that runs goes on as it is.
  abbrev pub Undisturbed : Gui C W F → Gui C W F → Type 0
  Undisturbed g g' =
      (g'.busy ≡ true)
      × (g'.handle ≡ g.handle)
      × (g'.threads ≡ g.threads)
      × (g'.rng.collector ≡ g.rng.collector)
      × (g'.rng.self_test_complete ≡ g.rng.self_test_complete)
      × (g'.rng.settings ≡ g.rng.settings)
      × (g'.ui_settings ≡ g.ui_settings)

module _ {C W F : Type 0} ⦃d : Double F⦄ where
  start_job_busy :
      (in_time created : Bool) (job : Job) (g : Gui C W F)
      → g.busy ≡ true
      → start_job in_time created job g ≡ publish_rejection (action_of job) err_busy g
  unfolding start_job try_admit_job
  start_job_busy in_time created job g b = rw (b, start_job) refl

  request_job_busy :
      (in_time created : Bool) (name : Bytes) (job : Option Job) (g : Gui C W F)
      → Named job name
      → g.busy ≡ true
      → let g' = request_job in_time created name job g in
        (g'.pending ≡ answered (some (name, refusal job)) g.pending) × Undisturbed g g'
  unfolding request_job publish_rejection
  request_job_busy in_time created name none g named b =
      (refl, (b, refl, refl, refl, refl, refl, refl))
  request_job_busy in_time created name (some job) g named b =
      rw (start_job_busy in_time created job g b, request_job, named)
        (refl, (b, refl, refl, refl, refl, refl, refl))

module _ {C W F : Type 0} ⦃d : Double F⦄ (lib : Library C W) where
  act_busy :
      (in_time created : Bool) (action : Action) (o : Object) (g : Gui C W F)
      → g.busy ≡ true
      → let g' = act lib in_time created action o g in
        (g'.pending ≡ answered (told action o) g.pending) × Undisturbed g g'
  unfolding act clear_all monitored reconfigure publish_rejection
  act_busy in_time created generate o g b =
      request_job_busy in_time created (codes "generate") (generate_job o) g (generate_job-Named o)
        b
  act_busy in_time created benchmark o g b =
      request_job_busy in_time created (codes "benchmark") (benchmark_job o) g
        (benchmark_job-Named o) b
  act_busy in_time created cancel_benchmark o g b = (refl, (b, refl, refl, refl, refl, refl, refl))
  act_busy in_time created clear o g b = (refl, (b, refl, refl, refl, refl, refl, refl))
  act_busy in_time created configure o g b =
      rw (b, reconfigure) (refl, (refl, refl, refl, refl, refl, refl, refl))
  act_busy in_time created unknown o g b = (refl, (b, refl, refl, refl, refl, refl, refl))

  -- While a job runs, every message that is read leaves the job's thread, its collector and the
  -- settings as they are, and the page is told, unless a result waits: an invalid argument for a job
  -- out of range, busy for any other job and for a configuration, and nothing else.
  pub invoke_busy :
      (in_time created : Bool) (json : Bytes) (action : Action) (o : Object) (g : Gui C W F)
      → g.busy ≡ true
      → action_in json ≡ some (action, o)
      → let g' = invoke lib in_time created json g in
        (g'.pending ≡ answered (told action o) g.pending) × Undisturbed g g'
  unfolding invoke
  invoke_busy in_time created json action o g b e =
      rw (e, invoke) (act_busy in_time created action o g b)
