-- ===== src/Gui/Events/Delivered.antt =====
-- A message that asks for bytes, its job and the frame that answers it.
use jitterentropy_analysis_d.Prelude.{
  ℕ, ◌<◌, Bool, true, false, Option, some, List, [], ◌∷◌, ◌≡◌, refl, sym, subst, arith, ap, ◌∙◌,
}
use jitterentropy_analysis_d.Double.{Double}
use jitterentropy_analysis_d.Library.{Library}
use jitterentropy_analysis_d.Rng.{Rng}
use jitterentropy_analysis_d.Rng.Octets.{PutsBytes}
use jitterentropy_analysis_d.Rng.Rounds.{Delivers}
use jitterentropy_analysis_d.Stats.Histogram.Counts.{AreBytes}
use jitterentropy_analysis_d.Bridge.Text.{Bytes}
use jitterentropy_analysis_d.Bridge.Object.{Object}
use jitterentropy_analysis_d.Bridge.Getters.{codes}
use jitterentropy_analysis_d.Gui.State.{generating, Payload, Gui}
use jitterentropy_analysis_d.Gui.Jobs.Produced.{Reports}
use jitterentropy_analysis_d.Gui.Jobs.Traced.{Taken, generate_work_lem}
use jitterentropy_analysis_d.Rng.Journal.{Journal}
use jitterentropy_analysis_d.Benchmark.{is_zero}
use jitterentropy_analysis_d.Gui.Threads.Start.{start_job-Untouched}
use jitterentropy_analysis_d.Gui.Threads.{Luck, sees_cancel, work, start_job}
use jitterentropy_analysis_d.Gui.Threads.Alone.{AloneIn}
use jitterentropy_analysis_d.Gui.Threads.Lives.{start_job-Begun, run_out_started, work-IsResultOf}
use jitterentropy_analysis_d.Gui.Messages.{
  generate, generate_job, action_in, act, request_job, invoke,
}
use jitterentropy_analysis_d.Gui.Messages.Ranges.{Granted, generate_job-InRange}
use jitterentropy_analysis_d.Gui.Telemetry.{show_result, shown, build_telemetry}
use jitterentropy_analysis_d.Gui.Telemetry.Once.{is_there-delivered, frame-result}
use jitterentropy_analysis_d.Gui.Events.{Event, message, step, launch, happen, run_events}
use jitterentropy_analysis_d.Gui.Events.Alone.{run_events_lem}

-- The message, and the steps of its thread up to its end.
abbrev pub request : Bytes → Luck → List Event
request json luck =
    message true true json
    ∷ step luck 0
    ∷ step luck 0
    ∷ step luck 0
    ∷ step luck 0
    ∷ step luck 0
    ∷ []

-- The result shown, of a "generate" job of `n` bytes behind which the log is `now`.
abbrev pub ShowsGenerated :
    {F : Type 0} ⦃d : Double F⦄ → ℕ → List ℕ → List ℕ → Option (Payload F) → Type 0
ShowsGenerated {F} n before now result =
    (p : Payload F) × (result ≡ some (show_result p))
    × (p.action ≡ codes "generate")
    × (written : List ℕ) × AreBytes written
    × Reports n written p
    × Taken before now written (is_zero p.status)

some_bytes : (o : Object) (n : ℕ) → generate_job o ≡ some (generating n) → 0 < n
some_bytes o n size = (subst Granted size (generate_job-InRange o)).0

module _ {C W F : Type 0} ⦃d : Double F⦄ (lib : Library C W) where
  invoke-generate :
      (json : Bytes) (o : Object) (n : ℕ) (g : Gui C W F)
      → action_in json ≡ some (generate, o)
      → generate_job o ≡ some (generating n)
      → invoke lib true true json g ≡ start_job true true (generating n) g
  unfolding invoke act request_job
  invoke-generate json o n g asks size = rw (asks, invoke, size) refl

  request_delivered :
      (log : W → List ℕ) (json : Bytes) (o : Object) (n : ℕ) (luck : Luck) (lock_busy : Bool)
      (between : List (Luck × ℕ)) (g : Gui C W F)
      → Journal lib log
      → Delivers lib
      → PutsBytes lib
      → AloneIn g
      → g.busy ≡ false
      → action_in json ≡ some (generate, o)
      → generate_job o ≡ some (generating n)
      → let g' = run_events lib (request json luck) g in
        ShowsGenerated n
          (log g.rng.world)
          (log g'.rng.world)
          (build_telemetry lib lock_busy between g').0.action_result
  unfolding run_events happen
  request_delivered log json o n luck lock_busy between g journal delivers puts a free asks size =
      let g1 = start_job true true (generating n) g in
      let w = work lib luck (generating n) g1 in
      let g' = run_events lib (request json luck) g in
      let (begun, handle, busy, cancel, waits) = start_job-Begun (generating n) g a free in
      let (result, no_job, over, same, wrapper) =
        run_out_started lib luck (generating n) g1 begun in
      let invoked = invoke-generate json o n g asks size in
      let got : g'.pending ≡ w.payload = rw invoked result in
      let left : g'.rng ≡ w.rng = rw invoked wrapper in
      let (valid, name) = work-IsResultOf lib luck (generating n) g1 in
      let there = is_there-delivered w.payload valid (rw name (omega arith)) in
      let (written, octets, reports, taken) =
        generate_work_lem lib log journal luck.allocated (sees_cancel g1.cancel luck) g1.time_base n
          g1.rng delivers puts (some_bytes o n size) in
      let ok = is_zero w.payload.status in
      let kept : g1.rng ≡ g.rng = (start_job-Untouched true true (generating n) g).0 in
      (
        w.payload,
        frame-result lib lock_busy between g' ∙ rw got (ap shown there),
        name,
        written,
        octets,
        reports,
        subst (λ (r : Rng C W F). Taken (log r.world) (log g'.rng.world) written ok) kept
            (subst (λ (r : Rng C W F). Taken (log g1.rng.world) (log r.world) written ok) (sym left)
              taken),
      )

module _ {C W : Type 0} (lib : Library C W) (F : Type 0) ⦃d : Double F⦄ where
  -- Where a read's positive result counts the bytes it delivers, each less than 256, and `log` keeps the
  -- bytes that the reads give, in order: after any events since the start, if no job runs and a message
  -- asks for `n` bytes, an earlier thread ends in time and `CreateThread` succeeds, then behind the five
  -- steps of the new thread the next frame shows a result of "generate", whatever the job meets. It
  -- counts the bytes that the job has appended to the log, but for those of a chunk that failed behind
  -- them, of which there are none if the status is 0; the status is 0 exactly if the bytes counted are
  -- `n`, the text in hexadecimal is theirs if the status is 0 and else empty, and the statistics are
  -- theirs, if there is a byte.
  pub run_events_delivered :
      (log : W → List ℕ) (events : List Event) (w : W) (json : Bytes) (o : Object) (n : ℕ)
      (luck : Luck) (lock_busy : Bool) (between : List (Luck × ℕ))
      → Journal lib log
      → Delivers lib
      → PutsBytes lib
      → (run_events {F = F} lib events (launch lib w)).busy ≡ false
      → action_in json ≡ some (generate, o)
      → generate_job o ≡ some (generating n)
      → let g : Gui C W F = run_events lib events (launch lib w) in
        let g' = run_events lib (request json luck) g in
        ShowsGenerated n
          (log g.rng.world)
          (log g'.rng.world)
          (build_telemetry lib lock_busy between g').0.action_result
  run_events_delivered log events w json o n luck lock_busy between journal delivers puts free asks
        size =
      request_delivered lib log json o n luck lock_busy between
        (run_events lib events (launch lib w)) journal delivers puts (run_events_lem lib F events w)
        free asks size
