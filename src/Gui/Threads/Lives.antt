-- ===== src/Gui/Threads/Lives.antt =====
-- A job from its admission to its answer, and the end of the program.
use jitterentropy_analysis_d.Prelude.{
  Bool, if-elim, if-cases, OnSome, true, false, none, some, List, [], ◌∷◌, ◌≡◌, refl, sym, subst,
  inl, inr, Bool-cases, if_true, if_false, ap, drop,
}
use jitterentropy_analysis_d.Double.{Double}
use jitterentropy_analysis_d.Library.{Library}
use jitterentropy_analysis_d.Rng.{shutdown_rng}
use jitterentropy_analysis_d.Rng.Release.{shutdown_rng-collector}
use jitterentropy_analysis_d.Gui.State.{
  Job, generating, measuring, Phase, started, computed, recorded, published, leaving, ended, Gui,
  reap_worker_handle, try_admit_job, record_timeline,
}
use jitterentropy_analysis_d.Gui.Jobs.Named.{
  IsResultOf, generate_work-IsResultOf, benchmark_work-IsResultOf,
}
use jitterentropy_analysis_d.Gui.Threads.{
  Luck, action_of, sees_cancel, work, progress, thread_step, go_on, start_job, run_out, close_down,
  destroy,
}
use jitterentropy_analysis_d.Gui.Threads.Alone.{Alone, AloneIn, idle_reaped, no_handle}

-- No worker, and no collector.
abbrev pub Idle : {C W F : Type 0} → Gui C W F → Type 0
Idle g = (g.threads ≡ []) × (g.handle ≡ false) × (g.busy ≡ false) × (g.rng.collector ≡ none)

module _ {C W F : Type 0} ⦃d : Double F⦄ where
  -- A job whose thread is the only one.
  abbrev pub Begun : Job → Gui C W F → Gui C W F → Type 0
  Begun job g g' =
      (g'.threads ≡ started job ∷ [])
      × (g'.handle ≡ true)
      × (g'.busy ≡ true)
      × (g'.cancel ≡ false)
      × (g'.pending ≡ g.pending)

  pub start_job-Begun :
      (job : Job) (g : Gui C W F)
      → AloneIn g
      → g.busy ≡ false
      → Begun job g (start_job true true job g)
  unfolding start_job try_admit_job reap_worker_handle
  start_job-Begun job g a b = elim (Bool-cases g.handle) [
    | inl h ↦
        rw (b, start_job, h, idle_reaped g.busy g.handle g.threads a) (refl, refl, refl, refl, refl)
    | inr h ↦
        let none_left = no_handle g.busy g.threads (rw (h, g.handle) at a) in
        rw (b, start_job, h, none_left.0) (refl, refl, refl, refl, refl)
  ]

module _ {C W F : Type 0} ⦃d : Double F⦄ (lib : Library C W) where
  pub work-IsResultOf :
      (luck : Luck) (job : Job) (g : Gui C W F)
      → IsResultOf (action_of job) (work lib luck job g).payload
  work-IsResultOf luck (generating n) g =
      generate_work-IsResultOf lib luck.allocated (sees_cancel g.cancel luck) g.time_base n g.rng
  work-IsResultOf luck (measuring n k) g =
      benchmark_work-IsResultOf lib luck.allocated (sees_cancel g.cancel luck) n k g.rng

  -- A thread that begins comes to its end in five steps.
  pub run_out_started :
      (luck : Luck) (job : Job) (g : Gui C W F)
      → g.threads ≡ started job ∷ []
      → let g' = run_out lib 5 luck g in
        (g'.pending ≡ (work lib luck job g).payload)
        × (g'.busy ≡ false)
        × (g'.threads ≡ ended ∷ [])
        × (g'.handle ≡ g.handle)
        × (g'.rng ≡ (work lib luck job g).rng)
  unfolding go_on thread_step progress record_timeline
  run_out_started luck job g e =
      let P : List (Phase F) → Type 0 = λ t.
        let g0 : Gui C W F = record g { threads = t } in
        let g' = run_out lib 5 luck g0 in
        (g'.pending ≡ (work lib luck job g0).payload)
        × (g'.busy ≡ false)
        × (g'.threads ≡ ended ∷ [])
        × (g'.handle ≡ g0.handle)
        × (g'.rng ≡ (work lib luck job g0).rng) in
      subst P (sym e) (refl, refl, refl, refl, refl)

  -- Where at most one thread is there and none at work, a job is admitted if the earlier thread ends
  -- in time and `CreateThread` succeeds; then after five steps of its thread the slot is free, the
  -- thread is at its end, and a result with the job's name waits for the page, whatever the work met.
  pub start_job_answered :
      (luck : Luck) (job : Job) (g : Gui C W F)
      → AloneIn g
      → g.busy ≡ false
      → let g' = run_out lib 5 luck (start_job true true job g) in
        (g'.busy ≡ false)
        × (g'.threads ≡ ended ∷ [])
        × (g'.pending.valid ≡ true)
        × (g'.pending.action ≡ action_of job)
  start_job_answered luck job g a b =
      let g1 = start_job true true job g in
      let (alone, handle, busy, cancel, waits) = start_job-Begun job g a b in
      let (result, free, over, same, wrapper) = run_out_started luck job g1 alone in
      let (valid, name) = work-IsResultOf luck job g1 in
      (free, over, rw result valid, rw result name)

  run_out_phase :
      (luck : Luck) (p : Phase F) (g : Gui C W F)
      → Alone g.busy g.handle (p ∷ [])
      → let g' = run_out lib 5 luck (record g { threads = p ∷ [] }) in
        (g'.threads ≡ ended ∷ []) × (g'.busy ≡ false)
  unfolding go_on thread_step progress record_timeline
  run_out_phase luck (started job) g (b, h, f) = (refl, refl)
  run_out_phase luck (computed p m) g (b, h, f) = (refl, refl)
  run_out_phase luck (recorded p) g (b, h, f) = (refl, refl)
  run_out_phase luck published g (b, h, f) = (refl, refl)
  run_out_phase luck leaving g (b, h, f) = (refl, b)
  run_out_phase luck ended g (b, h, f) = (refl, b)

  run_out-Alone :
      (luck : Luck) (threads : List (Phase F)) (g : Gui C W F)
      → Alone g.busy g.handle threads
      → let g' = run_out lib 5 luck (record g { threads = threads }) in
        (drop 1 g'.threads ≡ []) × (g'.busy ≡ false)
  unfolding go_on thread_step
  run_out-Alone luck [] g (b, h) = (refl, b)
  run_out-Alone luck (p ∷ []) g a =
      let (over, free) = run_out_phase luck p g a in (ap (drop 1) over, free)
  run_out-Alone luck (p ∷ q ∷ threads) g a = absurd a

  -- Where at most one thread is there, closing the window with the thread ending in time leaves no
  -- thread, no handle and no collector, with the slot free.
  pub destroy_lem :
      (luck : Luck) (g : Gui C W F)
      → AloneIn g
      → (g' : Gui C W F) × (destroy lib true luck g ≡ some g')
        × (g'.threads ≡ [])
        × (g'.handle ≡ false)
        × (g'.busy ≡ false)
        × (g'.rng.collector ≡ none)
  unfolding destroy
  destroy_lem luck g a =
      let g1 : Gui C W F = record g { cancel = true } in
      let g2 = run_out lib 5 luck g1 in
      let (over, free) = run_out-Alone luck g.threads g1 a in
      elim (Bool-cases g.handle) [
        | inl h ↦
            let closed : Gui C W F = close_down lib g2 in
            (
              closed,
              if_true g.handle (some closed) _ h,
              over,
              refl,
              free,
              shutdown_rng-collector lib g2.rng,
            )
        | inr h ↦
            let (none_left, idle) = no_handle g.busy g.threads (rw (h, g.handle) at a) in
            let closed : Gui C W F = record g1 { rng = shutdown_rng lib g.rng } in
            (
              closed,
              if_false g.handle _ (some closed) h,
              none_left,
              h,
              idle,
              shutdown_rng-collector lib g.rng,
            )
      ]

  -- However closing the window ends, but by `ExitProcess`.
  pub destroy-Idle :
      (in_time : Bool) (luck : Luck) (g : Gui C W F)
      → AloneIn g
      → OnSome Idle (destroy lib in_time luck g)
  unfolding destroy
  destroy-Idle in_time luck g a =
      let g1 : Gui C W F = record g { cancel = true } in
      let g2 = run_out lib 5 luck g1 in
      let (over, free) = run_out-Alone luck g.threads g1 a in
      if-cases (OnSome Idle) g.handle
        (λ h.
          if-elim (OnSome Idle) in_time (over, refl, free, shutdown_rng-collector lib g2.rng) tt)
        (λ h.
          let (none_left, idle) = no_handle g.busy g.threads (rw (h, g.handle) at a) in
          (none_left, h, idle, shutdown_rng-collector lib g.rng))
