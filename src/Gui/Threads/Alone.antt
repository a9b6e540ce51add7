-- ===== src/Gui/Threads/Alone.antt =====
-- What a step of a worker thread and the start of a job do to the threads and to `g_rng_busy`.
use jitterentropy_analysis_d.Prelude.{
  ℕ, zero, suc, Bool, true, false, List, [], ◌∷◌, ◌≡◌, refl, inl, inr, Bool-cases, drop,
  if◌then◌else◌,
}
use jitterentropy_analysis_d.Double.{Double}
use jitterentropy_analysis_d.Library.{Library}
use jitterentropy_analysis_d.Gui.State.{
  Job, generating, measuring, Phase, try_admit_job, publish_worker_start_failure,
  reap_worker_handle, publish_rejection, started, computed, recorded, published, leaving, ended,
  Gui,
}
use jitterentropy_analysis_d.Gui.Threads.{
  Luck, is_working, start_failure, progress, thread_step, go_on, go_all, start_job,
}
use jitterentropy_analysis_d.Gui.Messages.Ranges.{InRange}

abbrev pub Fits : {F : Type 0} → Phase F → Type 0
Fits (started job) = InRange job
Fits (computed p m) = Unit
Fits (recorded p) = Unit
Fits published = Unit
Fits leaving = Unit
Fits ended = Unit

-- There is no thread and no handle, and the flag is clear; or there is one thread, its handle, and
-- the flag says whether it is at work.
abbrev pub Alone : {F : Type 0} → Bool → Bool → List (Phase F) → Type 0
Alone busy handle [] = (busy ≡ false) × (handle ≡ false)
Alone busy handle (p ∷ []) = (busy ≡ is_working p) × (handle ≡ true) × Fits p
Alone busy handle (p ∷ q ∷ threads) = ⊥

module _ {F : Type 0} where
  pub idle_reaped :
      (busy handle : Bool) (threads : List (Phase F))
      → Alone busy handle threads
      → drop 1 threads ≡ []
  idle_reaped busy handle [] a = refl
  idle_reaped busy handle (p ∷ []) a = refl
  idle_reaped busy handle (p ∷ q ∷ threads) a = absurd a

  pub no_handle :
      (busy : Bool) (threads : List (Phase F))
      → Alone busy false threads
      → (threads ≡ []) × (busy ≡ false)
  no_handle busy [] a = (refl, a.0)
  no_handle busy (p ∷ []) a = cc (a.1)
  no_handle busy (p ∷ q ∷ threads) a = absurd a

module _ {C W F : Type 0} where
  abbrev pub AloneIn : Gui C W F → Type 0
  AloneIn g = Alone g.busy g.handle g.threads

module _ {C W F : Type 0} ⦃d : Double F⦄ (lib : Library C W) where
  progress-Alone :
      (luck : Luck) (p : Phase F) (g : Gui C W F)
      → Alone g.busy g.handle (p ∷ [])
      → let (p', g') = progress lib luck p g in Alone g'.busy g'.handle (p' ∷ [])
  unfolding progress
  progress-Alone luck (started job) g (b, h, f) = (b, h, tt)
  progress-Alone luck (computed p m) g (b, h, f) = (b, h, tt)
  progress-Alone luck (recorded p) g (b, h, f) = (b, h, tt)
  progress-Alone luck published g (b, h, f) = (refl, h, tt)
  progress-Alone luck leaving g (b, h, f) = (b, h, tt)
  progress-Alone luck ended g (b, h, f) = (b, h, tt)

  thread_step-Alone :
      (luck : Luck) (i : ℕ) (threads : List (Phase F)) (g : Gui C W F)
      → Alone g.busy g.handle threads
      → let (threads', g') = thread_step lib luck i threads g in Alone g'.busy g'.handle threads'
  unfolding thread_step
  thread_step-Alone luck i [] g a = a
  thread_step-Alone luck zero (p ∷ []) g a = progress-Alone luck p g a
  thread_step-Alone luck (suc i) (p ∷ []) g a = a
  thread_step-Alone luck i (p ∷ q ∷ threads) g a = absurd a

  pub go_on-Alone : (luck : Luck) (i : ℕ) (g : Gui C W F) → AloneIn g → AloneIn (go_on lib luck i g)
  unfolding go_on
  go_on-Alone luck i g a = thread_step-Alone luck i g.threads g a

  pub go_all-Alone :
      (steps : List (Luck × ℕ)) (g : Gui C W F) → AloneIn g → AloneIn (go_all lib steps g)
  go_all-Alone [] g a = a
  go_all-Alone ((luck, i) ∷ steps) g a =
      go_all-Alone steps (go_on lib luck i g) (go_on-Alone luck i g a)

module _ {C W F : Type 0} ⦃d : Double F⦄ where
  -- An admitted job, where no thread is left.
  admitted-Alone :
      (created : Bool) (job : Job) (g : Gui C W F)
      → InRange job
      → g.busy ≡ true
      → g.threads ≡ []
      → g.handle ≡ false
      → AloneIn (
          if created
          then record g { handle = true; threads = started job ∷ g.threads }
          else start_failure job g)
  unfolding publish_worker_start_failure
  admitted-Alone true job g fits b none_left shut = rw none_left (b, refl, fits)
  admitted-Alone false (generating n) g fits b none_left shut = rw none_left (refl, shut)
  admitted-Alone false (measuring n k) g fits b none_left shut = rw none_left (refl, shut)

  pub start_job-Alone :
      (in_time created : Bool) (job : Job) (g : Gui C W F)
      → InRange job
      → AloneIn g
      → AloneIn (start_job in_time created job g)
  unfolding start_job try_admit_job reap_worker_handle publish_rejection
  start_job-Alone in_time created job g fits a = elim (Bool-cases g.busy) [
    | inl b ↦ rw (b, start_job) (rw (b, g.busy) at a)
    | inr b ↦ elim (Bool-cases g.handle) [
      | inl h ↦ elim (Bool-cases in_time) [
        | inl t ↦
            let g1 : Gui C W F = record g {
              busy = true;
              cancel = false;
              handle = false;
              threads = drop 1 g.threads;
            } in
            rw (b, start_job, h, t)
              (admitted-Alone created job g1 fits refl (idle_reaped g.busy g.handle g.threads a)
                refl)
        | inr t ↦ rw (b, start_job, h, t) (rw (b, g.busy, h, g.handle) at a)
      ]
      | inr h ↦
          let g1 : Gui C W F = record g { busy = true; cancel = false; handle = false } in
          let none_left = no_handle g.busy g.threads (rw (h, g.handle) at a) in
          rw (b, start_job, h) (admitted-Alone created job g1 fits refl none_left.0 refl)
    ]
  ]
