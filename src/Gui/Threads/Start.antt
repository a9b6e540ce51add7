-- ===== src/Gui/Threads/Start.antt =====
-- What the start of a job leaves alone.
use jitterentropy_analysis_d.Prelude.{Bool, true, List, [], ◌∷◌, All, ◌≡◌, refl, drop, if-elim}
use jitterentropy_analysis_d.Double.{Double}
use jitterentropy_analysis_d.Bridge.Text.{Bytes}
use jitterentropy_analysis_d.Gui.State.{
  Job, generating, measuring, Phase, started, Gui, reap_worker_handle, publish_rejection,
  try_admit_job, publish_worker_start_failure,
}
use jitterentropy_analysis_d.Gui.Threads.{action_of, start_failure, start_job}

-- The parts of the state that belong to the workers and the telemetry.
abbrev pub Untouched : {C W F : Type 0} → Gui C W F → Gui C W F → Type 0
Untouched g g' =
    (g'.rng ≡ g.rng)
    × (g'.session ≡ g.session)
    × (g'.ui_settings ≡ g.ui_settings)
    × (g'.timeline ≡ g.timeline)
    × (g'.time_base ≡ g.time_base)

module _ {C W F : Type 0} ⦃d : Double F⦄ where
  reap_worker_handle-Untouched :
      (in_time : Bool) (g : Gui C W F) → Untouched g (reap_worker_handle in_time g).1
  unfolding reap_worker_handle
  reap_worker_handle-Untouched in_time g =
      let P : Bool × Gui C W F → Type 0 = λ x. Untouched g x.1 in
      let same : Untouched g g = (refl, refl, refl, refl, refl) in
      if-elim P g.handle (if-elim P in_time (refl, refl, refl, refl, refl) same) same

  try_admit_job-Untouched :
      (in_time : Bool) (action : Bytes) (g : Gui C W F)
      → Untouched g (try_admit_job in_time action g).1
  unfolding try_admit_job publish_rejection
  try_admit_job-Untouched in_time action g =
      let P : Bool × Gui C W F → Type 0 = λ x. Untouched g x.1 in
      let g0 : Gui C W F = record g { busy = true } in
      let same = reap_worker_handle-Untouched in_time g0 in
      if-elim P g.busy (refl, refl, refl, refl, refl)
        (if-elim P (reap_worker_handle in_time g0).0 same same)

  start_failure-Untouched :
      (job : Job) (g g1 : Gui C W F) → Untouched g g1 → Untouched g (start_failure job g1)
  unfolding publish_worker_start_failure
  start_failure-Untouched (generating n) g g1 u = u
  start_failure-Untouched (measuring n k) g g1 u = u

  pub start_job-Untouched :
      (in_time created : Bool) (job : Job) (g : Gui C W F)
      → Untouched g (start_job in_time created job g)
  unfolding start_job
  start_job-Untouched in_time created job g =
      let P : Gui C W F → Type 0 = Untouched g in
      let (admitted, g1) = try_admit_job in_time (action_of job) g in
      let u = try_admit_job-Untouched in_time (action_of job) g in
      if-elim P admitted (if-elim P created u (start_failure-Untouched job g g1 u)) u

module _ {F : Type 0} (P : Phase F → Type 0) where
  drop-All : (threads : List (Phase F)) → All P threads → All P (drop 1 threads)
  drop-All [] a = a
  drop-All (p ∷ threads) a = a.1

-- What holds of the phases, and of a thread that begins, holds of them behind the start of a job.
module _ {C W F : Type 0} ⦃d : Double F⦄ (P : Phase F → Type 0) where
  try_admit_job-All :
      (in_time : Bool) (action : Bytes) (g : Gui C W F)
      → All P g.threads
      → All P (try_admit_job in_time action g).1.threads
  unfolding try_admit_job publish_rejection reap_worker_handle
  try_admit_job-All in_time action g a =
      let Q : Bool × Gui C W F → Type 0 = λ x. All P x.1.threads in
      let g0 : Gui C W F = record g { busy = true } in
      let reaped = if-elim Q g.handle (if-elim Q in_time (drop-All P g.threads a) a) a in
      if-elim Q g.busy a (if-elim Q (reap_worker_handle in_time g0).0 reaped reaped)

  start_failure-All :
      (job : Job) (g : Gui C W F) → All P g.threads → All P (start_failure job g).threads
  unfolding publish_worker_start_failure
  start_failure-All (generating n) g a = a
  start_failure-All (measuring n k) g a = a

  pub start_job-All :
      (in_time created : Bool) (job : Job) (g : Gui C W F)
      → ((j : Job) → P (started j))
      → All P g.threads
      → All P (start_job in_time created job g).threads
  unfolding start_job
  start_job-All in_time created job g fresh a =
      let Q : Gui C W F → Type 0 = λ x. All P x.threads in
      let (admitted, g1) = try_admit_job in_time (action_of job) g in
      let b = try_admit_job-All in_time (action_of job) g a in
      if-elim Q admitted (if-elim Q created (fresh job, b) (start_failure-All job g1 b)) b
