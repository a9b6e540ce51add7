-- ===== src/Gui/Threads.antt =====
-- The worker threads: what each does between two points where other threads see the difference.
pub mod Alone
pub mod Start
pub mod Carried
pub mod Lives
use jitterentropy_analysis_d.Prelude.{
  ℕ, zero, suc, Bool, true, false, Option, none, some, List, [], ◌∷◌, ◌||◌, leb, drop,
  if◌then◌else◌,
}
use jitterentropy_analysis_d.Prelude.Int.{ℤ}
use jitterentropy_analysis_d.Double.{Double}
use jitterentropy_analysis_d.Library.{Library}
use jitterentropy_analysis_d.Rng.{shutdown_rng}
use jitterentropy_analysis_d.Bridge.Text.{Bytes}
use jitterentropy_analysis_d.Bridge.Getters.{codes}
use jitterentropy_analysis_d.Gui.State.{
  Payload, Job, generating, measuring, Marks, Phase, started, computed, recorded, published,
  leaving, ended, Gui, record_timeline, add_to_session, try_admit_job, publish_worker_start_failure,
}
use jitterentropy_analysis_d.Gui.Jobs.{Work, generate_work, benchmark_work}

-- What a worker meets: whether `malloc` succeeds, and the poll of the cancel flag from which on it sees
-- a Cancel that arrives during the work.
pub record Luck : Type 0 where
  pub allocated : Bool
  pub cancelled_at : Option ℕ

-- The cancel flag at each poll: set before, or by then.
abbrev pub sees_cancel : Bool → Luck → ℕ → Bool
sees_cancel cancel luck i = cancel || elim (luck.cancelled_at) [ none ↦ false | some k ↦ leb k i ]

abbrev pub cancelled_later : Luck → Bool
cancelled_later luck = elim (luck.cancelled_at) [ none ↦ false | some k ↦ true ]

-- Whether `g_rng_busy` has still to be reset by the thread.
abbrev pub is_working : {F : Type 0} → Phase F → Bool
is_working (started job) = true
is_working (computed p m) = true
is_working (recorded p) = true
is_working published = true
is_working leaving = false
is_working ended = false

module _ {C W F : Type 0} ⦃d : Double F⦄ (lib : Library C W) where
  abbrev pub work : Luck → Job → Gui C W F → Work C W F
  work luck (generating n) g =
      generate_work lib luck.allocated (sees_cancel g.cancel luck) g.time_base n g.rng
  work luck (measuring n k) g =
      benchmark_work lib luck.allocated (sees_cancel g.cancel luck) n k g.rng

  -- The next thing that a thread does: the phase it comes to, and the state.
  unfoldable pub progress : Luck → Phase F → Gui C W F → Phase F × Gui C W F
  unfolding record_timeline
  progress luck (started job) g =
      let w = work luck job g in
      (
        computed w.payload w.marks,
        record g { rng = w.rng; cancel = g.cancel || cancelled_later luck },
      )
  progress luck (computed p m) g = (recorded p, record_timeline m g)
  progress luck (recorded p) g =
      (published, record g { pending = p; session = add_to_session p.stats g.session })
  progress luck published g = (leaving, record g { busy = false })
  progress luck leaving g = (ended, g)
  progress luck ended g = (ended, g)

  -- The thread at a position of `threads` goes on.
  unfoldable pub thread_step : Luck → ℕ → List (Phase F) → Gui C W F → List (Phase F) × Gui C W F
  unfolding progress
  thread_step luck i [] g = ([], g)
  thread_step luck zero (p ∷ threads) g = let (p', g') = progress luck p g in (p' ∷ threads, g')
  thread_step luck (suc i) (p ∷ threads) g =
      let (threads', g') = thread_step luck i threads g in (p ∷ threads', g')

  unfoldable pub go_on : Luck → ℕ → Gui C W F → Gui C W F
  unfolding thread_step
  go_on luck i g =
      let (threads, g') = thread_step luck i g.threads g in record g' { threads = threads }

abbrev pub action_of : Job → Bytes
action_of (generating n) = codes "generate"
action_of (measuring n k) = codes "benchmark"

module _ {C W F : Type 0} ⦃d : Double F⦄ where
  -- `PublishWorkerStartFailure` with the arguments of the job.
  abbrev pub start_failure : Job → Gui C W F → Gui C W F
  start_failure (generating n) = publish_worker_start_failure (codes "generate") n 1
  start_failure (measuring n k) = publish_worker_start_failure (codes "benchmark") n k

  -- From `TryAdmitJob` to the end of the message. `in_time` is about the wait for an earlier thread,
  -- `created` says that `CreateThread` succeeds.
  unfoldable pub start_job : Bool → Bool → Job → Gui C W F → Gui C W F
  unfolding try_admit_job
  start_job in_time created job g =
      let (admitted, g1) = try_admit_job in_time (action_of job) g in
      if admitted
      then if created
        then record g1 { handle = true; threads = started job ∷ g1.threads }
        else start_failure job g1
      else g1

module _ {C W F : Type 0} ⦃d : Double F⦄ (lib : Library C W) where
  -- The newest thread goes on until its end.
  abbrev pub run_out : ℕ → Luck → Gui C W F → Gui C W F
  run_out zero luck g = g
  run_out (suc n) luck g = run_out n luck (go_on lib luck 0 g)

  -- Steps of threads, each with what it meets.
  abbrev pub go_all : List (Luck × ℕ) → Gui C W F → Gui C W F
  go_all [] g = g
  go_all ((luck, i) ∷ steps) g = go_all steps (go_on lib luck i g)

  -- Closing the handle of the thread that has ended, and the collector.
  abbrev pub close_down : Gui C W F → Gui C W F
  close_down g = record g {
    handle = false;
    threads = drop 1 g.threads;
    rng = shutdown_rng lib g.rng;
  }

  -- `WM_DESTROY`, which ends the program; `none` is `ExitProcess`, when the thread has not ended in
  -- time. From its start a thread has five steps to its end.
  pub destroy : Bool → Luck → Gui C W F → Option (Gui C W F)
  unfolding go_on
  destroy in_time luck g =
      let g1 = record g { cancel = true } in
      if g.handle
      then if in_time then some (close_down (run_out 5 luck g1)) else none
      else some (record g1 { rng = shutdown_rng lib g.rng })
