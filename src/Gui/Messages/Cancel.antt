-- ===== src/Gui/Messages/Cancel.antt =====
-- A Cancel behind the admission of a job.
use jitterentropy_analysis_d.Prelude.{ℕ, ◌<◌, Bool, true, false, [], ◌≡◌, ◌≢◌, refl, arith}
use jitterentropy_analysis_d.Prelude.Int.{pos}
use jitterentropy_analysis_d.Double.{Double}
use jitterentropy_analysis_d.Library.{Library}
use jitterentropy_analysis_d.Rng.Rounds.{Delivers}
use jitterentropy_analysis_d.Bridge.Object.{Object}
use jitterentropy_analysis_d.Gui.State.{generating, Gui}
use jitterentropy_analysis_d.Gui.Jobs.Cancelled.{generate_work_cancelled}
use jitterentropy_analysis_d.Gui.Threads.{Luck, sees_cancel, start_job, work}
use jitterentropy_analysis_d.Gui.Threads.Alone.{AloneIn}
use jitterentropy_analysis_d.Gui.Threads.Lives.{start_job-Begun}
use jitterentropy_analysis_d.Gui.Messages.{act, cancel_benchmark}

module _ {C W F : Type 0} ⦃d : Double F⦄ (lib : Library C W) where
  -- Where a read's positive result counts the bytes it delivers, and at most one thread is there and
  -- none at work: if a "generate" job for a byte or more is admitted and a Cancel comes before the
  -- first poll, the job produces no byte, its status is not 0 and the page gets no text.
  pub act_cancel :
      (in_time created : Bool) (luck : Luck) (n : ℕ) (o : Object) (g : Gui C W F)
      → Delivers lib
      → AloneIn g
      → g.busy ≡ false
      → 0 < n
      → let g1 = start_job true true (generating n) g in
        let g2 = act lib in_time created cancel_benchmark o g1 in
        let p = (work lib luck (generating n) g2).payload in
        (p.bytes ≡ 0) × (p.status ≢ pos 0) × (p.hex_data ≡ [])
  unfolding act
  act_cancel in_time created luck n o g delivers a b some_bytes =
      let g1 = start_job true true (generating n) g in
      let g2 = act lib in_time created cancel_benchmark o g1 in
      let (alone, handle, busy, cancel, waits) = start_job-Begun (generating n) g a b in
      let seen : sees_cancel g2.cancel luck 0 ≡ true = rw busy refl in
      let (none_made, failed, no_text) =
        generate_work_cancelled lib luck.allocated (sees_cancel g2.cancel luck) g2.time_base n 0
          g2.rng delivers seen (omega arith) in
      (omega (arith, none_made), failed, no_text)
