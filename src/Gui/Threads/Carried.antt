-- ===== src/Gui/Threads/Carried.antt =====
-- The statistics of a result, from the work to the session.
use jitterentropy_analysis_d.Prelude.{ℕ, zero, suc, ◌≤◌, List, [], ◌∷◌, All, if-elim, ltb, arith}
use jitterentropy_analysis_d.Double.{Double}
use jitterentropy_analysis_d.Library.{Library}
use jitterentropy_analysis_d.Rng.Rounds.{Delivers}
use jitterentropy_analysis_d.Rng.Octets.{PutsBytes}
use jitterentropy_analysis_d.Stats.Histogram.Counts.{AreBytes}
use jitterentropy_analysis_d.Stats.Report.Counts.{report-counts}
use jitterentropy_analysis_d.Gui.State.{
  Job, generating, measuring, Payload, Phase, started, computed, recorded, published, leaving,
  ended, Gui, record_timeline,
}
use jitterentropy_analysis_d.Gui.State.Sums.{
  IsConsistent, AreConsistent, add_to_session-IsConsistent,
}
use jitterentropy_analysis_d.Gui.Jobs.Named.{benchmark_work-stats}
use jitterentropy_analysis_d.Gui.Jobs.Produced.{Reports, generate_work-AreBytes}
use jitterentropy_analysis_d.Gui.Threads.{Luck, sees_cancel, work, progress, thread_step}
use jitterentropy_analysis_d.Gui.Threads.Alone.{Fits, Alone}
use jitterentropy_analysis_d.Gui.Messages.Ranges.{InRange}

-- A result that a thread has yet to publish is consistent.
abbrev pub Carries : {F : Type 0} → Phase F → Type 0
Carries (started job) = Unit
Carries (computed p m) = AreConsistent p.stats
Carries (recorded p) = AreConsistent p.stats
Carries published = Unit
Carries leaving = Unit
Carries ended = Unit

module _ {F : Type 0} ⦃d : Double F⦄ where
  Reports-AreConsistent :
      (n : ℕ) (written : List ℕ) (p : Payload F)
      → n ≤ 65536
      → AreBytes written
      → Reports n written p
      → AreConsistent p.stats
  Reports-AreConsistent n written p small a (full, most, code, text, stats) = rw stats (
      if-elim AreConsistent (ltb 0 p.bytes) (report-counts F written a (omega (arith, full, most)))
        tt)

module _ {C W F : Type 0} ⦃d : Double F⦄ (lib : Library C W) where
  work-AreConsistent :
      (luck : Luck) (job : Job) (g : Gui C W F)
      → Delivers lib
      → PutsBytes lib
      → InRange job
      → AreConsistent (work lib luck job g).payload.stats
  work-AreConsistent luck (generating n) g delivers puts (some_bytes, small) =
      let (written, a, reports) =
        generate_work-AreBytes lib luck.allocated (sees_cancel g.cancel luck) g.time_base n g.rng
          delivers puts (omega arith) in
      Reports-AreConsistent n written (work lib luck (generating n) g).payload (omega arith) a
        reports
  work-AreConsistent luck (measuring n k) g delivers puts fits =
      rw
        (
          benchmark_work-stats lib luck.allocated (sees_cancel g.cancel luck) n k g.rng,
          (work lib luck (measuring n k) g).payload.stats,
        )
        tt

  -- The session's counts add up, and so do those of a result under way.
  abbrev pub Sums : Gui C W F → Type 0
  Sums g = IsConsistent g.session × All Carries g.threads

  progress-Sums :
      (luck : Luck) (p : Phase F) (g : Gui C W F)
      → Delivers lib
      → PutsBytes lib
      → Fits p
      → Carries p
      → IsConsistent g.session
      → let (p', g') = progress lib luck p g in Carries p' × IsConsistent g'.session
  unfolding progress record_timeline
  progress-Sums luck (started job) g delivers puts fits c s =
      (work-AreConsistent luck job g delivers puts fits, s)
  progress-Sums luck (computed p m) g delivers puts fits c s = (c, s)
  progress-Sums luck (recorded p) g delivers puts fits c s =
      (tt, add_to_session-IsConsistent p.stats g.session c s)
  progress-Sums luck published g delivers puts fits c s = (tt, s)
  progress-Sums luck leaving g delivers puts fits c s = (tt, s)
  progress-Sums luck ended g delivers puts fits c s = (tt, s)

  pub thread_step-Sums :
      (luck : Luck) (i : ℕ) (threads : List (Phase F)) (g : Gui C W F)
      → Delivers lib
      → PutsBytes lib
      → Alone g.busy g.handle threads
      → All Carries threads
      → IsConsistent g.session
      → let (threads', g') = thread_step lib luck i threads g in
        IsConsistent g'.session × All Carries threads'
  unfolding thread_step
  thread_step-Sums luck i [] g delivers puts a c s = (s, tt)
  thread_step-Sums luck zero (p ∷ []) g delivers puts a (c, rest) s =
      let (c', s') = progress-Sums luck p g delivers puts a.2 c s in (s', (c', tt))
  thread_step-Sums luck (suc i) (p ∷ []) g delivers puts a c s = (s, c)
  thread_step-Sums luck i (p ∷ q ∷ threads) g delivers puts a c s = absurd a
