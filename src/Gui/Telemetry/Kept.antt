-- ===== src/Gui/Telemetry/Kept.antt =====
-- A frame of telemetry keeps what the calls of the wrapper keep.
use jitterentropy_analysis_d.Prelude.{Bool, refl, ◌∙◌}
use jitterentropy_analysis_d.Double.{Double}
use jitterentropy_analysis_d.Monitor.{jitter_samples_snapshot, health_snapshot}
use jitterentropy_analysis_d.Monitor.{Tick}
use jitterentropy_analysis_d.Monitor.Initialized.{
  health_snapshot-initialized, recent_history_snapshot-initialized,
  jitter_samples_snapshot-initialized,
}
use jitterentropy_analysis_d.Library.{Library}
use jitterentropy_analysis_d.Rng.{Rng, read_counter, rng_get_status_json}
use jitterentropy_analysis_d.Rng.Kept.{Kept, status-Kept}
use jitterentropy_analysis_d.Gui.State.{Gui}
use jitterentropy_analysis_d.Gui.Telemetry.{Frame, ask, begin_frame, end_frame}

module _ {C W F : Type 0} ⦃d : Double F⦄ (lib : Library C W) where
  pub begin_frame-Kept :
      (P : Rng C W F → Type 0) (lock_busy : Bool) (g : Gui C W F)
      → Kept lib P
      → P g.rng
      → P (begin_frame lib lock_busy g).1.rng
  unfolding begin_frame ask
  begin_frame-Kept P lock_busy g kept p =
      let (t, r0) = read_counter lib g.rng in
      let (jitter, r1) = ask lib (λ t m. jitter_samples_snapshot t 256 m) r0 in
      let (health, r2) = ask lib health_snapshot r1 in
      let r3 = (rng_get_status_json lib lock_busy 4096 r2).1 in
      let p2 =
        kept.aside r2.monitor r2.world g.rng
          ((health_snapshot-initialized _ _).1 ∙ jitter_samples_snapshot-initialized _ _ _) p in
      kept.aside _ _ r3 (recent_history_snapshot-initialized _ _ _)
        (status-Kept lib P lock_busy 4096 r2 kept p2)

  pub end_frame-Kept :
      (P : Rng C W F → Type 0) (t : Tick) (f : Frame F) (g : Gui C W F)
      → Kept lib P
      → P g.rng
      → P (end_frame lib t f g).1.rng
  unfolding end_frame
  end_frame-Kept P t f g kept p = kept.aside _ _ g.rng refl p
