-- ===== src/Gui/Telemetry/Once.antt =====
-- A result is shown once, and its frame alone is timed.
use jitterentropy_analysis_d.Prelude.{ℕ, List, Bool, true, some, ◌<◌, ◌≡◌, refl, lt→ltb, length}
use jitterentropy_analysis_d.Double.{Double}
use jitterentropy_analysis_d.Library.{Library}
use jitterentropy_analysis_d.Gui.State.{Payload, Gui}
use jitterentropy_analysis_d.Gui.Threads.{Luck}
use jitterentropy_analysis_d.Gui.Telemetry.{
  delivered, shown, begin_frame, end_frame, build_telemetry,
}

module _ {F : Type 0} ⦃d : Double F⦄ where
  pub is_there-delivered :
      (p : Payload F) → p.valid ≡ true → 0 < length p.action → delivered p ≡ some p
  is_there-delivered p v named = rw (v, lt→ltb 0 (length p.action) named) refl

module _ {C W F : Type 0} ⦃d : Double F⦄ (lib : Library C W) where
  pub frame-result :
      (busy : Bool) (between : List (Luck × ℕ)) (g : Gui C W F)
      → (build_telemetry lib busy between g).0.action_result ≡ shown (delivered g.pending)
  unfolding build_telemetry begin_frame end_frame
  frame-result busy between g = refl
