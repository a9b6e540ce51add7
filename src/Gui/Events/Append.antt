-- ===== src/Gui/Events/Append.antt =====
-- Events one after the other.
use jitterentropy_analysis_d.Prelude.{List, [], ◌∷◌, ◌++◌, ◌≡◌, refl}
use jitterentropy_analysis_d.Double.{Double}
use jitterentropy_analysis_d.Library.{Library}
use jitterentropy_analysis_d.Gui.State.{Gui}
use jitterentropy_analysis_d.Gui.Events.{Event, happen, run_events}

module _ {C W F : Type 0} ⦃d : Double F⦄ (lib : Library C W) where
  pub run_events-append :
      (events more : List Event) (g : Gui C W F)
      → run_events lib (events ++ more) g ≡ run_events lib more (run_events lib events g)
  unfolding run_events
  run_events-append [] more g = refl
  run_events-append (e ∷ events) more g = run_events-append events more (happen lib e g)

  pub run_events-one : (e : Event) (g : Gui C W F) → run_events lib (e ∷ []) g ≡ happen lib e g
  unfolding run_events
  run_events-one e g = refl
