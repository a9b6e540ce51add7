-- ===== src/Gui/Events/Configured.antt =====
-- The collector in use, the settings of the wrapper and those that the page is shown.
use jitterentropy_analysis_d.Prelude.{ℕ, false, some, List, ◌≡◌, refl}
use jitterentropy_analysis_d.Double.{Double}
use jitterentropy_analysis_d.Library.{Library}
use jitterentropy_analysis_d.Rng.{rng_get_settings, shutdown_rng, rng_configure, settings_defaults}
use jitterentropy_analysis_d.Rng.Allocated.{
  Allocates, Keeps, Descends, StaysNone, Allocates-Descends, Keeps-Descends, InUse, shutdown-Valid,
  configure-Valid, Valid-InUse, idle_Valid,
}
use jitterentropy_analysis_d.Rng.Release.{shutdown_rng-collector, rng_configure_idle}
use jitterentropy_analysis_d.Rng.Kept.{MadeWith, MadeWith-Kept}
use jitterentropy_analysis_d.Gui.State.{Gui}
use jitterentropy_analysis_d.Gui.Telemetry.{ask}
use jitterentropy_analysis_d.Gui.Events.{Event, launch, run_events}
use jitterentropy_analysis_d.Gui.Events.Kept.{KeptThroughout, run_events-Shown}

module _ {C W F : Type 0} ⦃d : Double F⦄ (lib : Library C W) (Under : ℕ → ℕ → C → Type 0) where
  MadeWith-KeptThroughout :
      Allocates lib Under → Keeps lib Under → KeptThroughout {F = F} lib (MadeWith lib Under)
  MadeWith-KeptThroughout allocates keeps = record {
    calls = λ s. MadeWith-Kept lib Under s allocates keeps;
    configures = λ old s r v.
        let off = shutdown_rng lib r in
        let took = rng_configure_idle (some s) off (shutdown_rng-collector lib r) in
        (
          configure-Valid lib Under (some s) off (shutdown-Valid lib Under r v.0),
          rw (took, rng_configure (some s) off) refl,
        );
  }

module _ {C W : Type 0} (lib : Library C W) (F : Type 0) ⦃d : Double F⦄ where
  -- Where a read without a collector leaves none: after any events since the start, the settings that
  -- the page is shown are those of the wrapper, and a collector that is there was allocated with them, or
  -- the library's reads have put it in the place of one that was, after a self-test with them.
  pub run_events_configured :
      (events : List Event) (w : W)
      → StaysNone lib
      → let g : Gui C W F = run_events lib events (launch lib w) in
        (g.rng.settings ≡ g.ui_settings) × InUse lib (Descends lib) g.ui_settings g.rng.collector
  unfolding launch ask rng_get_settings
  run_events_configured events w stays =
      let start : Gui C W F = launch lib w in
      let g = run_events lib events start in
      let kept =
        MadeWith-KeptThroughout lib (Descends lib) (Allocates-Descends lib)
          (Keeps-Descends lib stays) in
      let (v, e) =
        run_events-Shown lib (MadeWith lib (Descends lib)) kept events start
          (idle_Valid lib (Descends lib) false settings_defaults (λ t. cc), refl) in
      (e, rw (← e) (Valid-InUse lib (Descends lib) g.rng.collector v))
