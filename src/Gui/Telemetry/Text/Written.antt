-- ===== src/Gui/Telemetry/Text/Written.antt =====
-- Every frame is a JSON text.
use jitterentropy_analysis_d.Prelude.{ℕ, Option, none, some, if◌then◌else◌}
use jitterentropy_analysis_d.Rng.{Rng}
use jitterentropy_analysis_d.Benchmark.{is_zero}
use jitterentropy_analysis_d.Double.{Double}
use jitterentropy_analysis_d.Library.{Library}
use jitterentropy_analysis_d.Bridge.Text.{Bytes}
use jitterentropy_analysis_d.Gui.State.{Gui}
use jitterentropy_analysis_d.Stats.Report.{Report}
use jitterentropy_analysis_d.Gui.Telemetry.Text.Grammar.{Json}

-- The text of the library's status is JSON, if there is one.
abbrev pub IsJsonStatus : Option Bytes → Type 0
IsJsonStatus none = Unit
IsJsonStatus (some t) = Json t

module _ {C W : Type 0} (lib : Library C W) where
  -- What `jent_status` writes when it succeeds is JSON.
  abbrev pub WritesJson : Type 0
  WritesJson =
      (c : C) (n : ℕ) (w : W)
      → IsJsonStatus (if is_zero (lib.status c n w).0.0 then (lib.status c n w).0.1 else none)
