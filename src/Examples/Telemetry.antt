-- ===== src/Examples/Telemetry.antt =====
-- A frame of telemetry with the status of a library.
use jitterentropy_analysis_d.Prelude.{ℕ, some}
use jitterentropy_analysis_d.Prelude.Int.{pos}
use jitterentropy_analysis_d.Double.{whole}
use jitterentropy_analysis_d.Library.{Library}
use jitterentropy_analysis_d.Bridge.Text.{Bytes}
use jitterentropy_analysis_d.Bridge.Getters.{codes}
use jitterentropy_analysis_d.Gui.State.{Gui}
use jitterentropy_analysis_d.Examples.Rng.{Collector, World, zeros, running}
use jitterentropy_analysis_d.Examples.Gui.{answering}

-- In the layout of `jent_status`, with a tab and a line feed at the end.
abbrev status_text : Bytes
status_text = codes "{\n\t\"fips\": true\n}\n"

abbrev telling : Library Collector World
telling = record zeros { status = λ c n w. ((pos 0, some status_text), w) }

-- A collector is there.
abbrev live : Gui Collector World ℕ
live = record answering { rng = running }
