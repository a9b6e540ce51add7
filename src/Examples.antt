-- ===== src/Examples.antt =====
-- The theorems at concrete inputs, and small runs of the definitions.
pub mod Bridge
pub mod Rng
pub mod Cli
pub mod Monitor
pub mod Stats
pub mod Gui
pub mod Telemetry
pub mod Delivered
pub mod Window
