-- ===== src/Gui/Events.antt =====
-- The program as a sequence of events: a message of the page, a tick of the timer, or a step of a
-- worker thread. `main` before the first of them.
pub mod Alone
pub mod Kept
pub mod Configured
pub mod Delivered
pub mod Session
pub mod Append
use jitterentropy_analysis_d.Prelude.{ℕ, Bool, true, false, none, List, [], ◌∷◌}
use jitterentropy_analysis_d.Prelude.Int.{pos}
use jitterentropy_analysis_d.Double.{Double, lit}
use jitterentropy_analysis_d.Monitor.{get_epoch, blank_monitor}
use jitterentropy_analysis_d.Library.{Library}
use jitterentropy_analysis_d.Rng.{Rng, settings_defaults, rng_get_settings}
use jitterentropy_analysis_d.Bridge.Text.{Bytes}
use jitterentropy_analysis_d.Gui.State.{Payload, Stage, Timeline, Phase, Gui, no_bytes}
use jitterentropy_analysis_d.Gui.Threads.{Luck, go_on}
use jitterentropy_analysis_d.Gui.Messages.{invoke}
use jitterentropy_analysis_d.Gui.Telemetry.{ask, build_telemetry}

-- With what the event meets: see `start_job`, `build_telemetry` and `go_on`.
pub data Event : Type 0 where
  message : Bool → Bool → Bytes → Event
  tick : Bool → List (Luck × ℕ) → Event
  step : Luck → ℕ → Event

module _ {F : Type 0} ⦃d : Double F⦄ where
  abbrev blank_stage : Stage F
  blank_stage = record { start_seconds = lit 0; duration_seconds = lit 0 }

  -- The zeroed variables.
  abbrev pub no_result : Payload F
  no_result = record {
    valid = false;
    action = [];
    status = pos 0;
    bytes = 0;
    iterations = 0;
    duration = lit 0;
    init_seconds = lit 0;
    hex_data = [];
    stats = none;
  }

  abbrev pub no_timeline : Timeline F
  no_timeline = record {
    valid = false;
    serialization_pending = false;
    request = blank_stage;
    entropy = blank_stage;
    processing = blank_stage;
    serialization = blank_stage;
  }

module _ {C W F : Type 0} ⦃d : Double F⦄ (lib : Library C W) where
  -- The wrapper and the monitor before any call.
  abbrev pub untouched : W → Rng C W F
  untouched w = record {
    collector = none;
    self_test_complete = false;
    settings = settings_defaults;
    callback_set = false;
    monitor = blank_monitor;
    world = w;
  }

  -- `main` up to the loop over the messages.
  unfoldable pub launch : W → Gui C W F
  unfolding ask
  launch w =
      let (base, r) = ask lib get_epoch (untouched w) in
      record {
        rng = r;
        busy = false;
        cancel = false;
        handle = false;
        threads = [];
        pending = no_result;
        session = no_bytes;
        ui_settings = rng_get_settings r;
        timeline = no_timeline;
        time_base = base;
      }

  unfoldable pub happen : Event → Gui C W F → Gui C W F
  unfolding invoke build_telemetry go_on
  happen (message in_time created json) g = invoke lib in_time created json g
  happen (tick lock_busy between) g = (build_telemetry lib lock_busy between g).1
  happen (step luck i) g = go_on lib luck i g

  unfoldable pub run_events : List Event → Gui C W F → Gui C W F
  unfolding happen
  run_events [] g = g
  run_events (e ∷ events) g = run_events events (happen e g)
