-- ===== src/Gui/Telemetry.antt =====
-- `BuildTelemetryJson`: the values that a frame of telemetry shows, and what building it changes;
-- Gui/Telemetry/Text has their text.
pub mod Kept
pub mod Once
pub mod Text
use jitterentropy_analysis_d.Prelude.{
  ℕ, ◌/◌, ◌%◌, Bool, true, false, Option, none, some, List, [], length, map, ltb, ◌&&◌,
  if◌then◌else◌,
}
use jitterentropy_analysis_d.Prelude.Int.{ℤ, pos}
use jitterentropy_analysis_d.Double.{Double, lit, ◌⊘◌}
use jitterentropy_analysis_d.Monitor.{
  Tick, Monitor, HealthStats, HistorySample, health_snapshot, jitter_samples_snapshot,
  recent_history_snapshot,
}
use jitterentropy_analysis_d.Library.{Library}
use jitterentropy_analysis_d.Rng.{
  Settings, Rng, epoch_reading, read_counter, rng_get_library_version, rng_get_status_json,
}
use jitterentropy_analysis_d.Stats.Histogram.{
  Histogram, ChiSquare, shannon, min_entropy, chi_square,
}
use jitterentropy_analysis_d.Stats.Rct.{RctResult, rct}
use jitterentropy_analysis_d.Stats.Apt.{AptResult, apt}
use jitterentropy_analysis_d.Stats.Bits.{Monobit, Runs}
use jitterentropy_analysis_d.Stats.Report.{Report}
use jitterentropy_analysis_d.Bridge.Text.{Bytes}
use jitterentropy_analysis_d.Bridge.Numbers.{finite}
use jitterentropy_analysis_d.Benchmark.{is_zero}
use jitterentropy_analysis_d.Gui.Threads.{Luck, go_all}
use jitterentropy_analysis_d.Gui.State.{
  Payload, Stage, Timeline, Gui, qpc_to_process_seconds, stage,
}

-- "session"
pub record Session (F : Type 0) : Type 0 where
  pub byte_count : ℕ
  pub shannon_bits : F
  pub min_entropy_bits : F
  pub chi : ChiSquare F
  pub counts : List ℕ

-- A frame, by the names of its parts; "actionResult" and "timeline" are null for `none`, as is the
-- status.
pub record Frame (F : Type 0) : Type 0 where
  pub busy : Bool
  pub uptime : F
  pub settings : Settings
  pub session : Session F
  pub jitter : List F
  pub sample_count : ℕ
  pub rct_shown : RctResult
  pub apt_shown : AptResult
  pub version : ℕ × ℕ × ℕ
  pub status : Option Bytes
  pub health : HealthStats F
  pub history : List (HistorySample F)
  pub action_result : Option (Payload F)
  pub timeline : Option (Timeline F)

abbrev pub jitter_window : ℕ
jitter_window = 128

-- "library.version"
abbrev pub version_parts : ℕ → ℕ × ℕ × ℕ
version_parts v = (v / 1000000, v / 10000 % 100, v / 100 % 100)

abbrev pub is_there : {F : Type 0} → Option (Payload F) → Bool
is_there none = false
is_there (some p) = true

module _ {F : Type 0} ⦃d : Double F⦄ where
  abbrev pub jitter_alpha : F
  jitter_alpha = lit 1 ⊘ lit 1048576

  abbrev pub show_chi : ChiSquare F → ChiSquare F
  show_chi c = record { statistic = finite c.statistic; p_value = finite c.p_value }

  abbrev pub show_session : Histogram → Session F
  show_session h = record {
    byte_count = h.total;
    shannon_bits = finite (shannon h);
    min_entropy_bits = finite (min_entropy h);
    chi = show_chi (chi_square h);
    counts = h.counts;
  }

  abbrev pub show_report : Report F → Report F
  show_report r = record r {
    shannon_bits_per_byte = finite r.shannon_bits_per_byte;
    min_entropy_bits_per_byte = finite r.min_entropy_bits_per_byte;
    chi_square_result = show_chi r.chi_square_result;
    monobit_result = record (r.monobit_result) { p_value = finite r.monobit_result.p_value };
    correlation = finite r.correlation;
    runs_result = record (r.runs_result) { p_value = finite r.runs_result.p_value };
  }

  abbrev pub show_result : Payload F → Payload F
  show_result p = record p {
    duration = finite p.duration;
    init_seconds = finite p.init_seconds;
    stats = elim (p.stats) [ none ↦ none | some r ↦ some (show_report r) ];
  }

  abbrev pub shown : Option (Payload F) → Option (Payload F)
  shown none = none
  shown (some p) = some (show_result p)

  abbrev pub show_health : HealthStats F → HealthStats F
  show_health s = record s {
    cumulative_generation_seconds = finite s.cumulative_generation_seconds;
    average_latency_seconds = finite s.average_latency_seconds;
    throughput_bytes_per_second = finite s.throughput_bytes_per_second;
  }

  abbrev pub show_sample : HistorySample F → HistorySample F
  show_sample s = record s {
    timestamp_seconds = finite s.timestamp_seconds;
    duration_seconds = finite s.duration_seconds;
  }

  abbrev pub show_stage : Stage F → Stage F
  show_stage s = record {
    start_seconds = finite s.start_seconds;
    duration_seconds = finite s.duration_seconds;
  }

  abbrev pub show_timeline : Timeline F → Timeline F
  show_timeline t = record t {
    request = show_stage t.request;
    entropy = show_stage t.entropy;
    processing = show_stage t.processing;
    serialization = show_stage t.serialization;
  }

  -- The pending result if its action is not empty.
  abbrev pub delivered : Payload F → Option (Payload F)
  delivered p = if p.valid && ltb 0 (length p.action) then some p else none

  -- What is left of it.
  abbrev pub taken : Payload F → Payload F
  taken p = if p.valid then record p { valid = false; hex_data = [] } else p

  -- The timeline behind a frame that delivers a result or does not.
  unfoldable pub stamp : Bool → Tick → Tick → Tick → Timeline F → Timeline F
  stamp has_result base ser_start ser_end t =
      if t.valid && t.serialization_pending && has_result
      then record t { serialization_pending = false; serialization = stage base ser_start ser_end }
      else t

module _ {C W F : Type 0} ⦃d : Double F⦄ (lib : Library C W) where
  -- A snapshot of the monitor.
  unfoldable pub ask {ℓ} :
      {A : Type ℓ} → (Tick → Monitor F → A × Monitor F) → Rng C W F → A × Rng C W F
  ask f r =
      let (t, w) = epoch_reading lib r in
      let (a, m) = f t r.monitor in (a, record r { monitor = m; world = w })

  -- Up to the text of "actionResult": the first reading, and the frame without its timeline.
  -- `lock_busy`: a worker holds the lock of the wrapper.
  unfoldable pub begin_frame : Bool → Gui C W F → (Tick × Frame F) × Gui C W F
  unfolding ask
  begin_frame lock_busy g =
      let (ser_start, r0) = read_counter lib g.rng in
      let (jitter, r1) = ask (λ t m. jitter_samples_snapshot t 256 m) r0 in
      let (health, r2) = ask health_snapshot r1 in
      let (answer, r3) = rng_get_status_json lib lock_busy 4096 r2 in
      let (history, r4) = ask (λ t m. recent_history_snapshot t 300 m) r3 in
      let (now, r5) = read_counter lib r4 in
      let frame : Frame F = record {
        busy = g.busy;
        uptime = finite (qpc_to_process_seconds g.time_base now);
        settings = g.ui_settings;
        session = show_session g.session;
        jitter = map finite jitter;
        sample_count = length jitter;
        rct_shown = rct jitter jitter_alpha (lit 1);
        apt_shown = apt jitter jitter_window jitter_alpha (lit 1);
        version = version_parts (rng_get_library_version lib);
        status = if is_zero answer.0 then answer.1 else none;
        health = show_health health;
        history = map show_sample history;
        action_result = shown (delivered g.pending);
        timeline = none;
      } in
      ((ser_start, frame), record g { rng = r5; pending = taken g.pending })

  -- The second reading, and the timeline.
  unfoldable pub end_frame : Tick → Frame F → Gui C W F → Frame F × Gui C W F
  unfolding stamp
  end_frame ser_start frame g =
      let (ser_end, r) = read_counter lib g.rng in
      let timeline =
        stamp (is_there frame.action_result) g.time_base ser_start ser_end g.timeline in
      (
        record frame { timeline = if timeline.valid then some (show_timeline timeline) else none },
        record g { rng = r; timeline = timeline },
      )

  -- With the steps that worker threads do between the two.
  unfoldable pub build_telemetry : Bool → List (Luck × ℕ) → Gui C W F → Frame F × Gui C W F
  unfolding begin_frame end_frame
  build_telemetry lock_busy between g =
      let ((ser_start, frame), g1) = begin_frame lock_busy g in
      end_frame ser_start frame (go_all lib between g1)
