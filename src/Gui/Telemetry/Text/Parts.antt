-- ===== src/Gui/Telemetry/Text/Parts.antt =====
-- The document of a frame: the names and the order of what `BuildTelemetryJson` writes.
use jitterentropy_analysis_d.Prelude.{ℕ, Option, none, some, List, ◌∷◌, ◌++◌, map, length}
use jitterentropy_analysis_d.Monitor.{HealthStats, HistorySample}
use jitterentropy_analysis_d.Rng.{Settings}
use jitterentropy_analysis_d.Stats.Histogram.{ChiSquare}
use jitterentropy_analysis_d.Stats.Rct.{RctResult}
use jitterentropy_analysis_d.Stats.Apt.{AptResult}
use jitterentropy_analysis_d.Stats.Report.{Report}
use jitterentropy_analysis_d.Bridge.Text.{Bytes}
use jitterentropy_analysis_d.Bridge.Getters.{codes}
use jitterentropy_analysis_d.Print.{decimal}
use jitterentropy_analysis_d.Gui.State.{Payload, Stage, Timeline}
use jitterentropy_analysis_d.Gui.Telemetry.{Session, Frame}
use jitterentropy_analysis_d.Gui.Telemetry.Text.{
  inline, block, Doc, natural, integer, real, truth, letters, null, spliced, naturals, reals,
  object, last, next, doc_text,
}

-- `JsonEscape` leaves digits and points as they are.
abbrev pub version_text : ℕ × ℕ × ℕ → Bytes
version_text (major, minor, patch) =
    decimal major ++ (b'.' ∷ (decimal minor ++ (b'.' ∷ decimal patch)))

-- The parts of a frame.
module _ {F : Type 0} where
  abbrev pub settings_doc : Settings → Doc F
  settings_doc s = object inline (
      next (codes "osr") (natural s.osr) (
        next (codes "forceFips") (truth s.force_fips) (
          next (codes "ntg1") (truth s.ntg1)
            (last (codes "disableMemoryAccess") (truth s.disable_memory_access)))))

  abbrev pub chi_doc : ChiSquare F → Doc F
  chi_doc c =
      object inline
        (next (codes "statistic") (real c.statistic) (last (codes "pValue") (real c.p_value)))

  abbrev pub session_doc : Session F → Doc F
  session_doc s = object (block 4) (
      next (codes "byteCount") (natural s.byte_count) (
        next (codes "shannonBitsPerByte") (real s.shannon_bits) (
          next (codes "minEntropyBitsPerByte") (real s.min_entropy_bits) (
            next (codes "chiSquare") (chi_doc s.chi)
              (last (codes "histogram") (naturals s.counts))))))

  abbrev pub rct_doc : RctResult → Doc F
  rct_doc r = object inline (
      next (codes "cutoff") (natural r.cutoff)
        (next (codes "maxRun") (natural r.max_run) (last (codes "passed") (truth r.passed))))

  abbrev pub apt_doc : AptResult → Doc F
  apt_doc r = object inline (
      next (codes "windowSize") (natural r.window_size) (
        next (codes "cutoff") (natural r.cutoff) (
          next (codes "windowsTested") (natural r.windows_tested) (
            next (codes "windowsFailed") (natural r.windows_failed)
              (last (codes "passed") (truth r.passed))))))

  abbrev pub jitter_health_doc : Frame F → Doc F
  jitter_health_doc f = object (block 4) (
      next (codes "sampleCount") (natural f.sample_count)
        (next (codes "rct") (rct_doc f.rct_shown) (last (codes "apt") (apt_doc f.apt_shown))))

  abbrev pub status_doc : Option Bytes → Doc F
  status_doc none = null
  status_doc (some t) = spliced t

  abbrev pub library_doc : Frame F → Doc F
  library_doc f = object (block 4) (
      next (codes "version") (letters (version_text f.version))
        (last (codes "status") (status_doc f.status)))

  abbrev pub health_doc : HealthStats F → Doc F
  health_doc s = object (block 4) (
      next (codes "initialized") (truth s.initialized) (
        next (codes "total_bytes_generated") (natural s.total_bytes_generated) (
          next (codes "generation_call_count") (natural s.generation_call_count) (
            next (codes "failure_count") (natural s.failure_count) (
              next (codes "last_error_code") (integer s.last_error_code) (
                next (codes "cumulative_generation_seconds") (real s.cumulative_generation_seconds)
                  (next (codes "average_latency_seconds") (real s.average_latency_seconds) (
                    next (codes "throughput_bytes_per_second") (real s.throughput_bytes_per_second)
                      (next (codes "fips_failure_count") (natural s.fips_failure_count) (
                        last (codes "last_fips_failure_mask")
                          (natural s.last_fips_failure_mask)))))))))))

  abbrev pub history_doc : List (HistorySample F) → Doc F
  history_doc samples = object (block 4) (
      next (codes "count") (natural (length samples)) (
        next (codes "timestamps") (reals (map (λ s. s.timestamp_seconds) samples)) (
          next (codes "bytes") (naturals (map (λ s. s.byte_count) samples))
            (last (codes "durations") (reals (map (λ s. s.duration_seconds) samples))))))

  abbrev pub report_doc : Option (Report F) → Doc F
  report_doc none = null
  report_doc (some r) = object (block 6) (
      next (codes "byteCount") (natural r.byte_count) (
        next (codes "shannonBitsPerByte") (real r.shannon_bits_per_byte) (
          next (codes "minEntropyBitsPerByte") (real r.min_entropy_bits_per_byte) (
            next (codes "chiSquare") (chi_doc r.chi_square_result) (
              next (codes "monobit")
                (object inline (
                  next (codes "pValue") (real r.monobit_result.p_value) (
                    next (codes "ones") (natural r.monobit_result.ones)
                      (last (codes "bitTotal") (natural r.monobit_result.bit_total)))))
                (next (codes "serialCorrelation") (real r.correlation) (
                  next (codes "runs")
                    (object inline (
                      next (codes "applicable") (truth r.runs_result.applicable) (
                        next (codes "pValue") (real r.runs_result.p_value)
                          (last (codes "observedRuns") (natural r.runs_result.observed_runs)))))
                    (last (codes "histogram") (naturals r.counts)))))))))

  abbrev pub result_doc : Option (Payload F) → Doc F
  result_doc none = null
  result_doc (some p) = object (block 4) (
      next (codes "action") (letters p.action) (
        next (codes "status") (integer p.status) (
          next (codes "bytes") (natural p.bytes) (
            next (codes "iterations") (natural p.iterations) (
              next (codes "duration") (real p.duration) (
                next (codes "initSeconds") (real p.init_seconds) (
                  next (codes "hex") (letters p.hex_data)
                    (last (codes "entropyStats") (report_doc p.stats)))))))))

  abbrev pub stage_doc : Stage F → Doc F
  stage_doc s = object inline (
      next (codes "start") (real s.start_seconds)
        (last (codes "duration") (real s.duration_seconds)))

  abbrev pub timeline_doc : Option (Timeline F) → Doc F
  timeline_doc none = null
  timeline_doc (some t) = object (block 4) (
      next (codes "serializationPending") (truth t.serialization_pending) (
        next (codes "request") (stage_doc t.request) (
          next (codes "entropy") (stage_doc t.entropy) (
            next (codes "processing") (stage_doc t.processing)
              (last (codes "serialization") (stage_doc t.serialization))))))

  abbrev pub frame_doc : Frame F → Doc F
  frame_doc f = object (block 2) (
      next (codes "type") (letters (codes "telemetry")) (
        next (codes "busy") (truth f.busy) (
          next (codes "uptime") (real f.uptime) (
            next (codes "settings") (settings_doc f.settings) (
              next (codes "session") (session_doc f.session) (
                next (codes "jitter") (reals f.jitter) (
                  next (codes "jitterHealth") (jitter_health_doc f) (
                    next (codes "library") (library_doc f) (
                      next (codes "health") (health_doc f.health) (
                        next (codes "history") (history_doc f.history) (
                          next (codes "actionResult") (result_doc f.action_result)
                            (last (codes "timeline") (timeline_doc f.timeline)))))))))))))

-- The text that `BuildTelemetryJson` returns.
unfoldable pub telemetry_text : {F : Type 0} → (F → Bytes) → Frame F → Bytes
unfolding doc_text
telemetry_text print f = doc_text print (frame_doc f)
