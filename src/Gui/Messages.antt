-- ===== src/Gui/Messages.antt =====
-- `WebMessageReceivedHandler::Invoke`: what the messages of the page do. The text is the UTF-8 of the
-- message, and all runs on the thread of the window.
pub mod Ranges
pub mod Busy
pub mod Cancel
pub mod Waiting
use jitterentropy_analysis_d.Prelude.{ℕ, Bool, true, false, Option, none, some, ◌||◌, if◌then◌else◌}
use jitterentropy_analysis_d.Prelude.Int.{ℤ, pos, pos_part}
use jitterentropy_analysis_d.Double.{Double}
use jitterentropy_analysis_d.Monitor.{clear_history}
use jitterentropy_analysis_d.Library.{Library, err_invalid_argument}
use jitterentropy_analysis_d.Rng.{
  Settings, monitored, shutdown_rng, rng_configure, rng_get_settings,
}
use jitterentropy_analysis_d.Benchmark.{is_zero}
use jitterentropy_analysis_d.Bridge.Text.{Bytes}
use jitterentropy_analysis_d.Bridge.Object.{Object, equal, parse_flat_object}
use jitterentropy_analysis_d.Bridge.Getters.{
  GetResult, ok, missing, invalid, codes, get_string, get_bool, get_int,
}
use jitterentropy_analysis_d.Gui.State.{
  Gui, Job, generating, measuring, err_busy, max_generate_bytes, max_bench_bytes,
  max_bench_iterations, no_bytes, publish_rejection,
}
use jitterentropy_analysis_d.Gui.Threads.{start_job}

-- What `out` holds behind a getter that has not failed: `none` is `kInvalid`.
unfoldable pub or_default {ℓ} : {A : Type ℓ} → A → GetResult A → Option A
or_default old (ok v) = some v
or_default old missing = some old
or_default old invalid = none

-- The job of a "generate" message, if its fields are in range.
unfoldable pub generate_job : Object → Option Job
unfolding or_default
generate_job o =
    elim (or_default (pos 32) (get_int o (codes "bytes") (pos 1) (pos max_generate_bytes))) [
      | none ↦ none
      | some n ↦ some (generating (pos_part n))
    ]

-- The job of a "benchmark" message.
unfoldable pub benchmark_job : Object → Option Job
unfolding or_default
benchmark_job o =
    elim (or_default (pos 1024) (get_int o (codes "bytesPerCall") (pos 1) (pos max_bench_bytes))) [
      | none ↦ none
      | some n ↦
          elim (or_default (pos 100)
            (get_int o (codes "iterations") (pos 1) (pos max_bench_iterations))) [
              | none ↦ none
              | some k ↦ some (measuring (pos_part n) (pos_part k))
            ]
    ]

-- The settings of a "configure" message: the fields that are there replace the old ones.
pub read_settings : Object → Settings → Option Settings
unfolding or_default
read_settings o s = elim (or_default (pos s.osr) (get_int o (codes "osr") (pos 0) (pos 65535))) [
  | none ↦ none
  | some osr ↦ elim (or_default s.force_fips (get_bool o (codes "forceFips"))) [
    | none ↦ none
    | some fips ↦ elim (or_default s.ntg1 (get_bool o (codes "ntg1"))) [
      | none ↦ none
      | some ntg1 ↦
          elim (or_default s.disable_memory_access (get_bool o (codes "disableMemoryAccess"))) [
            | none ↦ none
            | some no_memory ↦ some record {
              osr = pos_part osr;
              force_fips = fips;
              ntg1 = ntg1;
              disable_memory_access = no_memory;
            }
          ]
    ]
  ]
]

-- The messages, by their action.
pub data Action : Type 0 where
  generate benchmark cancel_benchmark clear configure unknown : Action

unfoldable pub action_named : Bytes → Action
action_named a =
    if equal a (codes "generate")
    then generate
    else if equal a (codes "benchmark")
    then benchmark
    else if equal a (codes "cancelBenchmark")
    then cancel_benchmark
    else if equal a (codes "clearHistory")
    then clear
    else if equal a (codes "configure")
    then configure
    else unknown

-- The action of a text, with its fields; a malformed one is ignored.
unfoldable pub action_in : Bytes → Option (Action × Object)
unfolding action_named
action_in json = elim (parse_flat_object json) [
  | none ↦ none
  | some o ↦ elim (get_string o (codes "action")) [
    | ok a ↦ some (action_named a, o)
    | missing ↦ none
    | invalid ↦ none
  ]
]

module _ {C W F : Type 0} ⦃d : Double F⦄ where
  -- A message of the kinds that start a job.
  unfoldable pub request_job : Bool → Bool → Bytes → Option Job → Gui C W F → Gui C W F
  unfolding publish_rejection start_job
  request_job in_time created action none g = publish_rejection action err_invalid_argument g
  request_job in_time created action (some job) g = start_job in_time created job g

module _ {C W F : Type 0} ⦃d : Double F⦄ (lib : Library C W) where
  -- "clearHistory"
  unfoldable pub clear_all : Gui C W F → Gui C W F
  clear_all g = record g {
    rng = monitored lib clear_history g.rng;
    session = no_bytes;
    timeline = record (g.timeline) { valid = false };
  }

  -- "configure" with the settings read: no worker runs.
  unfoldable pub apply_settings : Settings → Gui C W F → Gui C W F
  unfolding publish_rejection
  apply_settings s g =
      let (cfg, rng) = rng_configure (some s) (shutdown_rng lib g.rng) in
      let g1 = record g { rng = rng } in
      publish_rejection (codes "configure") cfg
        (if is_zero cfg then record g1 { ui_settings = s; session = no_bytes } else g1)

  unfoldable pub reconfigure : Object → Gui C W F → Gui C W F
  unfolding apply_settings publish_rejection
  reconfigure o g =
      if g.busy
      then publish_rejection (codes "configure") err_busy g
      else elim (read_settings o (rng_get_settings g.rng)) [
        | none ↦ publish_rejection (codes "configure") err_invalid_argument g
        | some s ↦ apply_settings s g
      ]

  unfoldable pub act : Bool → Bool → Action → Object → Gui C W F → Gui C W F
  unfolding request_job clear_all reconfigure
  act in_time created generate o g =
      request_job in_time created (codes "generate") (generate_job o) g
  act in_time created benchmark o g =
      request_job in_time created (codes "benchmark") (benchmark_job o) g
  act in_time created cancel_benchmark o g = record g { cancel = g.busy || g.cancel }
  act in_time created clear o g = clear_all g
  act in_time created configure o g = reconfigure o g
  act in_time created unknown o g = g

  -- `Invoke`
  unfoldable pub invoke : Bool → Bool → Bytes → Gui C W F → Gui C W F
  unfolding act
  invoke in_time created json g = elim (action_in json) [
    | none ↦ g
    | some (a, o) ↦ act in_time created a o g
  ]
