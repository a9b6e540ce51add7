-- ===== src/Gui/State.antt =====
-- The static variables of app/main_gui.cpp, and the functions that write them. Each holds its lock from
-- its first access to its last, or is one interlocked operation, and so is one step.
pub mod Sums
use jitterentropy_analysis_d.Prelude.{
  ℕ, ◌+◌, ◌^◌, ◌%◌, Bool, true, false, Option, none, some, List, [], ◌∷◌, if◌then◌else◌, drop, u64,
  replicate,
}
use jitterentropy_analysis_d.Prelude.Int.{ℤ, pos, negsuc, sub_ℕ}
use jitterentropy_analysis_d.Double.{Double, lit, ◌⊘◌}
use jitterentropy_analysis_d.Monitor.{Tick}
use jitterentropy_analysis_d.Library.{err_alloc_failed}
use jitterentropy_analysis_d.Rng.{Settings, Rng}
use jitterentropy_analysis_d.Stats.Histogram.{Histogram, bins}
use jitterentropy_analysis_d.Stats.Report.{Report}
use jitterentropy_analysis_d.Bridge.Text.{Bytes}

-- `RNG_ERR_BUSY`: -1007
abbrev pub err_busy : ℤ
err_busy = negsuc 1006

abbrev pub max_generate_bytes : ℕ
max_generate_bytes = 65536

abbrev pub max_bench_bytes : ℕ
max_bench_bytes = 65536

abbrev pub max_bench_iterations : ℕ
max_bench_iterations = 100000

-- `WorkerResultPayload`. `stats` is there exactly if `has_entropy_stats` is true.
pub record Payload (F : Type 0) : Type 0 where
  pub valid : Bool
  pub action : Bytes
  pub status : ℤ
  pub bytes : ℕ
  pub iterations : ℕ
  pub duration : F
  pub init_seconds : F
  pub hex_data : Bytes
  pub stats : Option (Report F)

-- `StageTiming`
pub record Stage (F : Type 0) : Type 0 where
  pub start_seconds : F
  pub duration_seconds : F

-- `TimelineMetrics`
pub record Timeline (F : Type 0) : Type 0 where
  pub valid : Bool
  pub serialization_pending : Bool
  pub request : Stage F
  pub entropy : Stage F
  pub processing : Stage F
  pub serialization : Stage F

-- `GenerateWorkerArgs` and `BenchmarkWorkerArgs`
pub data Job : Type 0 where
  generating : ℕ → Job
  measuring : ℕ → ℕ → Job

-- The six readings of the counter that a worker takes.
pub record Marks : Type 0 where
  pub req_start : Tick
  pub req_end : Tick
  pub ent_start : Tick
  pub ent_end : Tick
  pub proc_start : Tick
  pub proc_end : Tick

-- Where a worker thread is: before its body, behind the work, behind `RecordTimeline`, behind the
-- publication of its result, behind the reset of `g_rng_busy`, or at its end.
pub data Phase (F : Type 0) : Type 0 where
  started : Job → Phase F
  computed : Payload F → Marks → Phase F
  recorded : Payload F → Phase F
  published leaving ended : Phase F

-- The variables. `threads` are the workers whose handles have not been closed, newest first, and
-- `handle` says that `g_worker_thread` is not null: it is the handle of the newest. `time_base` is
-- `g_qpc_process_start` with `g_qpc_frequency`.
pub record Gui (C W F : Type 0) : Type 0 where
  pub rng : Rng C W F
  pub busy : Bool
  pub cancel : Bool
  pub handle : Bool
  pub threads : List (Phase F)
  pub pending : Payload F
  pub session : Histogram
  pub ui_settings : Settings
  pub timeline : Timeline F
  pub time_base : Tick

-- `entropy_histogram()`
abbrev pub no_bytes : Histogram
no_bytes = record { counts = replicate bins 0; total = 0 }

module _ {F : Type 0} ⦃d : Double F⦄ where
  -- `QpcToProcessSeconds`; `main` has set the base before all else.
  abbrev pub qpc_to_process_seconds : Tick → Tick → F
  qpc_to_process_seconds base t = d.of_int (sub_ℕ t.counter base.counter) ⊘ d.of_nat base.frequency

  -- `QpcElapsedSeconds`
  abbrev pub elapsed : Tick → Tick → Tick → F
  elapsed base start end_ = d.of_int (sub_ℕ end_.counter start.counter) ⊘ d.of_nat base.frequency

  abbrev pub stage : Tick → Tick → Tick → Stage F
  stage base start end_ = record {
    start_seconds = qpc_to_process_seconds base start;
    duration_seconds = elapsed base start end_;
  }

  -- The result that `PublishRejection` writes.
  abbrev pub rejection : Bytes → ℤ → Payload F → Payload F
  rejection action status old = record old {
    valid = true;
    action = action;
    status = status;
    bytes = 0;
    iterations = 0;
    duration = lit 0;
    init_seconds = lit 0;
    hex_data = [];
    stats = none;
  }

module _ {C W F : Type 0} ⦃d : Double F⦄ where
  -- `PublishRejection`
  unfoldable pub publish_rejection : Bytes → ℤ → Gui C W F → Gui C W F
  publish_rejection action status g = record g {
    pending = if g.pending.valid then g.pending else rejection action status g.pending;
  }

  -- `ReapWorkerHandle`: its result, and the state left. `in_time` says that the thread of the handle
  -- has ended when the wait does.
  unfoldable pub reap_worker_handle : Bool → Gui C W F → Bool × Gui C W F
  reap_worker_handle in_time g =
      if g.handle
      then if in_time
        then (true, record g { handle = false; threads = drop 1 g.threads })
        else (false, g)
      else (true, g)

  -- `TryAdmitJob`
  unfoldable pub try_admit_job : Bool → Bytes → Gui C W F → Bool × Gui C W F
  unfolding publish_rejection reap_worker_handle
  try_admit_job in_time action g =
      let (ok, g1) = reap_worker_handle in_time (record g { busy = true }) in
      if g.busy
      then (false, publish_rejection action err_busy g)
      else if ok
      then (true, record g1 { cancel = false })
      else (false, publish_rejection action err_busy (record g1 { busy = false }))

  -- `PublishWorkerStartFailure`
  unfoldable pub publish_worker_start_failure : Bytes → ℕ → ℕ → Gui C W F → Gui C W F
  publish_worker_start_failure action bytes iterations g = record g {
    pending = record (rejection action err_alloc_failed g.pending) {
      bytes = bytes;
      iterations = iterations;
    };
    busy = false;
  }

  -- `RecordTimeline`
  unfoldable pub record_timeline : Marks → Gui C W F → Gui C W F
  record_timeline m g = record g {
    timeline = record {
      valid = true;
      serialization_pending = true;
      request = stage g.time_base m.req_start m.req_end;
      entropy = stage g.time_base m.ent_start m.ent_end;
      processing = stage g.time_base m.proc_start m.proc_end;
      serialization = record { start_seconds = lit 0; duration_seconds = lit 0 };
    };
  }

-- The loop `g_session_hist.counts[i] += stats.histogram[i]`.
pub add_counts : List ℕ → List ℕ → List ℕ
add_counts [] more = []
add_counts (c ∷ counts) [] = c ∷ counts
add_counts (c ∷ counts) (m ∷ more) = u64 (c + m) ∷ add_counts counts more

module _ {F : Type 0} where
  -- What a result adds to the histogram of the session.
  pub add_to_session : Option (Report F) → Histogram → Histogram
  unfolding add_counts
  add_to_session none h = h
  add_to_session (some r) h = record {
    counts = add_counts h.counts r.counts;
    total = u64 (h.total + r.byte_count);
  }
