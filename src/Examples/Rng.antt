-- ===== src/Examples/Rng.antt =====
-- A library that answers every read with sixteen zero bytes at most, and puts a collector with a higher
-- rate in the place of the one that it reads from.
use jitterentropy_analysis_d.Prelude.{
  zero, suc, ℕ, ◌+◌, ◌*◌, ◌-◌, ◌≤◌, min, true, false, Option, none, some, List, [], ◌∷◌, ◌++◌, ◌≡◌,
  ◌∙◌, refl, ◌↔◌, ap, arith, length, replicate, length-replicate, ◌==◌,
}
use jitterentropy_analysis_d.Prelude.Int.{pos_part, pos, negsuc}
use jitterentropy_analysis_d.Double.{whole}
use jitterentropy_analysis_d.Monitor.{blank_monitor}
use jitterentropy_analysis_d.Monitor.Counters.{Counted}
use jitterentropy_analysis_d.Library.{Read, Library}
use jitterentropy_analysis_d.Rng.{
  Settings, settings_defaults, Rng, Call, configure, init, get_bytes, get_random_bytes, run_calls,
}
use jitterentropy_analysis_d.Rng.Journal.{Journal, recorded, log_of, recorded-Journal}
use jitterentropy_analysis_d.Rng.Octets.{PutsBytes}
use jitterentropy_analysis_d.Stats.Histogram.Counts.{AreBytes}
use jitterentropy_analysis_d.Rng.Rounds.{Delivers, Answers}
use jitterentropy_analysis_d.Rng.Reading.{get_random_bytes_lem}
use jitterentropy_analysis_d.Benchmark.{run_benchmark}
use jitterentropy_analysis_d.Benchmark.Outcome.{run_benchmark_lem}
use jitterentropy_analysis_d.Rng.Allocated.{Descends, StaysNone, InUse}
use jitterentropy_analysis_d.Rng.Valid.{run_calls_lem}
use jitterentropy_analysis_d.Rng.Initialized.{Remains, Agrees, run_calls-Agrees}

-- A collector is its rate and flags, the world a clock, beside the log.
abbrev pub Collector : Type 0
Collector = ℕ × ℕ

abbrev pub read_zeros : Option Collector → ℕ → ℕ → Read Collector × ℕ
read_zeros none n w = (record { ret = negsuc 0; bytes = []; collector_left = none; alarms = [] }, w)
read_zeros (some c) n w = (
  record {
    ret = pos (min n 16);
    bytes = replicate (min n 16) 0;
    collector_left = some (c.0 + 1, c.1);
    alarms = [];
  },
  w + 1,
)

abbrev pub World : Type 0
World = ℕ × List ℕ

abbrev pub outset : World
outset = (0, [])

abbrev pub unrecorded : Library Collector ℕ
unrecorded = record {
  entropy_init_ex = λ osr flags w. (pos 0, w);
  collector_alloc = λ osr flags w. (some (osr, flags), w);
  read_entropy_safe = read_zeros;
  collector_free = λ c w. w;
  status = λ c n w. ((negsuc 0, none), w);
  version = 3070000;
  now = λ w. (record { counter = w; frequency = 1 }, w + 1);
}

abbrev pub zeros : Library Collector World
zeros = recorded unrecorded

abbrev pub zeros-Journal : Journal zeros log_of
zeros-Journal = recorded-Journal unrecorded

abbrev pub zeros-StaysNone : StaysNone zeros
zeros-StaysNone n w = refl

abbrev pub zeros-Delivers : Delivers zeros
zeros-Delivers none n w k e = cc
zeros-Delivers (some c) n w k e =
    let k_is : min n 16 ≡ k = ap pos_part e in (omega arith, length-replicate (min n 16) 0 ∙ k_is)

abbrev pub zeros-Answers : Answers zeros
zeros-Answers c n w h = (min n 16 - 1, (c.0 + 1, c.1), ap pos (omega arith), refl)

replicate-AreBytes : (n : ℕ) → AreBytes (replicate n 0)
replicate-AreBytes zero = tt
replicate-AreBytes (suc n) = (omega arith, replicate-AreBytes n)

pub zeros-PutsBytes : PutsBytes zeros
zeros-PutsBytes none n w = tt
zeros-PutsBytes (some c) n w = replicate-AreBytes (min n 16)

abbrev pub before : Rng Collector World ℕ
before = record {
  collector = none;
  self_test_complete = false;
  settings = settings_defaults;
  callback_set = false;
  monitor = blank_monitor;
  world = outset;
}

abbrev pub running : Rng Collector World ℕ
running = record before { collector = some (0, 0); self_test_complete = true }

get_random_bytes_lem_example :
    let (code, written, after) = get_random_bytes zeros true 40 running in
    (log_of after.world ≡ log_of running.world ++ written)
    × (length written ≤ 40)
    × ((code ≡ pos 0) ↔ (length written ≡ 40))
    × Counted (length written) (length written == 40) running.monitor after.monitor
get_random_bytes_lem_example =
    get_random_bytes_lem zeros log_of 40 running (0, 0) zeros-Delivers zeros-Journal (omega arith)
      refl

abbrev fips : Settings
fips = record settings_defaults { force_fips = true }

abbrev session : List Call
session = configure (some fips) ∷ init ∷ get_bytes true 40 ∷ configure none ∷ []

run_calls_lem_example :
    let s = run_calls zeros session before in InUse zeros (Descends zeros) s.settings s.collector
run_calls_lem_example = run_calls_lem zeros session before zeros-StaysNone refl refl

abbrev pub zeros-Remains : Remains zeros
zeros-Remains c n w = refl

run_calls-Agrees_example : Agrees (run_calls zeros session before)
run_calls-Agrees_example = run_calls-Agrees zeros session before zeros-Remains refl

-- Three calls of 40 bytes each.
run_benchmark_lem_example :
    let f = run_benchmark zeros true (λ i. false) 40 (pos 3) before in
    ((f.code ≡ pos 0) ↔ (f.out.completed_iterations ≡ 3))
    × (f.out.completed_iterations ≤ 3)
    × (f.out.total_bytes ≡ 40 * f.out.completed_iterations)
    × (f.rng.collector ≡ none)
run_benchmark_lem_example =
    run_benchmark_lem zeros (λ i. false) 40 3 before (omega arith) (omega arith) (omega arith)
