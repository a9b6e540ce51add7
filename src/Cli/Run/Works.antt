-- ===== src/Cli/Run/Works.antt =====
-- A run of the program with a library that works.
use jitterentropy_analysis_d.Prelude.{
  ℕ, ◌<◌, true, false, none, some, List, ◌++◌, ◌≡◌, arith, length, ◌==◌, not, ap, ◌∙◌, if_false,
}
use jitterentropy_analysis_d.Double.{Double}
use jitterentropy_analysis_d.Library.{Library}
use jitterentropy_analysis_d.Rng.{Rng, init_rng, get_random_bytes}
use jitterentropy_analysis_d.Rng.Started.{Starts, init_rng_works}
use jitterentropy_analysis_d.Rng.Release.{rng_configure_idle}
use jitterentropy_analysis_d.Rng.Rounds.{Delivers, Answers}
use jitterentropy_analysis_d.Rng.Reading.{get_random_bytes_full}
use jitterentropy_analysis_d.Rng.Octets.{PutsBytes, get_random_bytes-AreBytes}
use jitterentropy_analysis_d.Rng.Journal.{Journal, get_random_bytes-log, init_rng-log}
use jitterentropy_analysis_d.Bridge.Text.{Bytes}
use jitterentropy_analysis_d.Cli.Args.{Options, go, default_options, parse_args}
use jitterentropy_analysis_d.Cli.Run.{
  Surroundings, generate_and_deliver, run_main, run_parsed, program,
}
use jitterentropy_analysis_d.Cli.Run.Delivered.{Delivered, deliver-Sample, deliver-log}

module _ {C W F : Type 0} ⦃d : Double F⦄ (fixed : ℕ → ℕ → F → Bytes) (lib : Library C W) where
  generate-Sample :
      (log : W → List ℕ) (around : Surroundings) (o : Options) (r : Rng C W F)
      → Starts lib
      → Delivers lib
      → Answers lib
      → PutsBytes lib
      → Journal lib log
      → r.collector ≡ none
      → 0 < o.random_byte_count
      → Delivered fixed lib log around o r (generate_and_deliver fixed lib around o r)
  unfolding generate_and_deliver
  generate-Sample log around o r starts delivers answers puts j idle some_bytes =
      let made = init_rng lib r in
      let got = get_random_bytes lib true o.random_byte_count made.1 in
      let (started, (c, held)) = init_rng_works lib r starts idle in
      let (done, full) =
        get_random_bytes_full lib o.random_byte_count made.1 c delivers answers some_bytes held in
      rw (started, made.0, done, got.0)
        (
          got.1,
          deliver-Sample fixed lib around o got.1 got.2
              (get_random_bytes-AreBytes lib o.random_byte_count made.1 puts) full,
          deliver-log fixed lib log around o got.1 got.2 j
              ∙ get_random_bytes-log lib log j true o.random_byte_count made.1
              ∙ ap (λ l. l ++ got.1) (init_rng-log lib log j r),
        )

  run_main-generate :
      (around : Surroundings) (o : Options) (r : Rng C W F)
      → o.run_benchmark_mode ≡ false
      → 0 < o.random_byte_count
      → around.allocated ≡ true
      → r.collector ≡ none
      → run_main fixed lib around o r
        ≡ generate_and_deliver fixed lib around o
            (record r { settings = o.settings; self_test_complete = false })
  unfolding run_main
  run_main-generate around o r b some_bytes allocated idle =
      let positive : (o.random_byte_count == 0) ≡ false = ground arith in
      rw (rng_configure_idle (some o.settings) r idle) (
        if_false o.run_benchmark_mode _ _ b
        ∙ if_false (o.random_byte_count == 0) _ _ positive
        ∙ if_false (not around.allocated) _ _ (ap not allocated))

  -- With a library whose self-test passes, that allocates a collector, and whose every read for a byte
  -- or more keeps the collector, delivers one byte or more but none too many, each less than 256, and
  -- returns their number, and with memory for the buffer, where `log` keeps the bytes that the
  -- reads give, in order: arguments that ask for one byte or more and
  -- for no benchmark make the program, started without a collector, print the bytes that are appended to the log, exactly as many as asked for, in hexadecimal,
  -- and exit with 0 exactly if no file is wanted or the disk takes it; there is a message exactly if it
  -- does not, and the file holds the same bytes if it does and the file is wanted.
  pub program_works :
      (log : W → List ℕ) (around : Surroundings) (args : List Bytes) (o : Options) (r : Rng C W F)
      → parse_args (length args) args default_options ≡ go o
      → o.run_benchmark_mode ≡ false
      → 0 < o.random_byte_count
      → around.allocated ≡ true
      → r.collector ≡ none
      → Starts lib
      → Delivers lib
      → Answers lib
      → PutsBytes lib
      → Journal lib log
      → Delivered fixed lib log around o r (program fixed lib around args r)
  unfolding program run_parsed
  program_works log around args o r e b some_bytes allocated idle starts delivers answers puts j =
      let fresh = record r { settings = o.settings; self_test_complete = false } in
      rw (e, program, run_main-generate around o r b some_bytes allocated idle)
        (generate-Sample log around o fresh starts delivers answers puts j idle some_bytes)
