-- ===== src/Cli/Run/Shows.antt =====
-- A run shows all the bytes that it is asked for, or nothing.
use jitterentropy_analysis_d.Prelude.{
  ℕ, ◌<◌, Bool, true, false, some, List, [], ◌++◌, ap, subst, ◌∙◌, ◌≡◌, ◌≢◌, ◌⊎◌, inl, inr, refl,
  arith, length, if-elim, if-cases, ◌==◌, not,
}
use jitterentropy_analysis_d.Double.{Double}
use jitterentropy_analysis_d.Library.{Library}
use jitterentropy_analysis_d.Rng.{Rng, rng_configure, init_rng, get_random_bytes}
use jitterentropy_analysis_d.Rng.Rounds.{Delivers}
use jitterentropy_analysis_d.Rng.Reading.{get_random_bytes_zero}
use jitterentropy_analysis_d.Rng.Octets.{PutsBytes, get_random_bytes-AreBytes}
use jitterentropy_analysis_d.Benchmark.{is_zero}
use jitterentropy_analysis_d.Benchmark.Outcome.{is_zero_lem}
use jitterentropy_analysis_d.Rng.Journal.{
  Journal, configure-log, get_random_bytes-log, init_rng-log,
}
use jitterentropy_analysis_d.Bridge.Text.{Bytes}
use jitterentropy_analysis_d.Cli.Args.{Options, go, default_options, parse_args}
use jitterentropy_analysis_d.Cli.Errors.Told.{message-ne}
use jitterentropy_analysis_d.Cli.Run.{
  Surroundings, Outcome, untouched, generate_and_deliver, run_main, run_parsed, program,
}
use jitterentropy_analysis_d.Cli.Run.Delivered.{Sample, Delivered, deliver-Sample, deliver-log}

not-false : (b : Bool) → not b ≡ false → b ≡ true
not-false true h = refl
not-false false h = cc

-- A run that fails before it has anything to show, and says why.
abbrev pub Quiet : {C W F : Type 0} → Outcome C W F → Type 0
Quiet e = (e.code ≢ 0) × (e.out ≡ []) × (e.err ≢ []) × (e.file ≡ untouched)

module _ {C W F : Type 0} ⦃d : Double F⦄ (fixed : ℕ → ℕ → F → Bytes) (lib : Library C W) where
  abbrev Shown : (W → List ℕ) → Surroundings → Options → Rng C W F → Outcome C W F → Type 0
  Shown log around o r e = Quiet e ⊎ Delivered fixed lib log around o r e

  generate-Shown :
      (log : W → List ℕ) (around : Surroundings) (o : Options) (r : Rng C W F)
      → Delivers lib
      → PutsBytes lib
      → Journal lib log
      → 0 < o.random_byte_count
      → Shown log around o r (generate_and_deliver fixed lib around o r)
  unfolding generate_and_deliver
  generate-Shown log around o r delivers puts j some_bytes =
      let r1 = (init_rng lib r).1 in
      let got = get_random_bytes lib true o.random_byte_count r1 in
      if-elim (Shown log around o r) (not (is_zero (init_rng lib r).0))
        (inl (λ z. cc, refl, message-ne _, refl))
        (if-cases (Shown log around o r) (not (is_zero got.0))
          (λ z. inl (λ z. cc, refl, message-ne _, refl))
          (λ z. inr (
            got.1,
            deliver-Sample fixed lib around o got.1 got.2
                (get_random_bytes-AreBytes lib o.random_byte_count r1 puts)
                (get_random_bytes_zero lib o.random_byte_count r1 delivers some_bytes
                  (is_zero_lem got.0 (not-false (is_zero got.0) z))),
            deliver-log fixed lib log around o got.1 got.2 j
                ∙ get_random_bytes-log lib log j true o.random_byte_count r1
                ∙ ap (λ l. l ++ got.1) (init_rng-log lib log j r),
          )))

  -- Where a read's positive result counts the bytes it delivers, each less than 256, `log` keeps the
  -- bytes that the reads give, in order, and the arguments ask for no benchmark: whatever the state, the memory, the disk and the answer to the prompt, the
  -- program either fails with a message, prints nothing on its standard output and leaves the file
  -- alone; or its output starts with the bytes that are appended to the log, exactly as many as asked
  -- for, in hexadecimal, it exits with 0
  -- exactly if no file is wanted or the disk takes it, there is a message exactly if it does not, and
  -- the file holds the same bytes if it does and the file is wanted.
  pub program_shows :
      (log : W → List ℕ) (around : Surroundings) (args : List Bytes) (o : Options) (r : Rng C W F)
      → parse_args (length args) args default_options ≡ go o
      → o.run_benchmark_mode ≡ false
      → Delivers lib
      → PutsBytes lib
      → Journal lib log
      → let e = program fixed lib around args r in Quiet e ⊎ Delivered fixed lib log around o r e
  unfolding program run_parsed run_main
  program_shows log around args o r e b delivers puts j =
      let (configured, r0) = rng_configure (some o.settings) r in
      let P : Outcome C W F → Type 0 = Shown log around o r in
      let made = generate_and_deliver fixed lib around o r0 in
      let same = configure-log lib log j (some o.settings) r in
      rw (e, program)
        (if-elim P (not (is_zero configured)) (inl (λ z. cc, refl, message-ne _, refl)) (
          if-cases P o.run_benchmark_mode (λ t. absurd (cc (b, t)))
            (λ f.
              if-cases P (o.random_byte_count == 0) (λ z. inl (λ z. cc, refl, message-ne _, refl))
                (λ z. if-elim P (not around.allocated) (inl (λ z. cc, refl, message-ne _, refl)) (
                  subst
                    (λ l.
                      Quiet made
                      ⊎ ((bytes : List ℕ) × Sample around o bytes made
                          × (log made.rng.world ≡ l ++ bytes)))
                    same (generate-Shown log around o r0 delivers puts j (ground (arith, z))))))))
