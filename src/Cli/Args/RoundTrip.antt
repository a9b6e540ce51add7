-- ===== src/Cli/Args/RoundTrip.antt =====
-- Options spelled as arguments, read back.
use jitterentropy_analysis_d.Prelude.{
  ℕ, suc, ◌^◌, ◌<◌, ◌≤◌, Bool, true, false, List, [], ◌∷◌, ◌≡◌, ◌⊎◌, inl, inr, refl, sym, ap, ◌∙◌,
  arith, length, ltb, if_false, if_true, if◌then◌else◌, some, none,
}
use jitterentropy_analysis_d.Print.{decimal}
use jitterentropy_analysis_d.Bridge.Text.{Bytes}
use jitterentropy_analysis_d.Bridge.Object.{equal}
use jitterentropy_analysis_d.Bridge.Getters.{codes}
use jitterentropy_analysis_d.Cli.Args.{
  Options, default_options, Parsed, go, exit, with_size, with_benchmark, parse_args,
}
use jitterentropy_analysis_d.Cli.Args.Fuel.{parse_args_fuel}
use jitterentropy_analysis_d.Cli.Args.Ranges.{InRange}
use jitterentropy_analysis_d.Cli.Args.Numerals.{
  parse_size-decimal, parse_int-decimal, is_option-decimal,
}

-- The loop with enough fuel.
abbrev parse : List Bytes → Options → Parsed
parse args o = parse_args (length args) args o

-- An argument, if it is asked for, before the rest.
abbrev pub flag : Bool → Bytes → List Bytes → List Bytes
flag b name rest = if b then name ∷ rest else rest

-- The options of a benchmark.
abbrev pub spelled_benchmark : Options → List Bytes
spelled_benchmark o =
    if o.run_benchmark_mode
    then codes "--benchmark" ∷ decimal o.benchmark_bytes ∷ decimal o.benchmark_iterations ∷ []
    else []

-- Arguments that ask for the options.
abbrev pub spelled : Options → List Bytes
spelled o =
    codes "--bytes"
    ∷ decimal o.random_byte_count
    ∷ codes "--osr"
    ∷ decimal o.settings.osr
    ∷ flag o.write_output (codes "--write") (
        flag o.prompt_write (codes "--prompt-write") (
          flag o.print_status (codes "--status") (
            flag o.print_stats (codes "--stats") (
              flag o.settings.force_fips (codes "--force-fips") (
                flag o.settings.ntg1 (codes "--ntg1") (
                  flag o.settings.disable_memory_access (codes "--no-memory-access")
                    (spelled_benchmark o)))))))

-- Without a benchmark, its numbers are the ones that the program starts with.
abbrev pub Plain : Options → Type 0
Plain o =
    (o.run_benchmark_mode ≡ true)
    ⊎ ((o.run_benchmark_mode ≡ false)
        × (o.benchmark_bytes ≡ 1024)
        × (o.benchmark_iterations ≡ 1000))

parse-flag :
    (b : Bool) (name : Bytes) (rest : List Bytes) (o : Bool → Options)
    → parse (name ∷ rest) (o false) ≡ parse rest (o true)
    → parse (flag b name rest) (o false) ≡ parse rest (o b)
parse-flag true name rest o e = e
parse-flag false name rest o e = refl

parse-bytes :
    (n : ℕ) (rest : List Bytes) (o : Options)
    → n < 2 ^ 64
    → parse (codes "--bytes" ∷ decimal n ∷ rest) o ≡ parse rest (record o { random_byte_count = n })
unfolding parse_args with_size equal
parse-bytes n rest o small =
    ap
      (λ x. elim x as (λ y. Parsed) [
        | none ↦ exit 2
        | some m ↦ parse_args (suc (length rest)) rest (record o { random_byte_count = m })
      ])
      (parse_size-decimal n small)
    ∙ parse_args_fuel (suc (length rest)) (length rest) rest _ (omega arith) (omega arith)

parse-osr :
    (n : ℕ) (rest : List Bytes) (o : Options)
    → n ≤ 65535
    → parse (codes "--osr" ∷ decimal n ∷ rest) o
      ≡ parse rest (record o { settings = record (o.settings) { osr = n } })
unfolding parse_args with_size equal
parse-osr n rest o small =
    let allowed : ltb 65535 n ≡ false = ground (arith, small) in
    ap
      (λ x. elim x as (λ y. Parsed) [
        | none ↦ exit 2
        | some m ↦
            if ltb 65535 m
            then exit 2
            else parse_args (suc (length rest)) rest
                (record o { settings = record (o.settings) { osr = m } })
      ])
      (parse_size-decimal n (omega (arith, small)))
    ∙ if_false (ltb 65535 n) _ _ allowed
    ∙ parse_args_fuel (suc (length rest)) (length rest) rest _ (omega arith) (omega arith)

parse-benchmark :
    (n k : ℕ) (o : Options)
    → n < 2 ^ 64
    → 0 < k
    → k < 2 ^ 31
    → parse (codes "--benchmark" ∷ decimal n ∷ decimal k ∷ []) o
      ≡ go (record o { run_benchmark_mode = true; benchmark_bytes = n; benchmark_iterations = k })
unfolding parse_args with_benchmark equal
parse-benchmark n k o small positive few =
    rw
      (
        is_option-decimal n,
        is_option-decimal k,
        parse_size-decimal n small,
        parse_int-decimal k positive few,
      )
      refl

-- The options where the arguments before a benchmark have set these.
abbrev so_far : ℕ → ℕ → Bool → Bool → Bool → Bool → Bool → Bool → Bool → Options
so_far n osr write prompt status stats fips ntg1 no_memory = record default_options {
  random_byte_count = n;
  write_output = write;
  prompt_write = prompt;
  print_status = status;
  print_stats = stats;
  settings = record {
    osr = osr;
    force_fips = fips;
    ntg1 = ntg1;
    disable_memory_access = no_memory;
  };
}

parse-spelled_benchmark :
    (o : Options)
    → InRange o
    → Plain o
    → let s = o.settings in
      parse (spelled_benchmark o) (
        so_far o.random_byte_count s.osr o.write_output o.prompt_write o.print_status o.print_stats
          s.force_fips s.ntg1 s.disable_memory_access)
      ≡ go o
unfolding parse_args
parse-spelled_benchmark o r (inl mode) =
    let s = o.settings in
    let before =
      so_far o.random_byte_count s.osr o.write_output o.prompt_write o.print_status o.print_stats
        s.force_fips s.ntg1 s.disable_memory_access in
    ap (λ args. parse args before) (if_true o.run_benchmark_mode _ [] mode)
    ∙ parse-benchmark o.benchmark_bytes o.benchmark_iterations before r.per_call_fit r.some_rounds
        r.rounds_fit
    ∙ ap (λ b. go (record o { run_benchmark_mode = b })) (sym mode)
parse-spelled_benchmark o r (inr (mode, bytes, rounds)) =
    let s = o.settings in
    let before =
      so_far o.random_byte_count s.osr o.write_output o.prompt_write o.print_status o.print_stats
        s.force_fips s.ntg1 s.disable_memory_access in
    ap (λ args. parse args before) (if_false o.run_benchmark_mode _ [] mode)
    ∙ ap (λ b. go (record before { run_benchmark_mode = b })) (sym mode)
    ∙ ap
        (λ n. go (record before { run_benchmark_mode = o.run_benchmark_mode; benchmark_bytes = n }))
        (sym bytes)
    ∙ ap (λ k. go (record o { benchmark_iterations = k })) (sym rounds)

-- For options in range, which keep the program's numbers for a benchmark unless they ask for one, the
-- arguments that spell them make the loop over the arguments go on with exactly these options.
pub parse_args-spelled :
    (o : Options)
    → InRange o
    → Plain o
    → parse_args (length (spelled o)) (spelled o) default_options ≡ go o
unfolding parse_args equal
parse_args-spelled o r plain =
    let s = o.settings in
    let n = o.random_byte_count in
    let w = o.write_output in
    let p = o.prompt_write in
    let t = o.print_status in
    let c = o.print_stats in
    let f = s.force_fips in
    let g = s.ntg1 in
    let m = s.disable_memory_access in
    let rest7 = spelled_benchmark o in
    let rest6 = flag m (codes "--no-memory-access") rest7 in
    let rest5 = flag g (codes "--ntg1") rest6 in
    let rest4 = flag f (codes "--force-fips") rest5 in
    let rest3 = flag c (codes "--stats") rest4 in
    let rest2 = flag t (codes "--status") rest3 in
    let rest1 = flag p (codes "--prompt-write") rest2 in
    let rest0 = flag w (codes "--write") rest1 in
    parse-bytes n (codes "--osr" ∷ decimal s.osr ∷ rest0) default_options r.bytes_fit
    ∙ parse-osr s.osr rest0 (so_far n 0 false false false false false false false) r.rate_fit
    ∙ parse-flag w (codes "--write") rest1
        (λ b. so_far n s.osr b false false false false false false) refl
    ∙ parse-flag p (codes "--prompt-write") rest2
        (λ b. so_far n s.osr w b false false false false false) refl
    ∙ parse-flag t (codes "--status") rest3 (λ b. so_far n s.osr w p b false false false false) refl
    ∙ parse-flag c (codes "--stats") rest4 (λ b. so_far n s.osr w p t b false false false) refl
    ∙ parse-flag f (codes "--force-fips") rest5 (λ b. so_far n s.osr w p t c b false false) refl
    ∙ parse-flag g (codes "--ntg1") rest6 (λ b. so_far n s.osr w p t c f b false) refl
    ∙ parse-flag m (codes "--no-memory-access") rest7 (λ b. so_far n s.osr w p t c f g b) refl
    ∙ parse-spelled_benchmark o r plain
