-- ===== src/Cli/Args/Ranges.antt =====
-- The ranges of what the arguments set.
use jitterentropy_analysis_d.Prelude.{
  ℕ, zero, suc, ◌^◌, ◌≤◌, ◌<◌, Bool, true, false, some, List, [], ◌∷◌, ◌≡◌, ◌⊎◌, refl, arith, inl,
  inr, Option-cases, Bool-cases, if-elim, ltb, ltb→lt, leb, if◌then◌else◌, not, ◌&&◌, guard,
  >>=-eq-some,
}
use jitterentropy_analysis_d.Bridge.Text.{Bytes}
use jitterentropy_analysis_d.Bridge.Object.{equal}
use jitterentropy_analysis_d.Bridge.Getters.{codes, is_digit}
use jitterentropy_analysis_d.Cli.Args.{
  digits, parse_size, parse_int, positive_part, skip_space, Options, Parsed, go, exit, with_size,
  is_option, with_benchmark, parse_args, default_options,
}

-- Sizes of a `size_t`, a positive `int` of iterations, and an oversampling rate of 16 bits.
pub record Within (bytes per_call rounds osr : ℕ) : Type 0 where
  pub bytes_fit : bytes < 2 ^ 64
  pub per_call_fit : per_call < 2 ^ 64
  pub some_rounds : 0 < rounds
  pub rounds_fit : rounds < 2 ^ 31
  pub rate_fit : osr ≤ 65535

abbrev pub InRange : Options → Type 0
InRange o = Within o.random_byte_count o.benchmark_bytes o.benchmark_iterations o.settings.osr

abbrev pub Fine : Parsed → Type 0
Fine (go o) = InRange o
Fine (exit n) = (n ≡ 0) ⊎ (n ≡ 2)

-- What holds without arguments.
pub default_options-InRange : InRange default_options
default_options-InRange = record {
  bytes_fit = omega arith;
  per_call_fit = omega arith;
  some_rounds = omega arith;
  rounds_fit = omega arith;
  rate_fit = omega arith;
}

guard-true : (b : Bool) {u : Unit {0}} → guard b ≡ some u → b ≡ true
guard-true true h = refl
guard-true false h = cc

parse_size_bound : (s : Bytes) (n : ℕ) → parse_size s ≡ some n → n < 2 ^ 64
unfolding parse_size
parse_size_bound [] n h = cc
parse_size_bound (c ∷ s) n h =
    let (u, digit, h1) = >>=-eq-some (guard (is_digit c)) _ h in
    let (v, value, h2) = >>=-eq-some (digits 0 (c ∷ s)) _ h1 in
    let (w, bound, h3) = >>=-eq-some (guard (ltb v (2 ^ 64))) _ h2 in
    let below = ltb→lt v (2 ^ 64) (guard-true (ltb v (2 ^ 64)) bound) in ground (arith, h3, below)

parse_int_bound : (s : Bytes) (n : ℕ) → parse_int s ≡ some n → (0 < n) × (n < 2 ^ 31)
unfolding parse_int
parse_int_bound s n h =
    let (v, value, h1) = >>=-eq-some (positive_part (skip_space s)) _ h in
    let (w, bound, h2) = >>=-eq-some (guard (ltb 0 v && leb v 2147483647)) _ h1 in
    let within = guard-true (ltb 0 v && leb v 2147483647) bound in
    let same : v ≡ n = ground (arith, h2) in
    (ground (arith, within, same), ground (arith, within, same))

with_size-Fine :
    (args : List Bytes) (f : ℕ → List Bytes → Parsed)
    → ((n : ℕ) (rest : List Bytes) → n < 2 ^ 64 → Fine (f n rest))
    → Fine (with_size args f)
unfolding with_size
with_size-Fine [] f h = inr refl
with_size-Fine (a ∷ args) f h = elim (Option-cases (parse_size a)) [
  | inl e ↦ rw (e, with_size) (inr refl)
  | inr (n, e) ↦ rw (e, with_size) (h n args (parse_size_bound a n e))
]

with_benchmark-Fine :
    (o : Options) (args : List Bytes) (f : Options → List Bytes → Parsed)
    → InRange o
    → ((o' : Options) (rest : List Bytes) → InRange o' → Fine (f o' rest))
    → Fine (with_benchmark o args f)
unfolding with_benchmark
with_benchmark-Fine o [] f r h = h o [] r
with_benchmark-Fine o (a ∷ []) f r h = h o (a ∷ []) r
with_benchmark-Fine o (a ∷ b ∷ args) f r h =
    if-elim Fine (not (is_option a) && not (is_option b))
      (elim (Option-cases (parse_size a)) [
        | inl e ↦ rw (e, parse_size a) (inr refl)
        | inr (n, e) ↦ elim (Option-cases (parse_int b)) [
          | inl i ↦ rw (e, parse_size a, i, parse_int b) (inr refl)
          | inr (k, i) ↦
              let (some_rounds, rounds) = parse_int_bound b k i in
              rw (e, parse_size a, i, parse_int b)
                (h (record o { benchmark_bytes = n; benchmark_iterations = k }) args
                  record {
                    bytes_fit = r.bytes_fit;
                    per_call_fit = parse_size_bound a n e;
                    some_rounds = some_rounds;
                    rounds_fit = rounds;
                    rate_fit = r.rate_fit;
                  })
        ]
      ])
      (h o (a ∷ b ∷ args) r)

-- From options in these ranges, the loop over the arguments either exits with 0 or 2, or goes on with
-- options in these ranges: sizes below 2^64, iterations from 1 to 2^31 - 1, and a rate up to 65535.
pub parse_args_lem :
    (fuel : ℕ) (args : List Bytes) (o : Options) → InRange o → Fine (parse_args fuel args o)
unfolding parse_args
parse_args_lem fuel [] o r = r
parse_args_lem zero (a ∷ args) o r = inr refl
parse_args_lem (suc fuel) (a ∷ args) o r =
    let rest : (o' : Options) → InRange o' → Fine (parse_args fuel args o') =
      λ o' r'. parse_args_lem fuel args o' r' in
    let with_rate : ℕ → List Bytes → Parsed = λ n left.
      if ltb 65535 n
      then exit 2
      else parse_args fuel left (record o { settings = record (o.settings) { osr = n } }) in
    if-elim Fine (equal a (codes "--bytes"))
      (with_size-Fine args _ (λ n left bound. parse_args_lem fuel left _ record {
        bytes_fit = bound;
        per_call_fit = r.per_call_fit;
        some_rounds = r.some_rounds;
        rounds_fit = r.rounds_fit;
        rate_fit = r.rate_fit;
      }))
      (if-elim Fine (equal a (codes "--write")) (rest _ r) (
        if-elim Fine (equal a (codes "--prompt-write")) (rest _ r) (
          if-elim Fine (equal a (codes "--benchmark"))
            (with_benchmark-Fine _ args _ r (λ o' left r'. parse_args_lem fuel left o' r'))
            (if-elim Fine (equal a (codes "--status")) (rest _ r) (
              if-elim Fine (equal a (codes "--stats")) (rest _ r) (
                if-elim Fine (equal a (codes "--osr"))
                  (with_size-Fine args with_rate (λ n left bound. elim (Bool-cases (ltb 65535 n)) [
                    | inl h ↦ rw (h, ltb 65535 n) (inr refl)
                    | inr h ↦
                        rw (h, ltb 65535 n)
                          (parse_args_lem fuel left _ record {
                            bytes_fit = r.bytes_fit;
                            per_call_fit = r.per_call_fit;
                            some_rounds = r.some_rounds;
                            rounds_fit = r.rounds_fit;
                            rate_fit = ground (arith, h);
                          })
                  ]))
                  (if-elim Fine (equal a (codes "--force-fips")) (rest _ r) (
                    if-elim Fine (equal a (codes "--ntg1")) (rest _ r) (
                      if-elim Fine (equal a (codes "--no-memory-access")) (rest _ r)
                        (if-elim Fine (equal a (codes "--help")) (inl refl) (inr refl)))))))))))
