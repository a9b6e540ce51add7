-- ===== src/Cli/Args.antt =====
-- The arguments of app/main.c. `strtoull` and `strtol` (whose `long` has 32 bits on Windows) are modelled
-- as far as the code uses them.
pub mod Fuel
pub mod Ranges
pub mod Numerals
pub mod RoundTrip
use jitterentropy_analysis_d.Prelude.{
  ℕ, zero, suc, ◌+◌, ◌-◌, ◌*◌, ◌^◌, Bool, true, false, Option, none, some, List, [], ◌∷◌, ltb, leb,
  ◌==◌, ◌||◌, ◌&&◌, if◌then◌else◌, length, ◌>>=◌, ◌>>◌, guard, not,
}
use jitterentropy_analysis_d.Bridge.Text.{Bytes}
use jitterentropy_analysis_d.Bridge.Object.{equal}
use jitterentropy_analysis_d.Bridge.Getters.{codes, is_digit}
use jitterentropy_analysis_d.Rng.{Settings, settings_defaults}

-- The value of digits up to the end of the text, behind the value `v` of those before.
unfoldable pub digits : ℕ → Bytes → Option ℕ
digits v [] = some v
digits v (c ∷ s) = if is_digit c then digits (v * 10 + (c - 48)) s else none

-- `parse_size`
unfoldable pub parse_size : Bytes → Option ℕ
unfolding digits
parse_size [] = none
parse_size (c ∷ s) = do guard (is_digit c); v ← digits 0 (c ∷ s); guard (ltb v (2 ^ 64)); some v

-- `isspace`
abbrev pub is_space : ℕ → Bool
is_space c = c == 32 || (leb 9 c && leb c 13)

unfoldable pub skip_space : Bytes → Bytes
skip_space [] = []
skip_space (c ∷ s) = if is_space c then skip_space s else c ∷ s

-- The digits of a number that may not be negative, past a plus sign.
unfoldable pub positive_part : Bytes → Option ℕ
unfolding digits
positive_part [] = none
positive_part (c ∷ s) =
    if c == b'+' then (elim s [ [] ↦ none | ◌∷◌ d t ↦ digits 0 (d ∷ t) ]) else digits 0 (c ∷ s)

-- `parse_int`: a number with a minus sign is 0 or less, or no number, and refused either way.
unfoldable pub parse_int : Bytes → Option ℕ
unfolding skip_space positive_part
parse_int s = do v ← positive_part (skip_space s); guard (ltb 0 v && leb v 2147483647); some v

-- The local variables of `main` that the arguments set.
pub record Options : Type 0 where
  pub random_byte_count : ℕ
  pub benchmark_bytes : ℕ
  pub benchmark_iterations : ℕ
  pub write_output : Bool
  pub prompt_write : Bool
  pub run_benchmark_mode : Bool
  pub print_status : Bool
  pub print_stats : Bool
  pub settings : Settings

abbrev pub default_options : Options
default_options = record {
  random_byte_count = 32;
  benchmark_bytes = 1024;
  benchmark_iterations = 1000;
  write_output = false;
  prompt_write = false;
  run_benchmark_mode = false;
  print_status = false;
  print_stats = false;
  settings = settings_defaults;
}

-- What the loop over the arguments comes to: go on with options, or exit with a code.
pub data Parsed : Type 0 where
  go : Options → Parsed
  exit : ℕ → Parsed

-- The argument that an option needs, and the rest.
unfoldable pub with_size : List Bytes → (ℕ → List Bytes → Parsed) → Parsed
unfolding parse_size
with_size [] f = exit 2
with_size (a ∷ args) f = elim (parse_size a) [ none ↦ exit 2 | some n ↦ f n args ]

abbrev pub is_option : Bytes → Bool
is_option [] = false
is_option (c ∷ s) = c == b'-'

-- `--benchmark`: two arguments that do not start with a dash, if there are as many, are its numbers.
unfoldable pub with_benchmark : Options → List Bytes → (Options → List Bytes → Parsed) → Parsed
unfolding parse_size parse_int
with_benchmark o (a ∷ b ∷ args) f =
    if not (is_option a) && not (is_option b)
    then (elim (parse_size a) [
      | none ↦ exit 2
      | some n ↦ elim (parse_int b) [
        | none ↦ exit 2
        | some k ↦ f (record o { benchmark_bytes = n; benchmark_iterations = k }) args
      ]
    ])
    else f o (a ∷ b ∷ args)
with_benchmark o args f = f o args

-- Each round takes an argument, so that as much fuel as there are arguments is enough.
unfoldable pub parse_args : ℕ → List Bytes → Options → Parsed
unfolding with_size with_benchmark
parse_args fuel [] o = go o
parse_args zero (a ∷ args) o = exit 2
parse_args (suc fuel) (a ∷ args) o =
    let s = o.settings in
    if equal a (codes "--bytes")
    then with_size args (λ n rest. parse_args fuel rest (record o { random_byte_count = n }))
    else if equal a (codes "--write")
    then parse_args fuel args (record o { write_output = true })
    else if equal a (codes "--prompt-write")
    then parse_args fuel args (record o { prompt_write = true })
    else if equal a (codes "--benchmark")
    then with_benchmark (record o { run_benchmark_mode = true }) args
        (λ o' rest. parse_args fuel rest o')
    else if equal a (codes "--status")
    then parse_args fuel args (record o { print_status = true })
    else if equal a (codes "--stats")
    then parse_args fuel args (record o { print_stats = true })
    else if equal a (codes "--osr")
    then with_size args (λ n rest.
      if ltb 65535 n
      then exit 2
      else parse_args fuel rest (record o { settings = record s { osr = n } }))
    else if equal a (codes "--force-fips")
    then parse_args fuel args (record o { settings = record s { force_fips = true } })
    else if equal a (codes "--ntg1")
    then parse_args fuel args (record o { settings = record s { ntg1 = true } })
    else if equal a (codes "--no-memory-access")
    then parse_args fuel args (record o { settings = record s { disable_memory_access = true } })
    else if equal a (codes "--help")
    then exit 0
    else exit 2
