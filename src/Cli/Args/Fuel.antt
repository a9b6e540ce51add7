-- ===== src/Cli/Args/Fuel.antt =====
-- As much fuel as there are arguments is enough.
use jitterentropy_analysis_d.Prelude.{
  ℕ, zero, suc, ◌≤◌, List, [], ◌∷◌, ◌≡◌, refl, ap, ap₂, arith, inl, inr, Option-cases, ltb,
  if◌then◌else◌, length, not, ◌&&◌,
}
use jitterentropy_analysis_d.Bridge.Text.{Bytes}
use jitterentropy_analysis_d.Bridge.Object.{equal}
use jitterentropy_analysis_d.Bridge.Getters.{codes}
use jitterentropy_analysis_d.Cli.Args.{
  parse_size, parse_int, Options, Parsed, exit, with_size, is_option, with_benchmark, parse_args,
}

with_size_ext :
    (args : List Bytes) (f g : ℕ → List Bytes → Parsed)
    → ((n : ℕ) (rest : List Bytes) → length rest ≤ length args → f n rest ≡ g n rest)
    → with_size args f ≡ with_size args g
unfolding with_size
with_size_ext [] f g h = refl
with_size_ext (a ∷ args) f g h = elim (Option-cases (parse_size a)) [
  | inl e ↦ rw (e, with_size) refl
  | inr (n, e) ↦ rw (e, with_size) (h n args (omega arith))
]

with_benchmark_ext :
    (o : Options) (args : List Bytes) (f g : Options → List Bytes → Parsed)
    → ((o' : Options) (rest : List Bytes) → length rest ≤ length args → f o' rest ≡ g o' rest)
    → with_benchmark o args f ≡ with_benchmark o args g
unfolding with_benchmark
with_benchmark_ext o [] f g h = h o [] (omega arith)
with_benchmark_ext o (a ∷ []) f g h = h o (a ∷ []) (omega arith)
with_benchmark_ext o (a ∷ b ∷ args) f g h =
    ap₂ (if◌then◌else◌ (not (is_option a) && not (is_option b)))
      (elim (Option-cases (parse_size a)) [
        | inl e ↦ rw (e, parse_size a) refl
        | inr (n, e) ↦ elim (Option-cases (parse_int b)) [
          | inl i ↦ rw (e, parse_size a, i, parse_int b) refl
          | inr (k, i) ↦ rw (e, parse_size a, i, parse_int b) (h _ args (omega arith))
        ]
      ])
      (h o (a ∷ b ∷ args) (omega arith))

-- Any two amounts of fuel that reach the number of the arguments give the same result.
pub parse_args_fuel :
    (f g : ℕ) (args : List Bytes) (o : Options)
    → length args ≤ f
    → length args ≤ g
    → parse_args f args o ≡ parse_args g args o
unfolding parse_args
parse_args_fuel f g [] o hf hg = refl
parse_args_fuel zero g (a ∷ args) o hf hg = absurd (omega arith)
parse_args_fuel (suc f) zero (a ∷ args) o hf hg = absurd (omega arith)
parse_args_fuel (suc f) (suc g) (a ∷ args) o hf hg =
    let same : (rest : List Bytes)
        → length rest ≤ length args
        → (o' : Options) → parse_args f rest o' ≡ parse_args g rest o' =
      λ rest h o'. parse_args_fuel f g rest o' (omega (arith, h)) (omega (arith, h)) in
    let next = same args (omega arith) in
    let either = λ (s : Bytes). if◌then◌else◌ {A = Parsed} (equal a s) in
    ap₂ (either (codes "--bytes")) (with_size_ext args _ _ (λ n rest h. same rest h _)) (
      ap₂ (either (codes "--write")) (next _) (
        ap₂ (either (codes "--prompt-write")) (next _) (
          ap₂ (either (codes "--benchmark"))
            (with_benchmark_ext _ args _ _ (λ o' rest h. same rest h o'))
            (ap₂ (either (codes "--status")) (next _) (
              ap₂ (either (codes "--stats")) (next _) (
                ap₂ (either (codes "--osr"))
                  (with_size_ext args _ _
                    (λ n rest h. ap (if◌then◌else◌ (ltb 65535 n) (exit 2)) (same rest h _)))
                  (ap₂ (either (codes "--force-fips")) (next _) (
                    ap₂ (either (codes "--ntg1")) (next _)
                      (ap₂ (either (codes "--no-memory-access")) (next _) refl)))))))))
