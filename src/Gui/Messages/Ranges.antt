-- ===== src/Gui/Messages/Ranges.antt =====
-- The jobs that messages ask for are within the limits.
use jitterentropy_analysis_d.Prelude.{
  ℕ, ◌≤◌, Option, none, some, ◌≡◌, inl, inr, refl, subst, Option-cases, arith,
}
use jitterentropy_analysis_d.Prelude.Int.{ℤ, pos, pos_part, negsuc, ◌≤ℤ◌}
use jitterentropy_analysis_d.Bridge.Text.{Bytes}
use jitterentropy_analysis_d.Bridge.Object.{Object}
use jitterentropy_analysis_d.Bridge.Getters.{GetResult, ok, missing, invalid, codes, get_int}
use jitterentropy_analysis_d.Bridge.Getters.Ints.{get_int_iff}
use jitterentropy_analysis_d.Gui.State.{
  Job, generating, measuring, max_generate_bytes, max_bench_bytes, max_bench_iterations,
}
use jitterentropy_analysis_d.Gui.Messages.{or_default, generate_job, benchmark_job}

-- The sizes that a job may have.
abbrev pub InRange : Job → Type 0
InRange (generating n) = (1 ≤ n) × (n ≤ max_generate_bytes)
InRange (measuring n k) = (1 ≤ n) × (n ≤ max_bench_bytes) × (1 ≤ k) × (k ≤ max_bench_iterations)

abbrev pub Granted : Option Job → Type 0
Granted none = Unit
Granted (some job) = InRange job

or_default-keeps {ℓ} :
    {A : Type 0} (P : A → Type ℓ) (old : A) (r : GetResult A) (v : A)
    → P old
    → ((x : A) → r ≡ ok x → P x)
    → or_default old r ≡ some v
    → P v
unfolding or_default
or_default-keeps P old (ok x) v p q e = subst P (cc e) (q x refl)
or_default-keeps P old missing v p q e = subst P (cc e) p
or_default-keeps P old invalid v p q e = cc e

pos_part_range :
    (lo hi : ℕ) (v : ℤ)
    → 1 ≤ lo
    → (pos lo ≤ℤ v) × (v ≤ℤ pos hi)
    → (lo ≤ pos_part v) × (pos_part v ≤ hi)
pos_part_range lo hi (pos n) positive (l, h) = (omega arith, omega arith)
pos_part_range lo hi (negsuc n) positive (l, h) = absurd (omega arith)

-- An optional number lies within its bounds if its default does.
pub optional_int :
    (o : Object) (key : Bytes) (old lo hi v : ℤ)
    → (lo ≤ℤ old) × (old ≤ℤ hi)
    → or_default old (get_int o key lo hi) ≡ some v
    → (lo ≤ℤ v) × (v ≤ℤ hi)
optional_int o key old lo hi v fine e =
    or_default-keeps (λ x. (lo ≤ℤ x) × (x ≤ℤ hi)) old (get_int o key lo hi) v fine
      (λ x h. let (t, f, d, k, l, m) = (get_int_iff o key lo hi x).0 h in (l, m)) e

-- The same of its natural number, where the lower bound is positive.
optional_size :
    (o : Object) (key : Bytes) (old lo hi : ℕ) (v : ℤ)
    → 1 ≤ lo
    → lo ≤ old
    → old ≤ hi
    → or_default (pos old) (get_int o key (pos lo) (pos hi)) ≡ some v
    → (lo ≤ pos_part v) × (pos_part v ≤ hi)
optional_size o key old lo hi v positive low high e =
    pos_part_range lo hi v positive
      (optional_int o key (pos old) (pos lo) (pos hi) v (omega arith, omega arith) e)

pub generate_job-InRange : (o : Object) → Granted (generate_job o)
unfolding generate_job
generate_job-InRange o =
    let key = codes "bytes" in
    elim (Option-cases (or_default (pos 32) (get_int o key (pos 1) (pos max_generate_bytes)))) [
      | inl e ↦ rw (e, generate_job) tt
      | inr (n, e) ↦
          let (low, high) =
            optional_size o key 32 1 max_generate_bytes n (omega arith) (omega arith) (omega arith)
              e in
          rw (e, generate_job) (low, high)
    ]

pub benchmark_job-InRange : (o : Object) → Granted (benchmark_job o)
unfolding benchmark_job
benchmark_job-InRange o =
    let size = codes "bytesPerCall" in
    let times = codes "iterations" in
    elim (Option-cases (or_default (pos 1024) (get_int o size (pos 1) (pos max_bench_bytes)))) [
      | inl e ↦ rw (e, benchmark_job) tt
      | inr (n, e) ↦
          let (low, high) =
            optional_size o size 1024 1 max_bench_bytes n (omega arith) (omega arith) (omega arith)
              e in
          elim (Option-cases
            (or_default (pos 100) (get_int o times (pos 1) (pos max_bench_iterations)))) [
              | inl e' ↦ rw (e, benchmark_job, e') tt
              | inr (k, e') ↦
                  let (low', high') =
                    optional_size o times 100 1 max_bench_iterations k (omega arith) (omega arith)
                      (omega arith) e' in
                  rw (e, benchmark_job, e') (low, high, low', high')
            ]
    ]
