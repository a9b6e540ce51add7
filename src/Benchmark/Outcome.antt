-- ===== src/Benchmark/Outcome.antt =====
-- What a benchmark reports, and that it leaves no collector behind.
use jitterentropy_analysis_d.Prelude.{
  ℕ, zero, suc, ◌+◌, ◌-◌, ◌*◌, ◌/◌, ◌^◌, ◌≤◌, ◌<◌, Bool, true, false, none, ◌≡◌, ◌≢◌, ◌⊎◌, ◌↔◌, inl,
  inr, refl, ap, arith, ltb, ◌==◌, leb, leb→le, ltb→lt, Bool-cases, if-elim,
}
use jitterentropy_analysis_d.Prelude.Int.{ℤ, pos_part, pos, negsuc}
use jitterentropy_analysis_d.Double.{Double}
use jitterentropy_analysis_d.Library.{Library}
use native.Mathlib.Nat.{mod-eq_of_lt, le-div_iff_mul-le, mul-le-mul_left}
use jitterentropy_analysis_d.Rng.Release.{shutdown_rng-collector}
use jitterentropy_analysis_d.Rng.{
  Rng, init_rng, shutdown_rng, get_random_bytes, read_counter, qpc_elapsed_seconds,
}
use jitterentropy_analysis_d.Benchmark.{
  Progress, Finished, is_zero, refuses, iterate, closing_code, measure, start_and_measure,
  run_benchmark,
}

-- The loop ran to its end, or stopped before it.
data Stopped {C W F : Type 0} (last : ℕ) (s : Progress C W F) : Type 0 where
  whole : s.completed ≡ last → s.ret ≡ pos 0 → s.cancelled ≡ false → Stopped last s
  early : s.completed < last → (is_zero s.ret ≡ false) ⊎ (s.cancelled ≡ true) → Stopped last s

pub is_zero_lem : (z : ℤ) → is_zero z ≡ true → z ≡ pos 0
is_zero_lem (pos zero) h = refl
is_zero_lem (pos (suc n)) h = cc
is_zero_lem (negsuc n) h = cc

closing_code_early :
    (ret : ℤ) (cancelled : Bool)
    → (is_zero ret ≡ false) ⊎ (cancelled ≡ true)
    → closing_code ret cancelled ≢ pos 0
closing_code_early (pos zero) true stop = λ e. cc
closing_code_early (pos zero) false (inl h) = λ e. cc
closing_code_early (pos zero) false (inr h) = λ e. cc
closing_code_early (pos (suc n)) cancelled stop = λ e. cc
closing_code_early (negsuc n) cancelled stop = λ e. cc

pub is_zero_ne : (z : ℤ) → is_zero z ≡ false → z ≢ pos 0
is_zero_ne z h e = absurd (cc (h, ap is_zero e))

-- The product is too large exactly if the quotient is too small.
too_many_iff : (n k : ℕ) → 0 < k → (ltb ((2 ^ 64 - 1) / k) n ≡ true) ↔ (2 ^ 64 ≤ n * k)
too_many_iff n k h =
    let (fits, exceeds) = le-div_iff_mul-le {k = k} {x = n} {y = 2 ^ 64 - 1} h in
    elim (Bool-cases (ltb ((2 ^ 64 - 1) / k) n)) [
      | inl e ↦
          let big : (2 ^ 64 - 1) / k < n = ltb→lt ((2 ^ 64 - 1) / k) n e in
          (
            λ t. elim (Bool-cases (leb (n * k) (2 ^ 64 - 1))) [
              | inl l ↦
                  let small = exceeds (leb→le (n * k) (2 ^ 64 - 1) l) in
                  absurd (omega (arith, big, small))
              | inr l ↦ ground (arith, l)
            ],
            λ t. e,
          )
      | inr e ↦
          let small : n ≤ (2 ^ 64 - 1) / k = ground (arith, e) in
          let product = fits small in
          (λ t. absurd (cc (t, e)), λ t. absurd (omega (arith, product, t)))
    ]

allowed : (n k : ℕ) → 0 < n → 0 < k → n * k < 2 ^ 64 → refuses n (pos k) ≡ false
allowed n k some_bytes some_rounds fits =
    let (have, need) = too_many_iff n k some_rounds in
    elim (Bool-cases (ltb ((2 ^ 64 - 1) / k) n)) [
      | inl e ↦ let big = have e in absurd (omega (arith, big, fits))
      | inr e ↦
          let bytes : (n == 0) ≡ false = ground arith in
          let rounds : (k == 0) ≡ false = ground arith in rw (bytes, rounds, e) refl
    ]

module _ {C W F : Type 0} ⦃d : Double F⦄ (lib : Library C W) where
  iterate-Stopped :
      (polls : ℕ → Bool) (n left i last : ℕ) (s : Progress C W F)
      → s.ret ≡ pos 0
      → s.cancelled ≡ false
      → s.completed + left ≡ last
      → Stopped last (iterate lib polls n left i s)
  unfolding iterate
  iterate-Stopped polls n zero i last s fine going e = whole (omega arith) fine going
  iterate-Stopped polls n (suc left) i last s fine going e = elim (Bool-cases (polls i)) [
    | inl p ↦ rw (p, polls i) (early (omega arith) (inr refl))
    | inr p ↦
        let got = get_random_bytes lib true n s.rng in
        elim (Bool-cases (is_zero got.0)) [
          | inl z ↦
              let next : Progress C W F = record s {
                completed = s.completed + 1;
                ret = got.0;
                rng = got.2;
              } in
              let ih =
                iterate-Stopped polls n left (i + 1) last next (is_zero_lem got.0 z) going
                  (omega arith) in
              rw (p, polls i, z, is_zero got.0) ih
          | inr z ↦ rw (p, polls i, z, is_zero got.0) (early (omega arith) (inl z))
        ]
  ]

  closing_code_iff :
      (last : ℕ) (s : Progress C W F)
      → Stopped last s
      → ((closing_code s.ret s.cancelled ≡ pos 0) ↔ (s.completed ≡ last)) × (s.completed ≤ last)
  closing_code_iff last s (whole all fine going) =
      rw (fine, going) ((λ e. all, λ e. refl), omega arith)
  closing_code_iff last s (early less stop) = (
    (λ e. absurd (closing_code_early s.ret s.cancelled stop e), λ e. absurd (omega arith)),
    omega arith,
  )

  measure_lem :
      (polls : ℕ → Bool) (n k : ℕ) (x : F) (r : Rng C W F)
      → n * k < 2 ^ 64
      → let f = measure lib polls n k x r in
        ((f.code ≡ pos 0) ↔ (f.out.completed_iterations ≡ k))
        × (f.out.completed_iterations ≤ k)
        × (f.out.total_bytes ≡ n * f.out.completed_iterations)
        × (f.rng.collector ≡ none)
  unfolding measure
  measure_lem polls n k x r fits =
      let w = read_counter lib r in
      let begin_ : Progress C W F = record {
        completed = 0;
        ret = pos 0;
        cancelled = false;
        rng = w.1;
      } in
      let s = iterate lib polls n k 0 begin_ in
      let (code, most) =
        closing_code_iff k s (iterate-Stopped polls n k 0 k begin_ refl refl (omega arith)) in
      let below = mul-le-mul_left n most in
      (code, most, mod-eq_of_lt (omega (arith, below, fits)), shutdown_rng-collector lib _)

  start_and_measure_lem :
      (polls : ℕ → Bool) (n k : ℕ) (r : Rng C W F)
      → 0 < k
      → n * k < 2 ^ 64
      → let f = start_and_measure lib polls n k r in
        ((f.code ≡ pos 0) ↔ (f.out.completed_iterations ≡ k))
        × (f.out.completed_iterations ≤ k)
        × (f.out.total_bytes ≡ n * f.out.completed_iterations)
        × (f.rng.collector ≡ none)
  unfolding start_and_measure
  start_and_measure_lem polls n k r positive fits =
      let r0 = read_counter lib (shutdown_rng lib r) in
      let made = init_rng lib r0.1 in
      elim (Bool-cases (is_zero made.0)) [
        | inl z ↦
            rw (z, is_zero made.0)
              (measure_lem polls n k (qpc_elapsed_seconds lib r0.0 (read_counter lib made.1).0)
                (read_counter lib made.1).1 fits)
        | inr z ↦
            rw (z, is_zero made.0)
              (
                (λ e. absurd (is_zero_ne made.0 z e), λ e. absurd (omega arith)),
                omega arith,
                omega arith,
                shutdown_rng-collector lib _,
              )
      ]

  -- For a positive number of bytes per call and of iterations whose product a `size_t` can count, with
  -- memory for the buffer: `run_benchmark` returns 0 exactly if all iterations were completed; it
  -- reports no more than that, and the product of bytes and completed iterations as total; and on every
  -- path, failure and cancellation included, it leaves no collector.
  pub run_benchmark_lem :
      (polls : ℕ → Bool) (n k : ℕ) (r : Rng C W F)
      → 0 < n
      → 0 < k
      → n * k < 2 ^ 64
      → let f = run_benchmark lib true polls n (pos k) r in
        ((f.code ≡ pos 0) ↔ (f.out.completed_iterations ≡ k))
        × (f.out.completed_iterations ≤ k)
        × (f.out.total_bytes ≡ n * f.out.completed_iterations)
        × (f.rng.collector ≡ none)
  unfolding run_benchmark
  run_benchmark_lem polls n k r some_bytes some_rounds fits =
      rw (allowed n k some_bytes some_rounds fits, run_benchmark)
        (start_and_measure_lem polls n k r some_rounds fits)

  start_and_measure-collector :
      (polls : ℕ → Bool) (n k : ℕ) (r : Rng C W F)
      → (start_and_measure lib polls n k r).rng.collector ≡ none
  unfolding start_and_measure measure
  start_and_measure-collector polls n k r =
      if-elim (λ (f : Finished C W F). f.rng.collector ≡ none)
        (is_zero (init_rng lib (read_counter lib (shutdown_rng lib r)).1).0)
        (shutdown_rng-collector lib _) (shutdown_rng-collector lib _)

  pub run_benchmark-collector :
      (allocated : Bool) (polls : ℕ → Bool) (n : ℕ) (k : ℤ) (r : Rng C W F)
      → r.collector ≡ none
      → (run_benchmark lib allocated polls n k r).rng.collector ≡ none
  unfolding run_benchmark
  run_benchmark-collector allocated polls n k r e =
      let P : Finished C W F → Type 0 = λ f. f.rng.collector ≡ none in
      if-elim P (refuses n k) e
        (if-elim P allocated (start_and_measure-collector polls n (pos_part k) r) e)
