-- ===== src/Stats/CritBinom/Quantile.antt =====
-- What `crit_binom` returns, in terms of the tails it sums.
use jitterentropy_analysis_d.Prelude.{
  ℕ, zero, suc, ◌+◌, ◌-◌, ◌≤◌, ◌<◌, true, false, ◌≡◌, ◌⊎◌, inl, inr, refl, arith, Bool-cases, ◌==◌,
  subst, sym, ap, ◌∙◌,
}
use jitterentropy_analysis_d.Double.{Double, lit, ◌⊕◌, ◌⊖◌, ◌⊗◌}
use jitterentropy_analysis_d.Stats.CritBinom.{log_pmf, add_term, crit_loop, crit_binom}

module _ {F : Type 0} ⦃d : Double F⦄ where
  -- P(X = k) for `n` trials of chance `p`, n! / (k! (n - k)!) * p^k * (1 - p)^(n - k), through logarithms:
  -- the logarithm of m! is `lgamma` of m + 1, that of 1 - p is `log1p` of -p.
  abbrev log_factorial : ℕ → F
  log_factorial m = d.lgamma (d.of_nat m ⊕ lit 1)

  abbrev log_choose : ℕ → ℕ → F
  log_choose n k = log_factorial n ⊖ log_factorial k ⊖ log_factorial (n - k)

  abbrev log_successes : F → ℕ → F
  log_successes p k = d.of_nat k ⊗ d.log p

  abbrev log_failures : F → ℕ → F
  log_failures p m = d.of_nat m ⊗ d.log1p (d.neg p)

  abbrev pub probability : ℕ → F → ℕ → F
  probability n p k = d.exp (log_choose n k ⊕ log_successes p k ⊕ log_failures p (n - k))

  add_term-probability :
      (n : ℕ) (p tail : F) (k : ℕ) → add_term n p tail k ≡ tail ⊕ probability n p k
  unfolding log_pmf
  add_term-probability n p tail k = refl

  -- The sum of the terms from `top` down to `top - count + 1`, in the order of the code.
  abbrev pub terms : ℕ → F → F → ℕ → ℕ → F
  terms n p tail top zero = tail
  terms n p tail top (suc count) = terms n p tail top count ⊕ probability n p (top - count)

  -- The upper tail from `k` on: P(X >= k), from `n` down.
  abbrev pub upper_tail : ℕ → F → ℕ → F
  upper_tail n p k = terms n p (lit 0) n (n + 1 - k)

  -- `r` is the largest number up to `top` whose tail exceeds `alpha`, or 0 if none does.
  abbrev pub IsQuantile : ℕ → F → F → ℕ → ℕ → Type 0
  IsQuantile n p alpha top r =
      (r ≤ top)
      × ((r ≡ 0) ⊎ (d.lt alpha (upper_tail n p r) ≡ true))
      × ((j : ℕ) → r < j → j ≤ top → d.lt alpha (upper_tail n p j) ≡ false)

  tail_now :
      (n : ℕ) (p : F) (k summed : ℕ)
      → suc k + summed ≡ n
      → upper_tail n p (suc k) ≡ add_term n p (terms n p (lit 0) n summed) (suc k)
  tail_now n p k summed h =
      let top : n - summed ≡ suc k = omega arith in
      let steps : n + 1 - suc k ≡ suc summed = omega arith in
      rw (steps, top) (sym (add_term-probability n p (terms n p (lit 0) n summed) (suc k)))

  -- One more place above those that did not exceed `alpha`.
  IsQuantile-raise :
      (n : ℕ) (p alpha : F) (top r : ℕ)
      → d.lt alpha (upper_tail n p (suc top)) ≡ false
      → IsQuantile n p alpha top r
      → IsQuantile n p alpha (suc top) r
  IsQuantile-raise n p alpha top r low (le, tail, above) = (
    omega (arith, le),
    tail,
    λ j more below. elim (Bool-cases (j == suc top)) [
      | inl e ↦ let at : j ≡ suc top = ground arith in rw at low
      | inr e ↦ above j more (ground arith)
    ],
  )

  crit_loop-IsQuantile :
      (n : ℕ) (p alpha : F) (k summed : ℕ)
      → k + summed ≡ n
      → IsQuantile n p alpha k (crit_loop n p alpha (terms n p (lit 0) n summed) k)
  unfolding crit_loop
  crit_loop-IsQuantile n p alpha zero summed h =
      (omega arith, inl refl, λ j above below. absurd (omega arith))
  crit_loop-IsQuantile n p alpha (suc k) summed h =
      let now = tail_now n p k summed h in
      let more = add_term n p (terms n p (lit 0) n summed) (suc k) in
      let top : n - summed ≡ suc k = omega arith in
      let next : terms n p (lit 0) n (suc summed) ≡ more =
        rw top (sym (add_term-probability n p (terms n p (lit 0) n summed) (suc k))) in
      let ih : IsQuantile n p alpha k (crit_loop n p alpha more k) =
        subst (λ t. IsQuantile n p alpha k (crit_loop n p alpha t k)) next
          (crit_loop-IsQuantile n p alpha k (suc summed) (omega arith)) in
      elim (Bool-cases (d.lt alpha more)) [
        | inl e ↦
            rw (e, d.lt alpha more)
              (omega arith, inr (ap (d.lt alpha) now ∙ e), λ j above below. absurd (omega arith))
        | inr e ↦
            rw (e, d.lt alpha more)
              (IsQuantile-raise n p alpha k (crit_loop n p alpha more k) (ap (d.lt alpha) now ∙ e)
                ih)
      ]

  -- Where `p` is neither at most 0 nor at least 1, `crit_binom` returns the largest `k` up to `n` for
  -- which the sum of the upper tail P(X >= k), computed from `n` down, exceeds `alpha`; 0 if there is
  -- none.
  pub crit_binom_lem :
      (n : ℕ) (p alpha : F)
      → d.le p (lit 0) ≡ false
      → d.le (lit 1) p ≡ false
      → IsQuantile n p alpha n (crit_binom n p alpha)
  unfolding crit_binom
  crit_binom_lem n p alpha e one =
      rw (e, d.le p (lit 0), one, d.le (lit 1) p) (crit_loop-IsQuantile n p alpha n 0 (omega arith))
