-- ===== src/Stats/CritBinom.antt =====
-- `crit_binom` of app/entropy_stats.c: the binomial quantile, by adding the upper tail from `n` down.
pub mod Quantile
use jitterentropy_analysis_d.Prelude.{ℕ, zero, suc, ◌+◌, ◌-◌, Bool, true, false, if◌then◌else◌}
use jitterentropy_analysis_d.Double.{Double, lit, ◌⊕◌, ◌⊖◌, ◌⊗◌}

module _ {F : Type 0} ⦃d : Double F⦄ where
  -- `log_pmf`, and the tail when the term at `k` is added to it.
  pub log_pmf : ℕ → F → ℕ → F
  log_pmf n p k =
      d.lgamma (d.of_nat n ⊕ lit 1)
      ⊖ d.lgamma (d.of_nat k ⊕ lit 1)
      ⊖ d.lgamma (d.of_nat (n - k) ⊕ lit 1)
      ⊕ d.of_nat k ⊗ d.log p
      ⊕ d.of_nat (n - k) ⊗ d.log1p (d.neg p)

  abbrev pub add_term : ℕ → F → F → ℕ → F
  add_term n p tail k = tail ⊕ d.exp (log_pmf n p k)

  -- The loop at `k`; it always returns, since it goes down to 0.
  pub crit_loop : ℕ → F → F → F → ℕ → ℕ
  crit_loop n p alpha tail zero = 0
  crit_loop n p alpha tail (suc k) =
      let more = add_term n p tail (suc k) in
      let rest = crit_loop n p alpha more k in if d.lt alpha more then suc k else rest

  pub crit_binom : ℕ → F → F → ℕ
  unfolding crit_loop
  crit_binom n p alpha =
      if d.le p (lit 0) then 0 else if d.le (lit 1) p then n else crit_loop n p alpha (lit 0) n
