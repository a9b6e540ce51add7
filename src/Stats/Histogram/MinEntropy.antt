-- ===== src/Stats/Histogram/MinEntropy.antt =====
-- `entropy_stats_min_entropy` takes the logarithm of the share of the commonest byte.
use native.Mathlib.Nat.{le_refl}
use jitterentropy_analysis_d.Prelude.{
  ℕ, zero, suc, ◌^◌, ◌≤◌, ◌<◌, some, List, [], ◌∷◌, ◌≡◌, ◌⊎◌, inl, inr, refl, sym, ◌∙◌, ap₂, arith,
  ltb, true, false, Bool-cases, ◌==◌, if◌then◌else◌, length, get_or,
}
use jitterentropy_analysis_d.Double.{Double, ◌⊘◌}
use jitterentropy_analysis_d.Stats.Histogram.{largest, histogram, min_entropy}
use jitterentropy_analysis_d.Stats.Histogram.Counts.{count, AreBytes, histogram-count}

le-largest : (m : ℕ) (counts : List ℕ) → m ≤ largest m counts
unfolding largest
le-largest m [] = le_refl m
le-largest m (c ∷ counts) = ground (arith, le-largest (if ltb m c then c else m) counts)

get_or-le-largest : (m : ℕ) (counts : List ℕ) (i : ℕ) → get_or counts i 0 ≤ largest m counts
unfolding largest
get_or-le-largest m [] i = omega arith
get_or-le-largest m (c ∷ counts) zero = ground (arith, le-largest (if ltb m c then c else m) counts)
get_or-le-largest m (c ∷ counts) (suc i) = get_or-le-largest (if ltb m c then c else m) counts i

abbrev Attained : ℕ → List ℕ → Type 0
Attained n counts = (i : ℕ) × (i < length counts) × (get_or counts i 0 ≡ n)

later : (c n : ℕ) (counts : List ℕ) → Attained n counts → Attained n (c ∷ counts)
later c n counts (i, l, e) = (suc i, omega arith, e)

-- The result is the starting value, or it stands in the list.
largest-Attained :
    (m : ℕ) (counts : List ℕ) → (largest m counts ≡ m) ⊎ Attained (largest m counts) counts
unfolding largest
largest-Attained m [] = inl refl
largest-Attained m (c ∷ counts) =
    choose (Bool-cases (ltb m c)) (largest-Attained (if ltb m c then c else m) counts)
  where
    m' : ℕ
    m' = if ltb m c then c else m

    choose :
        (ltb m c ≡ true) ⊎ (ltb m c ≡ false)
        → (largest m' counts ≡ m') ⊎ Attained (largest m' counts) counts
        → (largest m' counts ≡ m) ⊎ Attained (largest m' counts) (c ∷ counts)
    choose t (inr a) = inr (later c _ counts a)
    choose (inl t) (inl e) = inr (zero, omega arith, ground arith)
    choose (inr f) (inl e) = inl (ground arith)

largest_zero-Attained : (counts : List ℕ) → 0 < length counts → Attained (largest 0 counts) counts
largest_zero-Attained counts p = elim (largest-Attained 0 counts) [
  | inr a ↦ a
  | inl e ↦ (zero, p, omega (arith, get_or-le-largest 0 counts 0))
]

-- A buffer that is not empty has a commonest byte, and the min-entropy is minus the binary logarithm
-- of its share of the bytes.
pub min_entropy-histogram :
    {F : Type 0} ⦃d : Double F⦄ (bytes : List ℕ)
    → AreBytes bytes
    → 0 < length bytes
    → length bytes < 2 ^ 64
    → (v : ℕ) × (v < 256)
      × ((w : ℕ) → w < 256 → count w bytes ≤ count v bytes)
      × (min_entropy (histogram (some bytes))
          ≡ d.neg (d.log2 (d.of_nat (count v bytes) ⊘ d.of_nat (length bytes))))
unfolding min_entropy
min_entropy-histogram ⦃d⦄ bytes a p s =
    let h = histogram (some bytes) in
    let (len, each, all, total) = histogram-count bytes a s in
    let (v, l, e) = largest_zero-Attained h.counts (omega arith) in
    let small : v < 256 = omega arith in
    let top : largest 0 h.counts ≡ count v bytes = sym e ∙ each v small in
    let full : (h.total == 0) ≡ false = ground arith in
    (
      v,
      small,
      λ w k. omega (arith, get_or-le-largest 0 h.counts w, each w k),
      rw full (ap₂ (λ x y. d.neg (d.log2 (d.of_nat x ⊘ d.of_nat y))) top total),
    )
