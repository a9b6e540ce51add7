-- ===== src/Gui/State/Sums.antt =====
-- The counts of the session add up to its total.
use jitterentropy_analysis_d.Prelude.{
  ℕ, suc, ◌+◌, Option, none, some, List, [], ◌∷◌, ◌≡◌, refl, ap, sym, ◌∙◌, arith, u64, length,
  length-replicate,
}
use jitterentropy_analysis_d.Stats.Histogram.{Histogram, bins}
use jitterentropy_analysis_d.Stats.Histogram.Counts.{sum, sum-replicate}
use jitterentropy_analysis_d.Stats.Report.{Report}
use jitterentropy_analysis_d.Gui.State.{no_bytes, add_counts, add_to_session}

-- There are 256 counters, whose sum is the total modulo 2^64.
abbrev pub IsConsistent : Histogram → Type 0
IsConsistent h = (length h.counts ≡ 256) × (u64 (sum h.counts) ≡ u64 h.total)

-- The same of the statistics of a result, if it has any.
abbrev pub AreConsistent : {F : Type 0} → Option (Report F) → Type 0
AreConsistent none = Unit
AreConsistent (some r) = (length r.counts ≡ 256) × (sum r.counts ≡ r.byte_count)

length-add_counts : (a b : List ℕ) → length (add_counts a b) ≡ length a
unfolding add_counts
length-add_counts [] b = refl
length-add_counts (c ∷ a) [] = refl
length-add_counts (c ∷ a) (m ∷ b) = ap suc (length-add_counts a b)

sum-add_counts :
    (a b : List ℕ) → length a ≡ length b → u64 (sum (add_counts a b)) ≡ u64 (sum a + sum b)
unfolding add_counts
sum-add_counts [] [] e = refl
sum-add_counts [] (m ∷ b) e = absurd (omega arith)
sum-add_counts (c ∷ a) [] e = absurd (omega arith)
sum-add_counts (c ∷ a) (m ∷ b) e = let ih = sum-add_counts a b (omega arith) in omega (arith, ih)

pub no_bytes-IsConsistent : IsConsistent no_bytes
no_bytes-IsConsistent = (length-replicate {A = ℕ} bins 0, ap u64 (sum-replicate bins))

pub add_to_session-IsConsistent :
    {F : Type 0} (r : Option (Report F)) (h : Histogram)
    → AreConsistent r
    → IsConsistent h
    → IsConsistent (add_to_session r h)
unfolding add_to_session
add_to_session-IsConsistent none h fits c = c
add_to_session-IsConsistent (some r) h (wide, all) (width, total) =
    let added = sum-add_counts h.counts r.counts (width ∙ sym wide) in
    (length-add_counts h.counts r.counts ∙ width, omega (arith, added, total, all))
