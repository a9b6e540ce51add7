-- ===== src/Stats/Rct/Longest.antt =====
-- The Repetition Count Test against the stretches of equal samples in its input.
use jitterentropy_analysis_d.Prelude.{
  ℕ, ◌+◌, ◌^◌, ◌≤◌, ◌<◌, max, true, false, List, [], ◌∷◌, ◌++◌, ◌≡◌, refl, ap, ◌∙◌, ◌↔◌, inl, inr,
  arith, ltb, if◌then◌else◌, length, u32, Bool-cases,
}
use jitterentropy_analysis_d.Double.{Double}
use jitterentropy_analysis_d.Stats.Rct.{rct_loop, rct_cutoff, rct}

module _ {F : Type 0} ⦃d : Double F⦄ where
  -- The samples behind `prev` that go on its run.
  abbrev pub lead : F → List F → ℕ
  lead prev [] = 0
  lead prev (x ∷ samples) = let rest = lead x samples in if d.eq x prev then 1 + rest else 0

  abbrev pub longest : List F → ℕ
  longest [] = 0
  longest (x ∷ samples) = max (1 + lead x samples) (longest samples)

  -- Each sample equals (in the sense of `==`) the one before.
  abbrev pub IsRun : List F → Type 0
  IsRun [] = Unit
  IsRun (x ∷ []) = Unit
  IsRun (x ∷ y ∷ samples) = (d.eq y x ≡ true) × IsRun (y ∷ samples)

  -- `k` samples in a row somewhere in `samples` that are a run.
  abbrev pub HasRun : ℕ → List F → Type 0
  HasRun k samples =
      (before : List F) × (run : List F) × (after : List F) × (samples ≡ before ++ (run ++ after))
      × IsRun run
      × (k ≤ length run)

  rct_loop-longest :
      (run max_run : ℕ) (prev : F) (samples : List F)
      → 1 ≤ run
      → run ≤ max_run
      → run + length samples < 2 ^ 32
      → rct_loop run max_run prev samples
        ≡ max max_run (max (run + lead prev samples) (longest samples))
  unfolding rct_loop
  rct_loop-longest run max_run prev [] one h small = omega arith
  rct_loop-longest run max_run prev (x ∷ samples) one h small = elim (Bool-cases (d.eq x prev)) [
    | inl e ↦
        let wraps : u32 (run + 1) ≡ run + 1 = omega arith in
        let top : (if ltb max_run (run + 1) then run + 1 else max_run) ≡ max max_run (run + 1) =
          ground arith in
        let ih : rct_loop (run + 1) (max max_run (run + 1)) x samples
            ≡ max (max max_run (run + 1)) (max (run + 1 + lead x samples) (longest samples)) =
          rct_loop-longest (run + 1) (max max_run (run + 1)) x samples (omega arith) (omega arith)
            (omega arith) in
        rw (e, d.eq x prev, wraps, u32 (run + 1), top) omega (arith, ih)
    | inr e ↦
        let ih : rct_loop 1 max_run x samples
            ≡ max max_run (max (1 + lead x samples) (longest samples)) =
          rct_loop-longest 1 max_run x samples (omega arith) (omega arith) (omega arith) in
        rw (e, d.eq x prev) omega (arith, ih)
  ]

  -- The run at the head of a list.
  lead-HasRun :
      (x : F) (samples : List F)
      → (run : List F) × (after : List F) × (samples ≡ run ++ after)
        × IsRun (x ∷ run)
        × (length run ≡ lead x samples)
  lead-HasRun x [] = ([], [], refl, tt, refl)
  lead-HasRun x (y ∷ samples) =
      let (run, after, e, is_run, len) = lead-HasRun y samples in
      elim (Bool-cases (d.eq y x)) [
        | inl h ↦ rw (h, d.eq y x) (y ∷ run, after, ap (◌∷◌ y) e, (h, is_run), omega (arith, len))
        | inr h ↦ rw (h, d.eq y x) ([], y ∷ samples, refl, tt, refl)
      ]

  longest-HasRun : (samples : List F) → HasRun (longest samples) samples
  longest-HasRun [] = ([], [], [], refl, tt, omega arith)
  longest-HasRun (x ∷ samples) =
      let (run, after, e, is_run, len) = lead-HasRun x samples in
      let (before, run_later, after_later, e_later, is_run_later, long) = longest-HasRun samples in
      elim (Bool-cases (ltb (lead x samples) (longest samples))) [
        | inl h ↦
            (x ∷ before, run_later, after_later, ap (◌∷◌ x) e_later, is_run_later, ground arith)
        | inr h ↦ ([], x ∷ run, after, ap (◌∷◌ x) e, is_run, ground arith)
      ]

  lead_max : (x : F) (run after : List F) → IsRun (x ∷ run) → length run ≤ lead x (run ++ after)
  lead_max x [] after h = omega arith
  lead_max x (y ∷ run) after (e, h) =
      let ih = lead_max y run after h in rw (e, d.eq y x) omega arith

  longest_max :
      (before run after : List F) → IsRun run → length run ≤ longest (before ++ (run ++ after))
  longest_max [] [] after h = omega arith
  longest_max [] (x ∷ run) after h = omega (arith, lead_max x run after h)
  longest_max (x ∷ before) run after h = omega (arith, longest_max before run after h)

  HasRun-iff : (k : ℕ) (samples : List F) → HasRun k samples ↔ (k ≤ longest samples)
  HasRun-iff k samples = (
    λ (before, run, after, e, is_run, long).
        let bound = longest_max before run after is_run in
        let top = ap longest e in omega (arith, bound, top, long),
    λ h.
        let (before, run, after, e, is_run, long) = longest-HasRun samples in
        (before, run, after, e, is_run, omega (arith, h, long)),
  )

  -- On fewer than 2^32 samples and at least one, `max_run` is the length of the longest stretch of
  -- equal neighbours, and the test fails exactly if `cutoff` samples in a row are such a stretch.
  pub rct_lem :
      (samples : List F) (alpha h_bits : F)
      → 0 < length samples
      → length samples < 2 ^ 32
      → ((rct samples alpha h_bits).max_run ≡ longest samples)
        × (((rct samples alpha h_bits).passed ≡ false)
            ↔ HasRun (rct samples alpha h_bits).cutoff samples)
  unfolding rct
  rct_lem [] alpha h_bits h small = absurd (omega arith)
  rct_lem (x ∷ samples) alpha h_bits h small =
      let top : rct_loop 1 1 x samples ≡ longest (x ∷ samples) =
        rct_loop-longest 1 1 x samples (omega arith) (omega arith) (omega arith) ∙ omega arith in
      let (have, need) = HasRun-iff (rct_cutoff alpha h_bits) (x ∷ samples) in
      (
        top,
        (
          λ fails. need (ground (arith, top, fails)),
          λ found. let long = have found in ground (arith, top, long),
        ),
      )
