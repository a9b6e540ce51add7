-- ===== src/Stats/Apt/Windows.antt =====
-- The Adaptive Proportion Test against the windows of its input.
use jitterentropy_analysis_d.Prelude.{
  ℕ, zero, suc, ◌+◌, ◌*◌, ◌/◌, ◌^◌, ◌≤◌, ◌<◌, true, false, List, [], ◌∷◌, ltb, leb, ◌==◌, ◌||◌, ◌≡◌,
  refl, ap, ap₂, sym, ◌∙◌, ◌↔◌, inl, inr, arith, ==_iff, Bool-cases, subst, if◌then◌else◌, length,
  take, drop, u32, length-take,
}
use native.Mathlib.Nat.{div-add-mod', mod-lt, div-le_self, mul-le-mul_right}
use jitterentropy_analysis_d.Double.{Double}
use jitterentropy_analysis_d.Stats.Apt.{
  Tally, count_equal, window_count, test_window, apt_loop, apt_cutoff, apt,
}

module _ {F : Type 0} ⦃d : Double F⦄ where
  abbrev pub window : List F → ℕ → ℕ → List F
  window samples size i = take size (drop (i * size) samples)

  -- How often the first value of a window occurs in it.
  abbrev pub occurrences : F → List F → ℕ
  occurrences first [] = 0
  occurrences first (x ∷ xs) =
      let rest = occurrences first xs in if d.eq x first then 1 + rest else rest

  abbrev pub first_occurrences : List F → ℕ
  first_occurrences [] = 0
  first_occurrences (x ∷ xs) = occurrences x (x ∷ xs)

  -- The windows among the first `m` whose first value occurs `cutoff` times or more.
  abbrev pub failing : List F → ℕ → ℕ → ℕ → ℕ
  failing samples size cutoff zero = 0
  failing samples size cutoff (suc m) =
      (if leb cutoff (first_occurrences (window samples size m)) then 1 else 0)
      + failing samples size cutoff m

  count_equal_lem :
      (first : F) (count : ℕ) (xs : List F)
      → count + length xs < 2 ^ 32
      → count_equal first count xs ≡ count + occurrences first xs
  unfolding count_equal
  count_equal_lem first count [] h = omega arith
  count_equal_lem first count (x ∷ xs) h =
      let wraps : u32 (count + 1) ≡ count + 1 = omega arith in
      elim (Bool-cases (d.eq x first)) [
        | inl e ↦
            rw (e, d.eq x first, wraps) omega
              (arith, count_equal_lem first (count + 1) xs (omega arith))
        | inr e ↦ rw (e, d.eq x first) omega (arith, count_equal_lem first count xs (omega arith))
      ]

  window_count_lem : (xs : List F) → length xs < 2 ^ 32 → window_count xs ≡ first_occurrences xs
  unfolding window_count
  window_count_lem [] h = refl
  window_count_lem (x ∷ xs) h = count_equal_lem x 0 (x ∷ xs) (omega arith) ∙ omega arith

  failing_le : (samples : List F) (size cutoff m : ℕ) → failing samples size cutoff m ≤ m
  failing_le samples size cutoff zero = omega arith
  failing_le samples size cutoff (suc m) =
      let ih = failing_le samples size cutoff m in
      elim (Bool-cases (leb cutoff (first_occurrences (window samples size m)))) [
        | inl e ↦ rw (e, leb cutoff (first_occurrences (window samples size m))) omega arith
        | inr e ↦ rw (e, leb cutoff (first_occurrences (window samples size m))) omega arith
      ]

  -- The tally after `m` windows.
  abbrev pub tally : List F → ℕ → ℕ → ℕ → Tally
  tally samples size cutoff m = record { tested = m; failed = failing samples size cutoff m }

  test_window_lem :
      (samples : List F) (size cutoff m : ℕ)
      → size < 2 ^ 32
      → suc m < 2 ^ 32
      → test_window cutoff (tally samples size cutoff m) (window samples size m)
        ≡ tally samples size cutoff (suc m)
  test_window_lem samples size cutoff m small few =
      let w = window samples size m in
      let len = length-take size (drop (m * size) samples) in
      let count = window_count_lem w (omega (arith, len)) in
      let low = failing_le samples size cutoff m in
      let tested : u32 (m + 1) ≡ suc m = omega arith in
      let f = failing samples size cutoff m in
      let failed : u32 (f + 1) ≡ 1 + f = omega arith in
      let failed_next : (if leb cutoff (window_count w) then u32 (f + 1) else f)
          ≡ failing samples size cutoff (suc m) =
        rw (count, window_count w, failed, u32 (f + 1))
          elim (Bool-cases (leb cutoff (first_occurrences w))) [
            | inl e ↦ rw (e, leb cutoff (first_occurrences w)) refl
            | inr e ↦ rw (e, leb cutoff (first_occurrences w)) omega arith
          ] in
      ap₂ (λ a b. record { tested = a; failed = b }) tested failed_next

  apt_loop_lem :
      (fuel : ℕ) (samples : List F) (size cutoff m total : ℕ)
      → size < 2 ^ 32
      → total < 2 ^ 32
      → m ≤ total
      → total ≤ m + fuel
      → total * size ≤ length samples
      → length samples < total * size + size
      → apt_loop fuel samples size cutoff (m * size) (tally samples size cutoff m)
        ≡ tally samples size cutoff total
  unfolding apt_loop
  apt_loop_lem zero samples size cutoff m total small few le enough fits full =
      ap (tally samples size cutoff) (omega arith)
  apt_loop_lem (suc fuel) samples size cutoff m total small few le enough fits full =
      elim (Bool-cases (m == total)) [
        | inl e ↦
            let here : m ≡ total = ground arith in
            let start = ap (λ k. k * size) here in
            let past : leb (m * size + size) (length samples) ≡ false = ground arith in
            rw (past, leb (m * size + size) (length samples)) (ap (tally samples size cutoff) here)
        | inr e ↦
            let before : suc m ≤ total = ground arith in
            let within : leb (m * size + size) (length samples) ≡ true =
              let top = mul-le-mul_right size before in ground arith in
            let next : m * size + size ≡ suc m * size = omega arith in
            let ih : apt_loop fuel samples size cutoff (suc m * size)
                  (tally samples size cutoff (suc m))
                ≡ tally samples size cutoff total =
              apt_loop_lem fuel samples size cutoff (suc m) total small few before (omega arith)
                fits full in
            rw (within, leb (m * size + size) (length samples))
              (ap₂ (apt_loop fuel samples size cutoff) next
                  (test_window_lem samples size cutoff m small (omega arith))
                ∙ ih)
      ]

  failing-none :
      (samples : List F) (size cutoff m : ℕ)
      → (failing samples size cutoff m ≡ 0)
        ↔ ((i : ℕ) → i < m → first_occurrences (window samples size i) < cutoff)
  failing-none samples size cutoff zero = (λ e i h. absurd (omega arith), λ all. refl)
  failing-none samples size cutoff (suc m) =
      let (have, need) = failing-none samples size cutoff m in
      let w = first_occurrences (window samples size m) in
      elim (Bool-cases (leb cutoff w)) [
        | inl e ↦
            rw (e, leb cutoff w)
              (
                λ none_. absurd (omega (arith, none_)),
                λ all. let below = all m (omega arith) in absurd (ground (arith, e, below)),
              )
        | inr e ↦
            let below : w < cutoff = ground arith in
            rw (e, leb cutoff w)
              (
                λ none_ i h. elim (Bool-cases (i == m)) [
                  | inl here ↦
                      let at : i ≡ m = ground arith in
                      subst (λ j. first_occurrences (window samples size j) < cutoff) (sym at) below
                  | inr there ↦ have (omega (arith, none_)) i (ground arith)
                ],
                λ all. omega (arith, need (λ i h. all i (omega (arith, h)))),
              )
      ]

  windows_fit :
      (samples : List F) (size : ℕ)
      → 0 < size
      → (length samples / size * size ≤ length samples)
        × (length samples < length samples / size * size + size)
        × (length samples / size ≤ length samples)
  windows_fit samples size h =
      let n = length samples in
      let split = div-add-mod' n size in
      let low = mod-lt n h in (omega (arith, split), omega (arith, split, low), div-le_self n size)

  -- For a window size given as an `unsigned int` (0 stands for 512) and at least one full window of
  -- samples, fewer than 2^32 windows: all `n / size` full windows are tested, the failures are those
  -- whose first value occurs `cutoff` times or more in the window, and the test passes exactly if in
  -- every window it occurs less often.
  pub apt_lem :
      (samples : List F) (window_size size : ℕ) (alpha h_bits : F)
      → size ≡ (if window_size == 0 then 512 else window_size)
      → window_size < 2 ^ 32
      → size ≤ length samples
      → length samples / size < 2 ^ 32
      → let r = apt samples window_size alpha h_bits in
        (r.windows_tested ≡ length samples / size)
        × (r.windows_failed ≡ failing samples size r.cutoff (length samples / size))
        × ((r.passed ≡ true) ↔ (
            (i : ℕ)
            → i < length samples / size
            → first_occurrences (window samples size i) < r.cutoff))
  unfolding apt
  apt_lem samples window_size size alpha h_bits e word full few =
      let positive : 0 < size = ground arith in
      let some_samples : (length samples == 0 || ltb (length samples) size) ≡ false =
        ground arith in
      let (fits, full_all, few_all) = windows_fit samples size positive in
      let c = apt_cutoff size alpha h_bits in
      let n = length samples / size in
      let t : apt_loop (length samples) samples size c 0 (tally samples size c 0)
          ≡ tally samples size c n =
        subst
          (λ start.
            apt_loop (length samples) samples size c start (tally samples size c 0)
            ≡ tally samples size c n)
          (omega arith)
          (apt_loop_lem (length samples) samples size c 0 n (ground arith) few (omega arith)
            (omega (arith, few_all)) fits full_all) in
      let (none_failed, all_fine) = failing-none samples size c n in
      rw (sym e, some_samples, t)
        (
          refl,
          refl,
          (
            λ passed. none_failed ((==_iff (failing samples size c n) 0).0 passed),
            λ all. rw (all_fine all) refl,
          ),
        )
