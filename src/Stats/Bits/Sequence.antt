-- ===== src/Stats/Bits/Sequence.antt =====
-- The loops over bytes and bits against the sequence of the bits.
use mathlib.Core.List.{foldl, foldl-append}
use jitterentropy_analysis_d.Prelude.{
  ℕ, zero, suc, ◌+◌, ◌*◌, ◌≤◌, ◌<◌, false, some, List, [], ◌∷◌, ◌++◌, ◌≡◌, refl, ap, sym, ◌∙◌,
  arith, ltb, ◌==◌, if◌then◌else◌, length, Bool-cases, inl, inr, length-append,
}
use jitterentropy_analysis_d.Double.{Double}
use jitterentropy_analysis_d.Stats.Histogram.Counts.{sum}
use jitterentropy_analysis_d.Stats.Bits.{
  bit_at, add_bits, count_ones, RunState, run_bit, run_bits, run_bytes, run_start, monobit, runs,
}

-- `left` bits of a byte from place `bit` on, and all bits of a buffer.
abbrev pub byte_bits : ℕ → ℕ → ℕ → List ℕ
byte_bits b bit zero = []
byte_bits b bit (suc left) = bit_at b bit ∷ byte_bits b (bit + 1) left

abbrev pub bits : List ℕ → List ℕ
bits [] = []
bits (b ∷ bytes) = byte_bits b 0 8 ++ bits bytes

-- The neighbours that differ, in a sequence behind `prev`.
abbrev pub changes : ℕ → List ℕ → ℕ
changes prev [] = 0
changes prev (b ∷ s) = (if b == prev then 0 else 1) + changes b s

-- The number of runs of SP 800-22, 2.3: one more than the neighbours that differ.
abbrev pub run_count : List ℕ → ℕ
run_count [] = 0
run_count (b ∷ s) = 1 + changes b s

add_bits-sum : (ones b bit left : ℕ) → add_bits ones b bit left ≡ ones + sum (byte_bits b bit left)
unfolding add_bits
add_bits-sum ones b bit zero = omega arith
add_bits-sum ones b bit (suc left) =
    omega (arith, add_bits-sum (ones + bit_at b bit) b (bit + 1) left)

pub sum-append : (s t : List ℕ) → sum (s ++ t) ≡ sum s + sum t
sum-append [] t = omega arith
sum-append (x ∷ s) t = omega (arith, sum-append s t)

count_ones-sum : (ones : ℕ) (bytes : List ℕ) → count_ones ones bytes ≡ ones + sum (bits bytes)
unfolding count_ones
count_ones-sum ones [] = omega arith
count_ones-sum ones (b ∷ bytes) =
    let eight = byte_bits b 0 8 in
    count_ones-sum (add_bits ones b 0 8) bytes
    ∙ omega (arith, add_bits-sum ones b 0 8, sum-append eight (bits bytes))

run_bits-foldl :
    (s : RunState) (b bit left : ℕ) → run_bits s b bit left ≡ foldl run_bit s (byte_bits b bit left)
unfolding run_bits
run_bits-foldl s b bit zero = refl
run_bits-foldl s b bit (suc left) = run_bits-foldl (run_bit s (bit_at b bit)) b (bit + 1) left

run_bytes-foldl : (s : RunState) (bytes : List ℕ) → run_bytes s bytes ≡ foldl run_bit s (bits bytes)
unfolding run_bytes
run_bytes-foldl s [] = refl
run_bytes-foldl s (b ∷ bytes) =
    run_bytes-foldl (run_bits s b 0 8) bytes
    ∙ ap (λ t. foldl run_bit t (bits bytes)) (run_bits-foldl s b 0 8)
    ∙ sym (foldl-append run_bit s (byte_bits b 0 8) (bits bytes))

next_observed :
    (s : RunState) (prev b : ℕ)
    → s.prev_bit ≡ some prev
    → (run_bit s b).observed ≡ s.observed + (if b == prev then 0 else 1)
next_observed s prev b h =
    rw (h, s.prev_bit)
      elim (Bool-cases (b == prev)) [
        | inl e ↦ rw (e, b == prev) omega arith
        | inr e ↦ rw (e, b == prev) omega arith
      ]

-- The state after a sequence, from one that has a previous bit.
run_state_after :
    (s : RunState) (prev : ℕ) (seq : List ℕ)
    → s.prev_bit ≡ some prev
    → ((foldl run_bit s seq).run_ones ≡ s.run_ones + sum seq)
      × ((foldl run_bit s seq).observed ≡ s.observed + changes prev seq)
run_state_after s prev [] h = (omega arith, omega arith)
run_state_after s prev (b ∷ seq) h =
    let (ones, observed) = run_state_after (run_bit s b) b seq refl in
    (omega (arith, ones), omega (arith, observed, next_observed s prev b h))

run_state_of :
    (seq : List ℕ)
    → ((foldl run_bit run_start seq).run_ones ≡ sum seq)
      × ((foldl run_bit run_start seq).observed ≡ run_count seq)
run_state_of [] = (refl, refl)
run_state_of (b ∷ seq) =
    let (ones, observed) = run_state_after (run_bit run_start b) b seq refl in
    (omega (arith, ones), omega (arith, observed))

changes_le : (prev : ℕ) (seq : List ℕ) → changes prev seq ≤ length seq
changes_le prev [] = omega arith
changes_le prev (b ∷ seq) =
    let rest = changes_le b seq in
    elim (Bool-cases (b == prev)) [
      | inl e ↦ rw (e, b == prev) omega arith
      | inr e ↦ rw (e, b == prev) omega arith
    ]

length-bits : (bytes : List ℕ) → length (bits bytes) ≡ length bytes * 8
length-bits [] = omega arith
length-bits (b ∷ bytes) =
    omega (arith, length-append (byte_bits b 0 8) (bits bytes), length-bits bytes)

run_count_bounds :
    (bytes : List ℕ)
    → 0 < length bytes
    → (1 ≤ run_count (bits bytes)) × (run_count (bits bytes) ≤ length bytes * 8)
run_count_bounds [] h = absurd (omega arith)
run_count_bounds (b ∷ bytes) h =
    let rest = byte_bits b 1 7 ++ bits bytes in
    let most = changes_le (bit_at b 0) rest in
    let all = length-bits (b ∷ bytes) in (omega arith, omega arith)

module _ (F : Type 0) ⦃d : Double F⦄ where
  monobit_ones :
      (bytes : List ℕ) → 0 < length bytes → (monobit {F = F} bytes).ones ≡ sum (bits bytes)
  unfolding monobit
  monobit_ones bytes h =
      let some_bits : (length bytes * 8 == 0) ≡ false = ground arith in
      rw (some_bits, length bytes * 8 == 0) omega (arith, count_ones-sum 0 bytes)

  runs_counts :
      (bytes : List ℕ)
      → 0 < length bytes
      → ((runs {F = F} bytes).ones ≡ sum (bits bytes))
        × ((runs {F = F} bytes).observed_runs ≡ run_count (bits bytes))
  unfolding runs
  runs_counts bytes h =
      let some_bits : ltb (length bytes * 8) 2 ≡ false = ground arith in
      let (ones, observed) = run_state_of (bits bytes) in
      let e = run_bytes-foldl run_start bytes in
      rw (some_bits, ltb (length bytes * 8) 2)
        (ap (λ s. s.run_ones) e ∙ ones, ap (λ s. s.observed) e ∙ observed)

  -- On data that has a byte, `monobit` and `runs` both report as ones the sum of the bits, lowest bit
  -- of each byte first, and `runs` reports the runs of that sequence of bits (one more than its
  -- neighbours that differ), which are at least one and at most eight for each byte.
  pub runs_lem :
      (bytes : List ℕ)
      → 0 < length bytes
      → ((monobit {F = F} bytes).ones ≡ sum (bits bytes))
        × ((runs {F = F} bytes).ones ≡ sum (bits bytes))
        × ((runs {F = F} bytes).observed_runs ≡ run_count (bits bytes))
        × (1 ≤ (runs {F = F} bytes).observed_runs)
        × ((runs {F = F} bytes).observed_runs ≤ length bytes * 8)
  runs_lem bytes h =
      let (ones, observed) = runs_counts bytes h in
      let (least, most) = run_count_bounds bytes h in
      (monobit_ones bytes h, ones, observed, omega (arith, observed), omega (arith, observed))
