-- ===== src/Ring/Holds.antt =====
-- A ring holds the last samples of the log of all that was pushed.
use native.Mathlib.Nat.{mod-eq_of_lt, mod-eq-sub-mod}
use native.Mathlib.Decide.{dec_lt}
use jitterentropy_analysis_d.Prelude.{
  ℕ, zero, suc, ◌+◌, ◌-◌, ◌%◌, ◌^◌, ◌≤◌, ◌<◌, min, false, List, [], ◌∷◌, reverse, ◌≡◌, ◌≢◌, refl,
  ap, ap₂, sym, ◌∙◌, arith, ltb, lt→ltb, take_clip, ◌==◌, if◌then◌else◌, length, get_or, set, take,
  length-set, length-replicate, get_or-set_self, get_or-set_ne, reverse-take-suc,
}
use jitterentropy_analysis_d.Ring.{
  Ring, sub_size, empty, push, copy_out, start_idx, count_to_copy, snapshot,
}

-- The slot written `i` pushes before the last one.
abbrev pub back : ℕ → ℕ → ℕ → ℕ
back size w i = if ltb i w then w - 1 - i else w + size - 1 - i

-- `log` is the newest sample first.
pub record Holds {A : Type 0} (size : ℕ) (blank : A) (log : List A) (r : Ring A) : Type 0 where
  pub sized : length r.slots ≡ size
  pub index_in : r.write_index < size
  pub counted : r.samples_written ≡ min (length log) size
  pub unwrapped : r.samples_written < size → r.write_index ≡ r.samples_written
  pub recent :
      (i : ℕ)
      → i < r.samples_written
      → get_or r.slots (back size r.write_index i) blank ≡ get_or log i blank

mod_wrap : (a size : ℕ) → a < size + size → a % size ≡ (if ltb a size then a else a - size)
mod_wrap a size h = elim (dec_lt a size) [
  | yes p ↦ rw (mod-eq_of_lt p) (ground arith)
  | no p ↦
      rw (mod-eq-sub-mod {n = a} {m = size} (omega arith))
        (rw (mod-eq_of_lt {n = a - size} {m = size} (omega arith)) (ground arith))
]

back_next_zero : (size w : ℕ) → w < size → back size ((w + 1) % size) 0 ≡ w
back_next_zero size w h = rw (mod_wrap (w + 1) size (omega arith)) (ground arith)

back_next_suc :
    (size w i : ℕ) → w < size → suc i < size → back size ((w + 1) % size) (suc i) ≡ back size w i
back_next_suc size w i h k = rw (mod_wrap (w + 1) size (omega arith)) (ground arith)

back-ne : (size w i : ℕ) → w < size → suc i < size → back size w i ≢ w
back-ne size w i h k = ground arith

start_idx_full :
    (size w i k : ℕ)
    → w < size
    → i + suc k ≤ size
    → ((w + size - (i + suc k)) % size + i) % size ≡ back size w k
start_idx_full size w i k h l =
    let first = mod_wrap (w + size - (i + suc k)) size (omega arith) in
    let a =
      if ltb (w + size - (i + suc k)) size
      then w + size - (i + suc k)
      else w + size - (i + suc k) - size in
    let small : a < size = ground arith in
    rw first (rw (mod_wrap (a + i) size (omega arith)) (ground arith))

start_idx_part :
    (size w i k : ℕ)
    → size ≤ 2 ^ 32
    → w < size
    → i + suc k ≤ w
    → (sub_size w (i + suc k) + i) % size ≡ back size w k
start_idx_part size w i k s h l =
    let exact : sub_size w (i + suc k) ≡ w - (i + suc k) = omega arith in
    rw (exact, mod_wrap (w - (i + suc k) + i) size (omega arith)) (ground arith)

module _ {A : Type 0} (size : ℕ) (blank : A) where
  -- A zeroed ring holds the empty log.
  pub empty-Holds : 0 < size → Holds size blank [] (empty size blank)
  unfolding empty
  empty-Holds h = record {
    sized = length-replicate size blank;
    index_in = h;
    counted = omega arith;
    unwrapped = λ _. refl;
    recent = λ i l. absurd (omega arith);
  }

  push_recent :
      {log : List A} {r : Ring A} (v : A)
      → Holds size blank log r
      → (n : ℕ) → (n ≤ r.samples_written + 1) × (n ≤ size)
      → (i : ℕ) → i < n
      → get_or (set r.slots r.write_index v) (back size ((r.write_index + 1) % size) i) blank
        ≡ get_or (v ∷ log) i blank
  push_recent {log} {r} v h n b zero l =
      rw (back_next_zero size r.write_index h.index_in)
        (get_or-set_self r.slots r.write_index v blank (ground (arith, h.sized, h.index_in)))
  push_recent {log} {r} v h n b (suc i) l =
      rw (back_next_suc size r.write_index i h.index_in (omega arith)) (
        get_or-set_ne r.slots r.write_index (back size r.write_index i) v blank
          (λ e. back-ne size r.write_index i h.index_in (omega arith) (sym e))
        ∙ h.recent i (omega arith))

  -- A push puts the sample in front of the log.
  pub push-Holds :
      {log : List A} {r : Ring A} (v : A)
      → Holds size blank log r
      → Holds size blank (v ∷ log) (push size r v)
  unfolding push
  push-Holds {log} {r} v h = record {
    sized = length-set r.slots r.write_index v ∙ h.sized;
    index_in = ground (arith, mod_wrap (r.write_index + 1) size, h.index_in);
    counted = ground (arith, h.counted);
    unwrapped = λ l. ground (arith, mod_wrap (r.write_index + 1) size, h.index_in, h.unwrapped);
    recent =
        push_recent v h
          (if ltb r.samples_written size then r.samples_written + 1 else r.samples_written)
          (ground (arith, h.counted));
  }

  -- The slots are read from the oldest of the samples asked for to the newest.
  start_idx-back :
      {log : List A} {r : Ring A}
      → size ≤ 2 ^ 32
      → Holds size blank log r
      → (i k : ℕ) → i + suc k ≤ r.samples_written
      → (start_idx size r (i + suc k) + i) % size ≡ back size r.write_index k
  unfolding start_idx
  start_idx-back {log} {r} s h i k l = elim (dec_lt r.samples_written size) [
    | yes p ↦
        let w : r.write_index ≡ r.samples_written = h.unwrapped p in
        rw (lt→ltb r.samples_written size p)
          (start_idx_part size r.write_index i k s h.index_in (omega arith))
    | no p ↦
        let f : ltb r.samples_written size ≡ false = ground arith in
        rw f (start_idx_full size r.write_index i k h.index_in (omega (arith, h.counted)))
  ]

  copy_out-reverse :
      {log : List A} {r : Ring A}
      → size ≤ 2 ^ 32
      → Holds size blank log r
      → (i left : ℕ) → i + left ≤ r.samples_written
      → copy_out size blank r (start_idx size r (i + left)) i left ≡ reverse (take left log)
  unfolding copy_out
  copy_out-reverse s h i zero l = refl
  copy_out-reverse {log} {r} s h i (suc k) l =
      ap₂ ◌∷◌
        (ap (λ j. get_or r.slots j blank) (start_idx-back s h i k l) ∙ h.recent k (omega arith))
        (ap (λ c. copy_out size blank r (start_idx size r c) (i + 1) k) (omega arith)
          ∙ copy_out-reverse s h (i + 1) k (omega arith))
      ∙ sym (reverse-take-suc k log blank (omega (arith, h.counted)))

  skip_nothing :
      (r : Ring A) (c : ℕ)
      → (if c == 0 then [] else copy_out size blank r (start_idx size r c) 0 c)
        ≡ copy_out size blank r (start_idx size r (0 + c)) 0 c
  unfolding copy_out
  skip_nothing r zero = refl
  skip_nothing r (suc c) =
      let z : suc c ≡ 0 + suc c = omega arith in
      let f : (suc c == 0) ≡ false = ground arith in
      rw f (ap (λ k. copy_out size blank r (start_idx size r k) 0 (suc c)) z)

  snapshot-copy_out :
      (r : Ring A) (m : ℕ)
      → snapshot size blank r m
        ≡ copy_out size blank r (start_idx size r (0 + count_to_copy r m)) 0 (count_to_copy r m)
  unfolding snapshot
  snapshot-copy_out r m = skip_nothing r (count_to_copy r m)

  -- A snapshot is the last samples of the log, as many as were asked for and the ring keeps, oldest
  -- first.
  pub snapshot_lem :
      {log : List A} {r : Ring A}
      → size ≤ 2 ^ 32
      → Holds size blank log r
      → (max_count : ℕ) → snapshot size blank r max_count ≡ reverse (take (min max_count size) log)
  unfolding snapshot
  snapshot_lem {log} {r} s h m =
      snapshot-copy_out r m
      ∙ copy_out-reverse s h 0 (count_to_copy r m) (ground arith)
      ∙ ap reverse (take_clip (min m size) (count_to_copy r m) log (ground (arith, h.counted)))
