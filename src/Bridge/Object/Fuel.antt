-- ===== src/Bridge/Object/Fuel.antt =====
-- The loop over the members reads at least one byte each round, so that it ends, within the fuel given to
-- it.
use jitterentropy_analysis_d.Prelude.{
  ℕ, zero, suc, ◌+◌, ◌≤◌, ◌<◌, Option, none, some, ◌≡◌, ◌⊎◌, inl, inr, refl, arith, length,
}
use jitterentropy_analysis_d.Bridge.Text.{Bytes}
use jitterentropy_analysis_d.Bridge.Object.{Object, Round, more, finished, refused, round, members}
use jitterentropy_analysis_d.Bridge.Object.Rounds.{length-round}

Round-cases :
    (r : Round)
    → (r ≡ refused) ⊎ ((o : Object) × (s : Bytes) × ((r ≡ more o s) ⊎ (r ≡ finished o s)))
Round-cases (more o s) = inr (o, s, inl refl)
Round-cases (finished o s) = inr (o, s, inr refl)
Round-cases refused = inl refl

-- The loop over the members, as the source has it: from `o` and `s` it ends with this result, after so many
-- rounds.
pub data Loops : ℕ → Object → Bytes → Option (Object × Bytes) → Type 0 where
  stops : {o : Object} {s : Bytes} → round o s ≡ refused → Loops 1 o s none
  ends :
      {o o' : Object} {s rest : Bytes}
      → round o s ≡ finished o' rest
      → Loops 1 o s (some (o', rest))
  goes_on :
      {n : ℕ} {o o' : Object} {s rest : Bytes} {result : Option (Object × Bytes)}
      → round o s ≡ more o' rest
      → Loops n o' rest result
      → Loops (suc n) o s result

-- The loop over the members of an object always ends, after at most one round more than the text has bytes,
-- and with that much fuel or more the result is that of the loop, and not of fuel that ran out.
pub members_fuel :
    (f : ℕ) (o : Object) (s : Bytes)
    → length s < f
    → (n : ℕ) × (n ≤ length s + 1) × Loops n o s (members f o s)
unfolding members
members_fuel zero o s hf = absurd (omega arith)
members_fuel (suc f) o s hf = elim (Round-cases (round o s)) [
  | inl r ↦ rw (r, members) (1, omega arith, stops r)
  | inr (o', rest, inl r) ↦
      let l = length-round o s r in
      let (n, bound, loops) = members_fuel f o' rest (omega arith) in
      rw (r, members) (suc n, omega arith, goes_on r loops)
  | inr (o', rest, inr r) ↦ rw (r, members) (1, omega arith, ends r)
]
