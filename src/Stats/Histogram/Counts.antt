-- ===== src/Stats/Histogram/Counts.antt =====
-- The histogram counts: each byte value, and all of them together.
use jitterentropy_analysis_d.Prelude.{
  ℕ, zero, suc, ◌+◌, ◌^◌, ◌≤◌, ◌<◌, some, List, [], ◌∷◌, ◌≡◌, refl, ◌∙◌, arith, ◌==◌, ==_iff,
  Bool-cases, inl, inr, if◌then◌else◌, u64, length, get_or, set, replicate, All, length-set,
  get_or-set_self, get_or-set_ne, get_or-replicate,
}
use jitterentropy_analysis_d.Stats.Histogram.{bins, count_byte, count_bytes, histogram}

-- How often a value stands in a list.
abbrev pub count : ℕ → List ℕ → ℕ
count v [] = 0
count v (b ∷ bytes) = (if b == v then 1 else 0) + count v bytes

abbrev pub sum : List ℕ → ℕ
sum [] = 0
sum (c ∷ counts) = c + sum counts

abbrev pub AreBytes : List ℕ → Type 0
AreBytes = All (λ b. b < 256)

pub count-le-length : (v : ℕ) (bytes : List ℕ) → count v bytes ≤ length bytes
count-le-length v [] = omega arith
count-le-length v (b ∷ bytes) = ground (arith, count-le-length v bytes)

length-count_bytes : (counts bytes : List ℕ) → length (count_bytes counts bytes) ≡ length counts
unfolding count_bytes
length-count_bytes counts [] = refl
length-count_bytes counts (b ∷ bytes) =
    length-count_bytes (count_byte counts b) bytes ∙ length-set counts b _

get_or-count_byte :
    (counts : List ℕ) (b v : ℕ)
    → v < length counts
    → get_or counts v 0 < 2 ^ 64
    → get_or (count_byte counts b) v 0 ≡ u64 (get_or counts v 0 + (if b == v then 1 else 0))
get_or-count_byte counts b v l s = elim (Bool-cases (b == v)) [
  | inl e ↦ let same : b ≡ v = (==_iff b v).0 e in rw (e, same) (get_or-set_self counts v _ 0 l)
  | inr n ↦ rw n (get_or-set_ne counts b v _ 0 (λ e. ground arith) ∙ omega arith)
]

get_or-count_bytes :
    (counts bytes : List ℕ) (v : ℕ)
    → v < length counts
    → get_or counts v 0 < 2 ^ 64
    → get_or (count_bytes counts bytes) v 0 ≡ u64 (get_or counts v 0 + count v bytes)
unfolding count_bytes
get_or-count_bytes counts [] v l s = omega arith
get_or-count_bytes counts (b ∷ bytes) v l s =
    let step = get_or-count_byte counts b v l s in
    let more =
      get_or-count_bytes (count_byte counts b) bytes v
        (omega (arith, length-set counts b (u64 (get_or counts b 0 + 1)))) (omega arith) in
    omega arith

sum-set :
    (counts : List ℕ) (i v : ℕ)
    → i < length counts
    → sum (set counts i v) + get_or counts i 0 ≡ sum counts + v
sum-set [] i v l = absurd (omega arith)
sum-set (c ∷ counts) zero v l = omega arith
sum-set (c ∷ counts) (suc i) v l = omega (arith, sum-set counts i v (omega arith))

get_or-le-sum : (counts : List ℕ) (i : ℕ) → get_or counts i 0 ≤ sum counts
get_or-le-sum [] i = omega arith
get_or-le-sum (c ∷ counts) zero = omega arith
get_or-le-sum (c ∷ counts) (suc i) = omega (arith, get_or-le-sum counts i)

sum-count_bytes :
    (counts bytes : List ℕ)
    → All (λ b. b < length counts) bytes
    → sum counts + length bytes < 2 ^ 64
    → sum (count_bytes counts bytes) ≡ sum counts + length bytes
unfolding count_bytes
sum-count_bytes counts [] a s = omega arith
sum-count_bytes counts (b ∷ bytes) (l, a) s =
    let small = get_or-le-sum counts b in
    let step = sum-set counts b (u64 (get_or counts b 0 + 1)) l in
    let len = length-set counts b (u64 (get_or counts b 0 + 1)) in
    let more = sum-count_bytes (count_byte counts b) bytes (rw len a) (omega arith) in omega arith

pub sum-replicate : (n : ℕ) → sum (replicate n 0) ≡ 0
sum-replicate zero = refl
sum-replicate (suc n) = omega (arith, sum-replicate n)

-- The histogram of a buffer has 256 bins; each holds the number of occurrences of its byte value,
-- and together they add up to the total, which is the number of bytes.
pub histogram-count :
    (bytes : List ℕ)
    → AreBytes bytes
    → length bytes < 2 ^ 64
    → let h = histogram (some bytes) in
      (length h.counts ≡ 256)
      × ((v : ℕ) → v < 256 → get_or h.counts v 0 ≡ count v bytes)
      × (sum h.counts ≡ h.total)
      × (h.total ≡ length bytes)
unfolding histogram
histogram-count bytes a s = (
  length-count_bytes (replicate bins 0) bytes,
  λ v l. omega (
    arith,
    get_or-count_bytes (replicate bins 0) bytes v l
        (rw (get_or-replicate {A = ℕ} bins v 0) (omega arith)),
    get_or-replicate {A = ℕ} bins v 0,
    count-le-length v bytes,
  ),
  sum-count_bytes (replicate bins 0) bytes a (omega arith) ∙ omega arith,
  refl,
)
