-- ===== src/Bridge/Object/Rounds.antt =====
-- One round of the loop over the members: what it reads, and what it leaves.
use jitterentropy_analysis_d.Prelude.{
  ℕ, ◌≤◌, ◌<◌, false, [], ◌∷◌, ◌++◌, some, ◌≡◌, ◌⊎◌, refl, inl, inr, arith, ◌==◌, Bool-cases,
  Option-cases, length, >>=-eq-some,
}
use jitterentropy_analysis_d.Bridge.Text.{Bytes, skip_ws, parse_string}
use jitterentropy_analysis_d.Bridge.Text.Rest.{length-skip_ws, length-parse_string}
use jitterentropy_analysis_d.Bridge.Object.{
  Value, Object, has, raw_token, string_value, raw_value, parse_value, expect, parse_member, Follow,
  comma, brace, other, follow, Round, more, finished, refused, add_member, round,
}

length-raw_token : (s : Bytes) → length (raw_token s).1 ≤ length s
unfolding raw_token
length-raw_token [] = omega arith
length-raw_token (c ∷ s) = ground (arith, length-raw_token s)

length-parse_value :
    (s : Bytes) {v : Value} {rest : Bytes} → parse_value s ≡ some (v, rest) → length rest ≤ length s
unfolding parse_value string_value raw_value
length-parse_value [] h = cc
length-parse_value (c ∷ s) {rest = rest} h = elim (Bool-cases (c == b'"')) [
  | inl q ↦
      let ((t, r), p, e) = >>=-eq-some (parse_string (c ∷ s)) _ (rw (q, parse_value) at h) in
      ground (arith, length-parse_string (c ∷ s) t r p)
  | inr q ↦ ground (arith, length-raw_token (c ∷ s))
]

length-expect : (b : ℕ) (s : Bytes) {rest : Bytes} → expect b s ≡ some rest → length rest < length s
unfolding expect
length-expect b [] h = cc
length-expect b (c ∷ s) h = ground arith

pub length-parse_member :
    (s : Bytes) {key rest : Bytes} {v : Value}
    → parse_member s ≡ some (key, v, rest)
    → length rest < length s
unfolding parse_member
length-parse_member s h =
    let (a, p, h₁) = >>=-eq-some (parse_string (skip_ws s)) _ h in
    let (s₂, q, h₂) = >>=-eq-some (expect b':' (skip_ws a.1)) _ h₁ in
    let (b, r, h₃) = >>=-eq-some (parse_value (skip_ws s₂)) _ h₂ in
    ground (
      arith,
      length-skip_ws s,
      length-parse_string (skip_ws s) a.0 a.1 p,
      length-skip_ws a.1,
      length-expect b':' (skip_ws a.1) q,
      length-skip_ws s₂,
      length-parse_value (skip_ws s₂) r,
    )

length-follow :
    (s rest : Bytes) → (follow s ≡ comma rest) ⊎ (follow s ≡ brace rest) → length rest < length s
unfolding follow
length-follow [] rest h = ground arith
length-follow (c ∷ s) rest h = ground arith

-- The outcomes of a round, each with what it says of the text.
pub data RoundOf (o : Object) (s : Bytes) : Round → Type 0 where
  refuses : RoundOf o s refused
  adds :
      (key : Bytes) (v : Value) (s' rest : Bytes)
      → parse_member s ≡ some (key, v, s')
      → has key o ≡ false
      → follow (skip_ws s') ≡ comma rest
      → RoundOf o s (more (o ++ (key, v) ∷ []) rest)
  ends :
      (key : Bytes) (v : Value) (s' rest : Bytes)
      → parse_member s ≡ some (key, v, s')
      → has key o ≡ false
      → follow (skip_ws s') ≡ brace rest
      → RoundOf o s (finished (o ++ (key, v) ∷ []) rest)

add_member-RoundOf :
    {o : Object} {s : Bytes} (key : Bytes) (v : Value) (s' : Bytes) (f : Follow)
    → parse_member s ≡ some (key, v, s')
    → has key o ≡ false
    → follow (skip_ws s') ≡ f
    → RoundOf o s (add_member o key v f)
unfolding add_member
add_member-RoundOf key v s' (comma rest) p d e = adds key v s' rest p d e
add_member-RoundOf key v s' (brace rest) p d e = ends key v s' rest p d e
add_member-RoundOf key v s' other p d e = refuses

pub round-RoundOf : (o : Object) (s : Bytes) → RoundOf o s (round o s)
unfolding round
round-RoundOf o s = elim (Option-cases (parse_member s)) [
  | inl n ↦ rw (n, round) refuses
  | inr ((key, v, s'), p) ↦
      rw (p, round)
        (elim (Bool-cases (has key o)) [
          | inl d ↦ rw d refuses
          | inr d ↦ rw d (add_member-RoundOf key v s' (follow (skip_ws s')) p d refl)
        ])
]

pub length-round :
    (o : Object) (s : Bytes) {o' : Object} {rest : Bytes}
    → round o s ≡ more o' rest
    → length rest < length s
length-round o s h = go (round o s) (round-RoundOf o s) h
  where
    go :
        (r : Round)
        → RoundOf o s r
        → {o' : Object} {rest : Bytes} → r ≡ more o' rest
        → length rest < length s
    go _ refuses h = cc
    go _ (adds key v s' rest' p d e) h = ground (
      arith,
      length-parse_member s p,
      length-skip_ws s',
      length-follow (skip_ws s') rest' (inl e),
    )
    go _ (ends key v s' rest' p d e) h = cc
