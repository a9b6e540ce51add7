-- ===== src/Bridge/Object/Keys.antt =====
-- What `ParseFlatObject` returns: distinct keys, and as values quoted texts or tokens, of which only the
-- first byte is checked.
use mathlib.Core.List.{append-nil, append_assoc}
use jitterentropy_analysis_d.Prelude.{
  ℕ, zero, suc, Bool, true, false, [], ◌∷◌, ◌++◌, Option, none, some, ◌≡◌, ◌⊎◌, inl, inr, subst,
  arith, ◌==◌, Bool-cases, length, >>=-eq-some, All,
}
use jitterentropy_analysis_d.Bridge.Text.{Bytes, skip_ws, parse_string}
use jitterentropy_analysis_d.Bridge.Object.{
  Value, Object, has, ends_token, raw_token, token_ok, string_value, raw_value, parse_value, expect,
  parse_member, Follow, comma, brace, other, follow, Round, more, finished, refused, round, members,
  object_body, parse_flat_object,
}
use jitterentropy_analysis_d.Bridge.Object.Rounds.{RoundOf, refuses, adds, ends, round-RoundOf}

-- No key of the second list stands in the first one or before itself.
abbrev pub DistinctAfter : Object → Object → Type 0
DistinctAfter a [] = Unit
DistinctAfter a ((k, v) ∷ o) = (has k a ≡ false) × DistinctAfter (a ++ (k, v) ∷ []) o

abbrev pub Distinct : Object → Type 0
Distinct = DistinctAfter []

DistinctAfter-append :
    (a o : Object) (k : Bytes) (v : Value)
    → DistinctAfter a o
    → has k (a ++ o) ≡ false
    → DistinctAfter a (o ++ (k, v) ∷ [])
DistinctAfter-append a [] k v d h = (rw append-nil at h, tt)
DistinctAfter-append a ((j, w) ∷ o) k v (e, d) h =
    (e, DistinctAfter-append (a ++ (j, w) ∷ []) o k v d (rw append_assoc h))

abbrev pub is_quoted : Bytes → Bool
is_quoted [] = false
is_quoted (c ∷ s) = c == b'"'

-- A token that `ParseFlatObject` takes whole as the value of a member.
pub record IsToken (t : Bytes) : Type 0 where
  pub accepted : token_ok t ≡ true
  pub unquoted : is_quoted t ≡ false
  pub unbroken : All (λ c. ends_token c ≡ false) t

abbrev pub IsScalar : Value → Type 0
IsScalar v = (v.is_string ≡ true) ⊎ IsToken v.text

raw_token-unbroken : (s : Bytes) → All (λ c. ends_token c ≡ false) (raw_token s).0
unfolding raw_token
raw_token-unbroken [] = tt
raw_token-unbroken (c ∷ s) = elim (Bool-cases (ends_token c)) [
  | inl e ↦ rw (e, raw_token) tt
  | inr e ↦ rw (e, raw_token) (e, raw_token-unbroken s)
]

raw_token-unquoted :
    (c : ℕ) (s : Bytes) → (c == b'"') ≡ false → is_quoted (raw_token (c ∷ s)).0 ≡ false
unfolding raw_token
raw_token-unquoted c s h = ground arith

parse_value-IsScalar :
    (s : Bytes) {v : Value} {rest : Bytes} → parse_value s ≡ some (v, rest) → IsScalar v
unfolding parse_value string_value raw_value
parse_value-IsScalar [] h = cc
parse_value-IsScalar (c ∷ s) {v} h = elim (Bool-cases (c == b'"')) [
  | inl q ↦ inl (ground arith)
  | inr q ↦
      let token : (raw_token (c ∷ s)).0 ≡ v.text = ground arith in
      inr (
        subst IsToken token (record {
          accepted = ground arith;
          unquoted = raw_token-unquoted c s q;
          unbroken = raw_token-unbroken (c ∷ s);
        }))
]

parse_member-IsScalar :
    (s : Bytes) {key rest : Bytes} {v : Value} → parse_member s ≡ some (key, v, rest) → IsScalar v
unfolding parse_member
parse_member-IsScalar s h =
    let (a, p, h₁) = >>=-eq-some (parse_string (skip_ws s)) _ h in
    let (s₂, q, h₂) = >>=-eq-some (expect b':' (skip_ws a.1)) _ h₁ in
    let (b, r, h₃) = >>=-eq-some (parse_value (skip_ws s₂)) _ h₂ in
    subst IsScalar (ground arith) (parse_value-IsScalar (skip_ws s₂) {v = b.0} {rest = b.1} r)

abbrev pub AllScalar : Object → Type 0
AllScalar = All (λ m. IsScalar m.1)

AllScalar-append :
    (o : Object) (k : Bytes) {v : Value} → AllScalar o → IsScalar v → AllScalar (o ++ (k, v) ∷ [])
AllScalar-append [] k _ p = (p, tt)
AllScalar-append (m ∷ o) k (q, a) p = (q, AllScalar-append o k a p)

abbrev IsGood : Object → Type 0
IsGood o = Distinct o × AllScalar o

-- An object that a round leaves.
abbrev Leaves : Round → Type 0
Leaves (more o rest) = IsGood o
Leaves (finished o rest) = IsGood o
Leaves refused = Unit

RoundOf-Leaves : {o : Object} {s : Bytes} {r : Round} → IsGood o → RoundOf o s r → Leaves r
RoundOf-Leaves g refuses = tt
RoundOf-Leaves {o} {s} (d, a) (adds key v s' rest p h f) =
    (DistinctAfter-append [] o key v d h, AllScalar-append o key a (parse_member-IsScalar s p))
RoundOf-Leaves {o} {s} (d, a) (ends key v s' rest p h f) =
    (DistinctAfter-append [] o key v d h, AllScalar-append o key a (parse_member-IsScalar s p))

members-IsGood :
    (f : ℕ) (o : Object) (s : Bytes) {o' : Object} {rest : Bytes}
    → IsGood o
    → members f o s ≡ some (o', rest)
    → IsGood o'
unfolding members
members-IsGood zero o s g h = cc
members-IsGood (suc f) o s {o'} {rest} g h =
    after (round o s) (λ o₁ s₁. members-IsGood f o₁ s₁) (RoundOf-Leaves g (round-RoundOf o s)) h
  where
    after :
        (r : Round)
        → ((o₁ : Object) (s₁ : Bytes) → IsGood o₁ → members f o₁ s₁ ≡ some (o', rest) → IsGood o')
        → Leaves r
        → ◌≡◌ {A = Option (Object × Bytes)}
            (elim r [
              | more o₁ s₁ ↦ members f o₁ s₁
              | finished o₁ s₁ ↦ some (o₁, s₁)
              | refused ↦ none
            ])
            (some (o', rest))
        → IsGood o'
    after (more o₁ s₁) ih l e = ih o₁ s₁ l e
    after (finished o₁ s₁) ih l e = let same : o₁ ≡ o' = ground arith in subst IsGood same l
    after refused ih l e = cc

object_body-IsGood :
    (s : Bytes) {o : Object} {rest : Bytes} → object_body s ≡ some (o, rest) → IsGood o
unfolding object_body
object_body-IsGood s {o} {rest} h = after (follow (skip_ws s)) h
  where
    after :
        (f : Follow)
        → ◌≡◌ {A = Option (Object × Bytes)}
            (elim f [
              | brace r ↦ some ([], r)
              | _ ↦ members (suc (length (skip_ws s))) [] (skip_ws s)
            ])
            (some (o, rest))
        → IsGood o
    after (brace r) e = let same : [] ≡ o = ground arith in subst IsGood same (tt, tt)
    after (comma r) e = members-IsGood _ [] _ (tt, tt) e
    after other e = members-IsGood _ [] _ (tt, tt) e

-- Every object that `ParseFlatObject` accepts has distinct keys, and each of its values is a decoded
-- string, or a token that is not empty, opens no nested value and holds no separator.
pub parse_flat_object_flat :
    (s : Bytes) {o : Object} → parse_flat_object s ≡ some o → Distinct o × AllScalar o
unfolding parse_flat_object
parse_flat_object_flat s {o} h =
    let (body, p, h₁) = >>=-eq-some (expect b'{' (skip_ws s)) _ h in
    let (r, q, h₂) = >>=-eq-some (object_body body) _ h₁ in
    let same : r.0 ≡ o = ground arith in
    subst IsGood same (object_body-IsGood body {o = r.0} {rest = r.1} q)
