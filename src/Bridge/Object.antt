-- ===== src/Bridge/Object.antt =====
-- `Value`, `Object` and `ParseFlatObject` of app/bridge_json.h.
pub mod Rounds
pub mod Fuel
pub mod Keys
pub mod RoundTrip
use jitterentropy_analysis_d.Prelude.{
  ℕ, zero, suc, ◌+◌, Bool, true, false, ◌||◌, ◌&&◌, List, [], ◌∷◌, ◌++◌, Option, none, some, ◌==◌,
  if◌then◌else◌, length, ◌>>=◌, ◌>>◌, guard,
}
use jitterentropy_analysis_d.Bridge.Text.{Bytes, is_ws, skip_ws, parse_string}

pub record Value : Type 0 where
  pub is_string : Bool
  pub text : Bytes

-- `std::map<std::string, Value>`, whose entries are only looked up: in the order of insertion.
abbrev pub Object : Type 0
Object = List (Bytes × Value)

-- `==` of `std::string`.
unfoldable pub equal : Bytes → Bytes → Bool
equal [] [] = true
equal (a ∷ s) (b ∷ t) = a == b && equal s t
equal _ _ = false

-- `Object::find`.
unfoldable pub find : Bytes → Object → Option Value
find k [] = none
find k ((j, v) ∷ o) = if equal j k then some v else find k o

abbrev pub has : Bytes → Object → Bool
has k o = elim (find k o) [ none ↦ false | some _ ↦ true ]

-- The bytes that end a token which is no string.
unfoldable pub ends_token : ℕ → Bool
ends_token c = c == b',' || c == b'}' || is_ws c

-- The token, and what follows it.
pub raw_token : Bytes → Bytes × Bytes
raw_token [] = ([], [])
raw_token (c ∷ s) =
    let (t, rest) = raw_token s in if ends_token c then ([], c ∷ s) else (c ∷ t, rest)

-- A token may not be empty, and nesting is not accepted.
unfoldable pub token_ok : Bytes → Bool
token_ok [] = false
token_ok (c ∷ _) = if c == b'{' || c == b'[' then false else true

pub string_value : Bytes → Option (Value × Bytes)
string_value s = do (t, rest) ← parse_string s; some (record { is_string = true; text = t }, rest)

pub raw_value : Bytes → Option (Value × Bytes)
raw_value s =
    let (t, rest) = raw_token s in
    if token_ok t then some (record { is_string = false; text = t }, rest) else none

-- The value behind a colon.
pub parse_value : Bytes → Option (Value × Bytes)
parse_value [] = none
parse_value (c ∷ s) = if c == b'"' then string_value (c ∷ s) else raw_value (c ∷ s)

-- The text behind the expected byte, `i < s.size() && s[i++] == b`.
pub expect : ℕ → Bytes → Option Bytes
expect b [] = none
expect b (c ∷ s) = if c == b then some s else none

-- A key, a colon and a value, with the white space in front of each.
pub parse_member : Bytes → Option (Bytes × Value × Bytes)
parse_member s = do
  (key, s₁) ← parse_string (skip_ws s)
  s₂ ← expect b':' (skip_ws s₁)
  (v, s₃) ← parse_value (skip_ws s₂)
  some (key, v, s₃)

-- What stands behind a member: another one, or the end of the object.
pub data Follow : Type 0 where
  comma brace : Bytes → Follow
  other : Follow

pub follow : Bytes → Follow
follow [] = other
follow (c ∷ s) = if c == b',' then comma s else if c == b'}' then brace s else other

-- What one round of the loop over the members does: a next round, the end, or a refusal.
pub data Round : Type 0 where
  more finished : Object → Bytes → Round
  refused : Round

pub add_member : Object → Bytes → Value → Follow → Round
add_member o key v (comma rest) = more (o ++ (key, v) ∷ []) rest
add_member o key v (brace rest) = finished (o ++ (key, v) ∷ []) rest
add_member o key v other = refused

pub round : Object → Bytes → Round
round o s = elim (parse_member s) [
  | none ↦ refused
  | some (key, v, s') ↦ if has key o then refused else add_member o key v (follow (skip_ws s'))
]

-- The loop. `none` is a refusal, or fuel that ran out (see Object/Fuel).
pub members : ℕ → Object → Bytes → Option (Object × Bytes)
members zero o s = none
members (suc f) o s = elim (round o s) [
  | more o' rest ↦ members f o' rest
  | finished o' rest ↦ some (o', rest)
  | refused ↦ none
]

-- The whole text behind the opening brace.
pub object_body : Bytes → Option (Object × Bytes)
object_body s =
    let s' = skip_ws s in
    elim (follow s') [ brace rest ↦ some ([], rest) | _ ↦ members (suc (length s')) [] s' ]

-- `i == s.size()` behind the last white space.
pub at_end : Bytes → Bool
at_end [] = true
at_end (c ∷ s) = false

pub parse_flat_object : Bytes → Option Object
parse_flat_object s = do
  body ← expect b'{' (skip_ws s)
  (o, rest) ← object_body body
  guard (at_end (skip_ws rest))
  some o
