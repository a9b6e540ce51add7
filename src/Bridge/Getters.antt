-- ===== src/Bridge/Getters.antt =====
-- `GetString`, `GetBool` and `GetInt` of app/bridge_json.h. `out` is written with `kOk` alone.
pub mod Decimal
pub mod Ints
use Prim.Native.String.{String}
use Prim.Native.Char.{code}
use jitterentropy_analysis_d.Prelude.{
  ℕ, zero, suc, ◌+◌, ◌-◌, ◌*◌, Bool, true, false, ◌||◌, ◌&&◌, [], ◌∷◌, Option, none, some, ltb, leb,
  ◌==◌, if◌then◌else◌, length,
}
use jitterentropy_analysis_d.Prelude.Int.{ℤ, pos, negsuc, ltb_ℤ}
use jitterentropy_analysis_d.Bridge.Text.{Bytes}
use jitterentropy_analysis_d.Bridge.Object.{Value, Object, equal, find}

-- `kOk` with what goes through `out`, `kMissing` or `kInvalid`.
pub data GetResult {ℓ} (A : Type ℓ) : Type ℓ where
  ok : A → GetResult A
  missing invalid : GetResult A

-- The bytes of an ASCII literal.
abbrev pub codes : String → Bytes
codes String.[] = []
codes (String.◌∷◌ c s) = code c ∷ codes s

-- The common head of the getters: `f` reads an entry of the wanted kind.
unfoldable pub get {ℓ} : {A : Type ℓ} → Bool → (Bytes → GetResult A) → Object → Bytes → GetResult A
get kind f o key = elim (find key o) [
  | none ↦ missing
  | some v ↦ elim v.is_string [
    | true ↦ if kind then f v.text else invalid
    | false ↦ if kind then invalid else f v.text
  ]
]

unfoldable pub get_string : Object → Bytes → GetResult Bytes
unfolding get
get_string = get true ok

pub bool_of : Bytes → GetResult Bool
bool_of t =
    if equal t (codes "true")
    then ok true
    else if equal t (codes "false")
    then ok false
    else invalid

pub get_bool : Object → Bytes → GetResult Bool
unfolding get bool_of
get_bool = get false bool_of

-- An optional minus sign, and the rest.
pub sign : Bytes → Bool × Bytes
sign [] = (false, [])
sign (c ∷ s) = if c == b'-' then (true, s) else (false, c ∷ s)

abbrev pub is_digit : ℕ → Bool
is_digit c = leb b'0' c && leb c b'9'

-- The loop `v = v * 10 + (t[i] - '0')`; `none` is a byte that is no digit.
pub digits_value : ℕ → Bytes → Option ℕ
digits_value v [] = some v
digits_value v (c ∷ s) =
    let rest = digits_value (v * 10 + (c - b'0')) s in if is_digit c then rest else none

pub starts_zero : Bytes → Bool
starts_zero [] = false
starts_zero (c ∷ s) = c == b'0'

-- `-v`
abbrev pub negate : ℕ → ℤ
negate zero = pos 0
negate (suc n) = negsuc n

-- The checks of the digits, and their value.
pub magnitude : Bytes → Option ℕ
magnitude ds =
    let digits = length ds in
    if digits == 0 || ltb 18 digits
    then none
    else if starts_zero ds && ltb 1 digits
    then none
    else digits_value 0 ds

-- The value of a text, before the range check.
pub signed_value : Bytes → Option ℤ
signed_value t =
    let (neg, ds) = sign t in
    elim (magnitude ds) [ none ↦ none | some n ↦ some (if neg then negate n else pos n) ]

pub int_of : ℤ → ℤ → Bytes → GetResult ℤ
int_of lo hi t = elim (signed_value t) [
  | none ↦ invalid
  | some v ↦ if ltb_ℤ v lo || ltb_ℤ hi v then invalid else ok v
]

unfoldable pub get_int : Object → Bytes → ℤ → ℤ → GetResult ℤ
unfolding get int_of
get_int o key lo hi = get false (int_of lo hi) o key
