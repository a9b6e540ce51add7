-- ===== src/Bridge/Text.antt =====
-- `detail::SkipWs`, `detail::ParseString` and `JsonEscape` of app/bridge_json.h.
pub mod Chars
pub mod Escape
pub mod Rest
use jitterentropy_analysis_d.Prelude.{
  ℕ, ◌+◌, ◌/◌, ◌%◌, Bool, true, false, ◌||◌, List, [], ◌∷◌, ◌++◌, Option, none, some, ltb, ◌==◌,
  if◌then◌else◌,
}

abbrev pub Bytes : Type 0
Bytes = List ℕ

unfoldable pub is_ws : ℕ → Bool
is_ws c = c == b' ' || c == b'\t' || c == b'\n' || c == b'\r'

pub skip_ws : Bytes → Bytes
skip_ws [] = []
skip_ws (c ∷ s) = if is_ws c then skip_ws s else c ∷ s

-- The `switch` on the byte behind a backslash; `none` is its default.
pub unescape : ℕ → Option ℕ
unescape c =
    if c == b'"'
    then some b'"'
    else if c == b'\\'
    then some b'\\'
    else if c == b'/'
    then some b'/'
    else if c == b'b'
    then some 8
    else if c == b'f'
    then some 12
    else if c == b'n'
    then some b'\n'
    else if c == b'r'
    then some b'\r'
    else if c == b't'
    then some b'\t'
    else none

-- What one byte does to the loop of `ParseString`; `go e out` is a next round, behind a
-- backslash if `e` is true.
pub data CharStep : Type 0 where
  close fail : CharStep
  go : Bool → Bytes → CharStep

pub char_step : Bool → Bytes → ℕ → CharStep
char_step true out c = elim (unescape c) [ none ↦ fail | some v ↦ go false (out ++ v ∷ []) ]
char_step false out c =
    if c == b'"'
    then close
    else if ltb c 0x20
    then fail
    else if c == b'\\'
    then go true out
    else go false (out ++ c ∷ [])

-- The loop of `ParseString`, with the decoded text so far.
pub parse_chars : Bool → Bytes → Bytes → Option (Bytes × Bytes)
parse_chars e out [] = none
parse_chars e out (c ∷ s) = elim (char_step e out c) [
  | close ↦ some (out, s)
  | fail ↦ none
  | go e' out' ↦ parse_chars e' out' s
]

-- The decoded text, and what follows the closing quote.
pub parse_string : Bytes → Option (Bytes × Bytes)
parse_string [] = none
parse_string (c ∷ s) = if c == b'"' then parse_chars false [] s else none

-- A digit of `%x`.
unfoldable pub hex_digit : ℕ → ℕ
hex_digit d = if ltb d 10 then b'0' + d else b'a' + (d % 16 + 6) % 16

-- The `\u%04x` of a byte.
pub unicode_escape : ℕ → Bytes
unicode_escape c = b'\\' ∷ b'u' ∷ b'0' ∷ b'0' ∷ hex_digit (c / 16) ∷ hex_digit (c % 16) ∷ []

pub escape_byte : ℕ → Bytes
escape_byte c =
    if c == b'"' || c == b'\\'
    then b'\\' ∷ c ∷ []
    else if c == b'\n'
    then b'\\' ∷ b'n' ∷ []
    else if c == b'\r'
    then b'\\' ∷ b'r' ∷ []
    else if c == b'\t'
    then b'\\' ∷ b't' ∷ []
    else if ltb c 0x20
    then unicode_escape c
    else c ∷ []

pub json_escape : Bytes → Bytes
json_escape [] = []
json_escape (c ∷ s) = escape_byte c ++ json_escape s
