-- ===== src/Bridge/Text/Escape.antt =====
-- `JsonEscape` against the strings of RFC 8259, and against the bridge's own reader.
use jitterentropy_analysis_d.Prelude.{
  ℕ, ◌+◌, ◌*◌, ◌/◌, ◌%◌, ◌≤◌, ◌<◌, ◌-◌, Bool, true, false, ◌&&◌, [], ◌∷◌, ◌++◌, Option, none, some,
  ◌≡◌, ◌≢◌, refl, inl, inr, arith, ltb, leb, ◌==◌, if◌then◌else◌, Bool-cases, All, ◌||◌,
}
use jitterentropy_analysis_d.Bridge.Text.{
  Bytes, hex_digit, unicode_escape, escape_byte, json_escape, parse_string,
}
use jitterentropy_analysis_d.Bridge.Text.Chars.{
  Escape, Chars, nil, plain, escaped, parse_string_iff,
}

-- The value of a hexadecimal digit of RFC 8259.
pub hex_value : ℕ → Option ℕ
hex_value h =
    if leb b'0' h && leb h b'9'
    then some (h - b'0')
    else if leb b'a' h && leb h b'f'
    then some (h - b'a' + 10)
    else if leb b'A' h && leb h b'F'
    then some (h - b'A' + 10)
    else none

-- `body`, between two quotes, is a JSON string whose text is `text`. The escape of a code unit is
-- given for the ASCII range, where the text has one byte for it.
pub data Literal : Bytes → Bytes → Type 0 where
  done : Literal [] []
  unescaped :
      {c : ℕ} {body text : Bytes}
      → c ≢ b'"'
      → c ≢ b'\\'
      → 0x20 ≤ c
      → Literal body text
      → Literal (c ∷ body) (c ∷ text)
  short :
      {e v : ℕ} {body text : Bytes}
      → Escape e v
      → Literal body text
      → Literal (b'\\' ∷ e ∷ body) (v ∷ text)
  unicode :
      {g h i j a b c d v : ℕ} {body text : Bytes}
      → hex_value g ≡ some a
      → hex_value h ≡ some b
      → hex_value i ≡ some c
      → hex_value j ≡ some d
      → v ≡ ((a * 16 + b) * 16 + c) * 16 + d
      → v < 128
      → Literal body text
      → Literal (b'\\' ∷ b'u' ∷ g ∷ h ∷ i ∷ j ∷ body) (v ∷ text)

hex_value-hex_digit : (d : ℕ) → d < 16 → hex_value (hex_digit d) ≡ some d
unfolding hex_value hex_digit
hex_value-hex_digit d h = ground arith

-- The two kinds of bytes that the reader of the bridge can get back.
unfoldable pub is_plain : ℕ → Bool
is_plain c = leb 0x20 c || c == b'\n' || c == b'\r' || c == b'\t'

data EscapeOf (c : ℕ) : Bytes → Type 0 where
  as_is : c ≢ b'"' → c ≢ b'\\' → 0x20 ≤ c → EscapeOf c (c ∷ [])
  by_letter : (e : ℕ) → Escape e c → is_plain c ≡ true → EscapeOf c (b'\\' ∷ e ∷ [])
  by_code : c < 0x20 → is_plain c ≡ false → EscapeOf c (unicode_escape c)

escape_byte-EscapeOf : (c : ℕ) → EscapeOf c (escape_byte c)
unfolding escape_byte is_plain
escape_byte-EscapeOf c = elim (Bool-cases (c == b'"' || c == b'\\')) [
  | inl q ↦ rw (q, escape_byte) (by_letter c (ground arith) (ground arith))
  | inr q ↦
      rw (q, escape_byte)
        (elim (Bool-cases (c == b'\n')) [
          | inl n ↦ rw n (by_letter b'n' (ground arith) (ground arith))
          | inr n ↦ rw n (elim (Bool-cases (c == b'\r')) [
            | inl r ↦ rw r (by_letter b'r' (ground arith) (ground arith))
            | inr r ↦ rw r (elim (Bool-cases (c == b'\t')) [
              | inl t ↦ rw t (by_letter b't' (ground arith) (ground arith))
              | inr t ↦ rw t (elim (Bool-cases (ltb c 0x20)) [
                | inl l ↦ rw l (by_code (ground arith) (ground arith))
                | inr l ↦ rw l (as_is (ground arith) (ground arith) (ground arith))
              ])
            ])
          ])
        ])
]

Literal-append :
    {c : ℕ} {e body text : Bytes}
    → EscapeOf c e
    → Literal body text
    → Literal (e ++ body) (c ∷ text)
unfolding unicode_escape hex_value
Literal-append (as_is q b h) t = unescaped q b h t
Literal-append (by_letter e u p) t = short u t
Literal-append {c} (by_code l p) t =
    unicode {a = 0} {b = 0} {c = c / 16} {d = c % 16} refl refl
      (hex_value-hex_digit (c / 16) (omega arith)) (hex_value-hex_digit (c % 16) (omega arith))
      (omega arith) (omega arith) t

-- `JsonEscape` of any text, put between two quotes, is a JSON string for that text.
pub json_escape-Literal : (s : Bytes) → Literal (json_escape s) s
unfolding json_escape
json_escape-Literal [] = done
json_escape-Literal (c ∷ s) = Literal-append (escape_byte-EscapeOf c) (json_escape-Literal s)

abbrev pub IsPlain : Bytes → Type 0
IsPlain = All (λ c. is_plain c ≡ true)

Chars-append :
    {c : ℕ} {e body text : Bytes}
    → EscapeOf c e
    → is_plain c ≡ true
    → Chars body text
    → Chars (e ++ body) (c ∷ text)
Chars-append (as_is q b h) p t = plain q b h t
Chars-append (by_letter e u p') p t = escaped u t
Chars-append (by_code l p') p t = absurd (cc)

json_escape-Chars : (s : Bytes) → IsPlain s → Chars (json_escape s) s
unfolding json_escape
json_escape-Chars [] h = nil
json_escape-Chars (c ∷ s) (p, h) = Chars-append (escape_byte-EscapeOf c) p (json_escape-Chars s h)

-- `ParseString` gets back what `JsonEscape` wrote between two quotes, and what follows, if the only
-- control characters of the text are newline, return and tab.
pub parse_string-json_escape :
    (s rest : Bytes)
    → IsPlain s
    → parse_string (b'"' ∷ (json_escape s ++ (b'"' ∷ rest))) ≡ some (s, rest)
parse_string-json_escape s rest h =
    (parse_string_iff _ s rest).1 (json_escape s, refl, json_escape-Chars s h)
