-- ===== src/Bridge/Text/Chars.antt =====
-- The language that `ParseString` reads, as a relation between a literal's body and its text.
use mathlib.Core.List.{append-nil, append_assoc}
use jitterentropy_analysis_d.Prelude.{
  List, if◌then◌else◌, refl, ℕ, ◌≤◌, Bool, true, false, [], ◌∷◌, ◌++◌, Option, none, some, ◌≡◌, ◌≢◌,
  ◌↔◌, inl, inr, ap, sym, subst, ◌∙◌, arith, ltb, ◌==◌, Bool-cases, Option-cases,
}
use jitterentropy_analysis_d.Bridge.Text.{
  Bytes, unescape, CharStep, close, fail, go, char_step, parse_chars, parse_string,
}

-- The letters that may stand behind a backslash, with the bytes that the pairs stand for: quote,
-- backslash, slash, backspace, form feed, line feed, carriage return and tab.
abbrev escapes : List (ℕ × ℕ)
escapes =
    (34, 34) ∷ (92, 92) ∷ (47, 47) ∷ (98, 8) ∷ (102, 12) ∷ (110, 10) ∷ (114, 13) ∷ (116, 9) ∷ []

abbrev listed : List (ℕ × ℕ) → ℕ → Option ℕ
listed [] e = none
listed ((letter, v) ∷ table) e = if e == letter then some v else listed table e

abbrev pub Escape : ℕ → ℕ → Type 0
Escape e v = listed escapes e ≡ some v

pub unescape-listed : (e : ℕ) → unescape e ≡ listed escapes e
unfolding unescape
unescape-listed e = refl

-- `body`, between two quotes, stands for `text`.
pub data Chars : Bytes → Bytes → Type 0 where
  nil : Chars [] []
  plain :
      {c : ℕ} {body text : Bytes}
      → c ≢ b'"'
      → c ≢ b'\\'
      → 0x20 ≤ c
      → Chars body text
      → Chars (c ∷ body) (c ∷ text)
  escaped :
      {e v : ℕ} {body text : Bytes}
      → Escape e v
      → Chars body text
      → Chars (b'\\' ∷ e ∷ body) (v ∷ text)

pub char_step-plain :
    (out : Bytes) (c : ℕ)
    → c ≢ b'"'
    → c ≢ b'\\'
    → 0x20 ≤ c
    → char_step false out c ≡ go false (out ++ c ∷ [])
unfolding char_step
char_step-plain out c q b h = ground arith

parse_chars-go :
    {e' : Bool} {out' : Bytes} (e : Bool) (out : Bytes) (c : ℕ) (s : Bytes)
    → char_step e out c ≡ go e' out'
    → parse_chars e out (c ∷ s) ≡ parse_chars e' out' s
unfolding parse_chars
parse_chars-go e out c s h = rw (h, parse_chars)

regroup :
    (out : Bytes) (v : ℕ) (text rest : Bytes)
    → ◌≡◌ {A = Option (Bytes × Bytes)}
        (some ((out ++ v ∷ []) ++ text, rest))
        (some (out ++ v ∷ text, rest))
regroup out v text rest = ap (λ o. some (o, rest)) (append_assoc out (v ∷ []) text)

-- Every body is read back, up to the closing quote.
parse_chars-Chars :
    {body text : Bytes} (out rest : Bytes)
    → Chars body text
    → parse_chars false out (body ++ (b'"' ∷ rest)) ≡ some (out ++ text, rest)
unfolding parse_chars char_step
parse_chars-Chars out rest nil = rw append-nil
parse_chars-Chars out rest (plain {c} {body} {text} q b h t) =
    parse_chars-go false out c _ (char_step-plain out c q b h)
    ∙ parse_chars-Chars (out ++ c ∷ []) rest t
    ∙ regroup out c text rest
parse_chars-Chars out rest (escaped {e} {v} {body} {text} u t) =
    parse_chars-go true out e _ (rw (unescape-listed e ∙ u, char_step))
    ∙ parse_chars-Chars (out ++ v ∷ []) rest t
    ∙ regroup out v text rest

-- The outcomes of one round, each with its condition.
data StepOf (out : Bytes) (c : ℕ) : Bool → CharStep → Type 0 where
  closes : c ≡ b'"' → StepOf out c false close
  fails : (e : Bool) → StepOf out c e fail
  opens : c ≡ b'\\' → StepOf out c false (go true out)
  keeps : c ≢ b'"' → c ≢ b'\\' → 0x20 ≤ c → StepOf out c false (go false (out ++ c ∷ []))
  decodes : (v : ℕ) → unescape c ≡ some v → StepOf out c true (go false (out ++ v ∷ []))

char_step-StepOf : (e : Bool) (out : Bytes) (c : ℕ) → StepOf out c e (char_step e out c)
unfolding char_step
char_step-StepOf true out c = elim (Option-cases (unescape c)) [
  | inl n ↦ rw (n, char_step) (fails true)
  | inr (v, u) ↦ rw (u, char_step) (decodes v u)
]
char_step-StepOf false out c = elim (Bool-cases (c == b'"')) [
  | inl q ↦ rw (q, char_step) (closes (ground arith))
  | inr q ↦
      rw (q, char_step)
        (elim (Bool-cases (ltb c 0x20)) [
          | inl l ↦ rw l (fails false)
          | inr l ↦ rw l (elim (Bool-cases (c == b'\\')) [
            | inl b ↦ rw b (opens (ground arith))
            | inr b ↦ rw b (keeps (ground arith) (ground arith) (ground arith))
          ])
        ])
]

-- The bytes of the literal that a state of the loop has yet to explain.
abbrev pending : Bool → Bytes → Bytes
pending true body = b'\\' ∷ body
pending false body = body

record Read (e : Bool) (out s o rest : Bytes) : Type 0 where
  body : Bytes
  text : Bytes
  splits : s ≡ body ++ (b'"' ∷ rest)
  decoded : o ≡ out ++ text
  chars : Chars (pending e body) text

-- Goes back over a round that decoded `v` from `c`.
Read-cons :
    {out o rest s : Bytes} {c v : ℕ} {e : Bool}
    → ((body text : Bytes) → Chars body text → Chars (pending e (c ∷ body)) (v ∷ text))
    → Read false (out ++ v ∷ []) s o rest
    → Read e out (c ∷ s) o rest
Read-cons {out} {c = c} {v = v} f r = record {
  body = c ∷ r.body;
  text = v ∷ r.text;
  splits = ap (◌∷◌ c) r.splits;
  decoded = r.decoded ∙ append_assoc out (v ∷ []) r.text;
  chars = f r.body r.text r.chars;
}

Read-open :
    {out o rest s : Bytes} {c : ℕ}
    → c ≡ b'\\'
    → Read true out s o rest
    → Read false out (c ∷ s) o rest
Read-open {c = c} h r = record {
  body = c ∷ r.body;
  text = r.text;
  splits = ap (◌∷◌ c) r.splits;
  decoded = r.decoded;
  chars = subst (λ b. Chars (b ∷ r.body) r.text) (sym h) r.chars;
}

after_step :
    {e : Bool} {out : Bytes} {c : ℕ} {st : CharStep} (s o rest : Bytes)
    → ((e' : Bool) (out' : Bytes) → parse_chars e' out' s ≡ some (o, rest) → Read e' out' s o rest)
    → StepOf out c e st
    → ◌≡◌ {A = Option (Bytes × Bytes)}
        (elim st [ close ↦ some (out, s) | fail ↦ none | go e' out' ↦ parse_chars e' out' s ])
        (some (o, rest))
    → Read e out (c ∷ s) o rest
after_step {out = out} s o rest ih (closes q) h = record {
  body = [];
  text = [];
  splits = ground arith;
  decoded = ground (arith, append-nil out);
  chars = nil;
}
after_step s o rest ih (fails e) h = cc
after_step s o rest ih (opens b) h = Read-open b (ih _ _ h)
after_step s o rest ih (keeps q b l) h = Read-cons (λ body text. plain q b l) (ih _ _ h)
after_step {c = c} s o rest ih (decodes v u) h =
    Read-cons (λ body text. escaped (sym (unescape-listed c) ∙ u)) (ih _ _ h)

parse_chars-Read :
    (s : Bytes) (e : Bool) (out o rest : Bytes)
    → parse_chars e out s ≡ some (o, rest)
    → Read e out s o rest
unfolding parse_chars
parse_chars-Read [] e out o rest h = cc
parse_chars-Read (c ∷ s) e out o rest h =
    after_step s o rest (λ e' out'. parse_chars-Read s e' out' o rest) (char_step-StepOf e out c) h

-- What `ParseString` accepts is a quote, a body of the grammar and a quote, and it returns the text
-- of the body and all that follows the second quote; and it accepts every such literal.
pub parse_string_iff :
    (s text rest : Bytes)
    → (parse_string s ≡ some (text, rest))
      ↔ ((body : Bytes) × (s ≡ b'"' ∷ (body ++ (b'"' ∷ rest))) × Chars body text)
unfolding parse_string
parse_string_iff s text rest = (sound s, complete s)
  where
    sound :
        (s : Bytes)
        → parse_string s ≡ some (text, rest)
        → (body : Bytes) × (s ≡ b'"' ∷ (body ++ (b'"' ∷ rest))) × Chars body text
    sound [] h = cc
    sound (c ∷ s) h = elim (Bool-cases (c == b'"')) [
      | inl q ↦
          let r : Read false [] s text rest =
            parse_chars-Read s false [] text rest (ground arith) in
          (r.body, ground (arith, r.splits), rw r.decoded r.chars)
      | inr q ↦ ground arith
    ]

    complete :
        (s : Bytes)
        → ((body : Bytes) × (s ≡ b'"' ∷ (body ++ (b'"' ∷ rest))) × Chars body text)
        → parse_string s ≡ some (text, rest)
    complete s (body, e, t) = rw e (parse_chars-Chars [] rest t)
