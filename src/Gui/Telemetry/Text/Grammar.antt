-- ===== src/Gui/Telemetry/Text/Grammar.antt =====
-- The grammar of JSON, and that the text of a document keeps to it.
use jitterentropy_analysis_d.Prelude.{
  ℕ, zero, suc, true, false, List, [], ◌∷◌, ◌++◌, map, All, replicate,
}
use jitterentropy_analysis_d.Bridge.Text.{Bytes}
use jitterentropy_analysis_d.Bridge.Text.Escape.{Literal, json_escape-Literal}
use jitterentropy_analysis_d.Bridge.Getters.{codes}
use jitterentropy_analysis_d.Print.{decimal}
use jitterentropy_analysis_d.Gui.Telemetry.Text.{
  Layout, inline, block, Doc, natural, integer, real, truth, letters, null, spliced, naturals,
  reals, object, Members, last, next, string_text, elements_text, opening, gap, closing, doc_text,
  members_text,
}
use jitterentropy_analysis_d.Gui.Telemetry.Text.Numbers.{
  Number, decimal-Number, signed_decimal-Number,
}

-- White space.
pub data Blank : Bytes → Type 0 where
  empty : Blank []
  space : {s : Bytes} → Blank s → Blank (b' ' ∷ s)
  newline : {s : Bytes} → Blank s → Blank (b'\n' ∷ s)
  tab : {s : Bytes} → Blank s → Blank (b'\t' ∷ s)
  carriage_return : {s : Bytes} → Blank s → Blank (b'\r' ∷ s)

-- A string literal.
pub data JsonString : Bytes → Type 0 where
  between_quotes :
      {body text : Bytes} → Literal body text → JsonString (b'"' ∷ (body ++ (b'"' ∷ [])))

mutual
  -- A value, with white space around it.
  pub data Json : Bytes → Type 0 where
    padded : {a t b : Bytes} → Blank a → Json t → Blank b → Json (a ++ (t ++ b))
    number : {t : Bytes} → Number t → Json t
    string : {t : Bytes} → JsonString t → Json t
    true_word : Json (codes "true")
    false_word : Json (codes "false")
    null_word : Json (codes "null")
    no_elements : Json (b'[' ∷ b']' ∷ [])
    array : {t : Bytes} → JsonElements t → Json (b'[' ∷ t)
    members : {w t : Bytes} → Blank w → JsonMembers t → Json (b'{' ∷ (w ++ t))

  -- The elements of an array, up to its bracket.
  pub data JsonElements : Bytes → Type 0 where
    last_element : {v : Bytes} → Json v → JsonElements (v ++ (b']' ∷ []))
    next_element : {v t : Bytes} → Json v → JsonElements t → JsonElements (v ++ (b',' ∷ t))

  -- The members of an object, up to its brace.
  pub data JsonMembers : Bytes → Type 0 where
    last_member :
        {k b v w : Bytes}
        → JsonString k
        → Blank b
        → Json v
        → Blank w
        → JsonMembers (k ++ (b':' ∷ (b ++ (v ++ (w ++ (b'}' ∷ []))))))
    next_member :
        {k b v w t : Bytes}
        → JsonString k
        → Blank b
        → Json v
        → Blank w
        → JsonMembers t
        → JsonMembers (k ++ (b':' ∷ (b ++ (v ++ (b',' ∷ (w ++ t))))))

spaces-Blank : (n : ℕ) → Blank (replicate n b' ')
spaces-Blank zero = empty
spaces-Blank (suc n) = space (spaces-Blank n)

opening-Blank : (l : Layout) → Blank (opening l)
opening-Blank inline = empty
opening-Blank (block n) = newline (spaces-Blank n)

gap-Blank : (l : Layout) → Blank (gap l)
gap-Blank inline = space empty
gap-Blank (block n) = newline (spaces-Blank n)

closing-Blank : (l : Layout) → Blank (closing l)
closing-Blank inline = empty
closing-Blank (block n) = newline (spaces-Blank _)

string_text-JsonString : (s : Bytes) → JsonString (string_text s)
string_text-JsonString s = between_quotes (json_escape-Literal s)

elements-JsonElements :
    (t : Bytes) (texts : List Bytes)
    → Json t
    → All Json texts
    → JsonElements (elements_text (t ∷ texts))
unfolding elements_text
elements-JsonElements t [] j a = last_element j
elements-JsonElements t (u ∷ texts) j (k, a) = next_element j (elements-JsonElements u texts k a)

elements_text-Json : (texts : List Bytes) → All Json texts → Json (b'[' ∷ elements_text texts)
unfolding elements_text
elements_text-Json [] a = no_elements
elements_text-Json (t ∷ texts) (j, a) = array (elements-JsonElements t texts j a)

-- Where every spliced text is a value.
abbrev mutual
  pub Sound : {F : Type 0} → Doc F → Type 0
  Sound (spliced t) = Json t
  Sound (object l ms) = SoundMembers ms
  Sound (natural n) = Unit
  Sound (integer z) = Unit
  Sound (real x) = Unit
  Sound (truth b) = Unit
  Sound (letters s) = Unit
  Sound null = Unit
  Sound (naturals ns) = Unit
  Sound (reals xs) = Unit

  pub SoundMembers : {F : Type 0} → Members F → Type 0
  SoundMembers (last k v) = Sound v
  SoundMembers (next k v ms) = Sound v × SoundMembers ms

map-All : {A : Type 0} (f : A → Bytes) (xs : List A) → ((x : A) → Json (f x)) → All Json (map f xs)
map-All f [] h = tt
map-All f (x ∷ xs) h = (h x, map-All f xs h)

module _ {F : Type 0} (print : F → Bytes) where
  mutual
    unfolding doc_text members_text

    -- Where what is printed of a `double` is a number, the text of a document is a value.
    pub doc_text-Json :
        (v : Doc F) → ((x : F) → Number (print x)) → Sound v → Json (doc_text print v)
    doc_text-Json (natural n) fine s = number (decimal-Number n)
    doc_text-Json (integer z) fine s = number (signed_decimal-Number z)
    doc_text-Json (real x) fine s = number (fine x)
    doc_text-Json (truth true) fine s = true_word
    doc_text-Json (truth false) fine s = false_word
    doc_text-Json (letters t) fine s = string (string_text-JsonString t)
    doc_text-Json null fine s = null_word
    doc_text-Json (spliced t) fine s = s
    doc_text-Json (naturals ns) fine s =
        elements_text-Json (map decimal ns) (map-All decimal ns (λ n. number (decimal-Number n)))
    doc_text-Json (reals xs) fine s =
        elements_text-Json (map print xs) (map-All print xs (λ x. number (fine x)))
    doc_text-Json (object l ms) fine s =
        members (opening-Blank l) (members_text-JsonMembers l ms fine s)

    members_text-JsonMembers :
        (l : Layout) (ms : Members F)
        → ((x : F) → Number (print x))
        → SoundMembers ms
        → JsonMembers (members_text print l ms)
    members_text-JsonMembers l (last k v) fine s =
        last_member (string_text-JsonString k) (space empty) (doc_text-Json v fine s)
          (closing-Blank l)
    members_text-JsonMembers l (next k v ms) fine (s, more) =
        next_member (string_text-JsonString k) (space empty) (doc_text-Json v fine s) (gap-Blank l)
          (members_text-JsonMembers l ms fine more)
