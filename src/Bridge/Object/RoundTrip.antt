-- ===== src/Bridge/Object/RoundTrip.antt =====
-- `ParseFlatObject` reads back what a writer of flat objects writes.
use mathlib.Core.List.{append_assoc}
use jitterentropy_analysis_d.Prelude.{
  ℕ, zero, suc, ◌<◌, true, false, [], ◌∷◌, ◌++◌, some, ◌≡◌, ◌⊎◌, refl, inl, inr, ap, sym, subst,
  ◌∙◌, arith, if◌then◌else◌, length, length-append, All,
}
use jitterentropy_analysis_d.Bridge.Text.{Bytes, skip_ws, json_escape, parse_string}
use jitterentropy_analysis_d.Bridge.Text.Rest.{skip_ws_stop, skip_ws_above, skip_ws-nil}
use jitterentropy_analysis_d.Bridge.Text.Escape.{IsPlain, parse_string-json_escape}
use jitterentropy_analysis_d.Bridge.Object.{
  Value, Object, has, ends_token, raw_token, token_ok, string_value, raw_value, parse_value, expect,
  parse_member, comma, brace, other, follow, add_member, round, members, object_body, at_end,
  parse_flat_object,
}
use jitterentropy_analysis_d.Bridge.Object.Keys.{DistinctAfter, Distinct, IsToken}

-- A string literal.
pub quoted : Bytes → Bytes
quoted s = b'"' ∷ (json_escape s ++ (b'"' ∷ []))

pub show_value : Value → Bytes
show_value v = if v.is_string then quoted v.text else v.text

-- A member, and the members behind the first one with the closing brace.
pub show_member : Bytes × Value → Bytes
show_member (k, v) = quoted k ++ (b':' ∷ show_value v)

pub show_tail : Object → Bytes
show_tail [] = b'}' ∷ []
show_tail (m ∷ o) = b',' ∷ (show_member m ++ show_tail o)

pub show_object : Object → Bytes
show_object [] = b'{' ∷ b'}' ∷ []
show_object (m ∷ o) = b'{' ∷ (show_member m ++ show_tail o)

-- What a value needs in order to be read back.
abbrev pub IsReadable : Value → Type 0
IsReadable v = ((v.is_string ≡ true) × IsPlain v.text) ⊎ ((v.is_string ≡ false) × IsToken v.text)

abbrev pub AllReadable : Object → Type 0
AllReadable = All (λ m. IsPlain m.0 × IsReadable m.1)

-- The text starts with a byte that ends a token.
abbrev Ends : Bytes → Type 0
Ends [] = ⊥
Ends (c ∷ s) = ends_token c ≡ true

raw_token-append :
    (t rest : Bytes)
    → All (λ c. ends_token c ≡ false) t
    → Ends rest
    → raw_token (t ++ rest) ≡ (t, rest)
unfolding raw_token
raw_token-append [] [] a e = absurd e
raw_token-append [] (c ∷ s) a e = rw e
raw_token-append (c ∷ t) rest (n, a) e = rw (n, raw_token) (rw (raw_token-append t rest a e))

parse_string-quoted :
    (s rest : Bytes) → IsPlain s → parse_string (quoted s ++ rest) ≡ some (s, rest)
unfolding quoted
parse_string-quoted s rest p =
    ap (λ t. parse_string (b'"' ∷ t)) (append_assoc (json_escape s) (b'"' ∷ []) rest)
    ∙ parse_string-json_escape s rest p

record Shown (v : Value) (rest : Bytes) : Type 0 where
  stays : skip_ws (show_value v ++ rest) ≡ show_value v ++ rest
  reads : parse_value (show_value v ++ rest) ≡ some (v, rest)

string_value-Shown :
    (s rest : Bytes) → IsPlain s → Shown (record { is_string = true; text = s }) rest
unfolding show_value parse_value quoted string_value
string_value-Shown s rest p = record {
  stays = skip_ws_above b'"' _ (omega arith);
  reads = ground (arith, parse_string-quoted s rest p);
}

raw_value-Shown :
    (t rest : Bytes) → IsToken t → Ends rest → Shown (record { is_string = false; text = t }) rest
unfolding show_value parse_value raw_value token_ok ends_token
raw_value-Shown [] rest k e = absurd (ground (arith, k.accepted))
raw_value-Shown (c ∷ t) rest k e = record {
  stays = skip_ws_stop c _ (ground (arith, k.unbroken.0));
  reads = ground (arith, k.unquoted, k.accepted, raw_token-append (c ∷ t) rest k.unbroken e);
}

show_value-Shown : (v : Value) (rest : Bytes) → IsReadable v → Ends rest → Shown v rest
show_value-Shown v rest (inl (s, p)) e =
    subst (λ w. Shown w rest) (λ i. record { is_string = sym s i; text = v.text })
      (string_value-Shown v.text rest p)
show_value-Shown v rest (inr (s, k)) e =
    subst (λ w. Shown w rest) (λ i. record { is_string = sym s i; text = v.text })
      (raw_value-Shown v.text rest k e)

skip_ws-quoted : (s rest : Bytes) → skip_ws (quoted s ++ rest) ≡ quoted s ++ rest
unfolding quoted
skip_ws-quoted s rest = skip_ws_above b'"' _ (omega arith)

parse_member-show_member :
    (k : Bytes) (v : Value) (rest : Bytes)
    → IsPlain k
    → IsReadable v
    → Ends rest
    → parse_member (show_member (k, v) ++ rest) ≡ some (k, v, rest)
unfolding parse_member show_member expect
parse_member-show_member k v rest p r e =
    let shown = show_value-Shown v rest r e in
    rw
      (
        append_assoc (quoted k) (b':' ∷ show_value v) rest,
        skip_ws-quoted k,
        parse_string-quoted k _ p,
      )
      (rw (skip_ws_above b':' (show_value v ++ rest) (omega arith)) (rw (shown.stays, shown.reads)))

Ends-show_tail : (o : Object) → Ends (show_tail o)
unfolding show_tail ends_token
Ends-show_tail [] = refl
Ends-show_tail (m ∷ o) = refl

follow-show_tail_nil : follow (skip_ws (show_tail [])) ≡ brace []
unfolding follow show_tail
follow-show_tail_nil = rw (skip_ws_above b'}' [] (omega arith))

follow-show_tail_cons :
    (m : Bytes × Value) (o : Object)
    → follow (skip_ws (show_tail (m ∷ o))) ≡ comma (show_member m ++ show_tail o)
unfolding follow show_tail
follow-show_tail_cons m o = rw (skip_ws_above b',' (show_member m ++ show_tail o) (omega arith))

round-show_member :
    (a o : Object) (k : Bytes) (v : Value)
    → has k a ≡ false
    → IsPlain k
    → IsReadable v
    → round a (show_member (k, v) ++ show_tail o)
      ≡ add_member a k v (follow (skip_ws (show_tail o)))
unfolding round
round-show_member a o k v h p r =
    rw (parse_member-show_member k v (show_tail o) p r (Ends-show_tail o), round) (rw h)

length-show_tail_cons :
    (m : Bytes × Value) (o : Object)
    → length (show_tail (m ∷ o)) ≡ suc (length (show_member m ++ show_tail o))
unfolding show_tail
length-show_tail_cons m o = refl

-- The loop reads the members back behind those that it has.
members-show :
    (f : ℕ) (a o : Object) (k : Bytes) (v : Value)
    → DistinctAfter a ((k, v) ∷ o)
    → AllReadable ((k, v) ∷ o)
    → length (show_member (k, v) ++ show_tail o) < f
    → members f a (show_member (k, v) ++ show_tail o) ≡ some (a ++ (k, v) ∷ o, [])
unfolding members add_member
members-show zero a o k v d r l = absurd (omega arith)
members-show (suc f) a [] k v (h, d) (p, r) l =
    rw (round-show_member a [] k v h p.0 p.1, follow-show_tail_nil, members)
members-show (suc f) a ((j, w) ∷ o) k v (h, d) (p, r) l =
    rw (round-show_member a ((j, w) ∷ o) k v h p.0 p.1, follow-show_tail_cons (j, w) o, members)
      (members-show f (a ++ (k, v) ∷ []) o j w d r (
          omega (
            arith,
            length-append (show_member (k, v)) (show_tail ((j, w) ∷ o)),
            length-show_tail_cons (j, w) o,
          ))
        ∙ ap (λ x. some (x, [])) (append_assoc a ((k, v) ∷ []) ((j, w) ∷ o)))

skip_ws-show_member :
    (k : Bytes) (v : Value) (s : Bytes)
    → skip_ws (show_member (k, v) ++ s) ≡ show_member (k, v) ++ s
unfolding show_member
skip_ws-show_member k v s = rw (append_assoc (quoted k) (b':' ∷ show_value v) s, skip_ws-quoted k)

follow-show_member : (k : Bytes) (v : Value) (s : Bytes) → follow (show_member (k, v) ++ s) ≡ other
unfolding follow show_member quoted
follow-show_member k v s = refl

object_body-show :
    (k : Bytes) (v : Value) (o : Object)
    → Distinct ((k, v) ∷ o)
    → AllReadable ((k, v) ∷ o)
    → object_body (show_member (k, v) ++ show_tail o) ≡ some ((k, v) ∷ o, [])
unfolding object_body
object_body-show k v o d r =
    rw (skip_ws-show_member k v (show_tail o), follow-show_member k v (show_tail o), object_body)
      (rw (skip_ws-show_member k v (show_tail o)) (members-show _ [] o k v d r (omega arith)))

object_body_empty : object_body (b'}' ∷ []) ≡ some ([], [])
unfolding object_body follow
object_body_empty = rw (skip_ws_above b'}' [] (omega arith), object_body)

-- An opening brace and a whole body.
parse_flat_object-brace :
    (s : Bytes) (o : Object) → object_body s ≡ some (o, []) → parse_flat_object (b'{' ∷ s) ≡ some o
unfolding parse_flat_object expect at_end
parse_flat_object-brace s o e = rw (skip_ws_above b'{' s (omega arith)) (rw e (rw skip_ws-nil))

-- A flat object with distinct keys, written with escaped keys and strings and no white space, is
-- read back by `ParseFlatObject` entry by entry, if its texts hold no control character but newline, return and tab, and
-- its other values are tokens.
pub parse_flat_object-show_object :
    (o : Object) → Distinct o → AllReadable o → parse_flat_object (show_object o) ≡ some o
unfolding show_object
parse_flat_object-show_object [] d r = parse_flat_object-brace _ [] object_body_empty
parse_flat_object-show_object ((k, v) ∷ o) d r =
    parse_flat_object-brace _ ((k, v) ∷ o) (object_body-show k v o d r)
