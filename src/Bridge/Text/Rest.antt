-- ===== src/Bridge/Text/Rest.antt =====
-- What `SkipWs` and `ParseString` leave of the text.
use jitterentropy_analysis_d.Prelude.{
  ℕ, ◌≤◌, ◌<◌, false, [], ◌∷◌, some, ◌≡◌, refl, ap, arith, length, length-append,
}
use jitterentropy_analysis_d.Bridge.Text.{Bytes, is_ws, skip_ws, parse_string}
use jitterentropy_analysis_d.Bridge.Text.Chars.{parse_string_iff}

pub length-skip_ws : (s : Bytes) → length (skip_ws s) ≤ length s
unfolding skip_ws
length-skip_ws [] = omega arith
length-skip_ws (c ∷ s) = ground (arith, length-skip_ws s)

pub skip_ws_stop : (c : ℕ) (s : Bytes) → is_ws c ≡ false → skip_ws (c ∷ s) ≡ c ∷ s
unfolding skip_ws
skip_ws_stop c s h = rw h

pub length-parse_string :
    (s text rest : Bytes) → parse_string s ≡ some (text, rest) → length rest < length s
length-parse_string s text rest h =
    let (body, e, t) = (parse_string_iff s text rest).0 h in
    omega (arith, ap length e, length-append body (b'"' ∷ rest))

pub skip_ws_above : (c : ℕ) (s : Bytes) → 0x20 < c → skip_ws (c ∷ s) ≡ c ∷ s
unfolding is_ws
skip_ws_above c s h = skip_ws_stop c s (ground arith)

pub skip_ws-nil : skip_ws [] ≡ []
unfolding skip_ws
skip_ws-nil = refl
