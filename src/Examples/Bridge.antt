-- ===== src/Examples/Bridge.antt =====
-- Messages in the shape that the page and the backend exchange.
use jitterentropy_analysis_d.Prelude.{
  ℕ, ◌+◌, ◌≤◌, length, true, false, some, [], ◌∷◌, ◌++◌, ◌≡◌, refl, ◌↔◌, inl, arith,
}
use jitterentropy_analysis_d.Prelude.Int.{pos, ◌≤ℤ◌}
use jitterentropy_analysis_d.Bridge.Text.{Bytes, parse_string}
use jitterentropy_analysis_d.Bridge.Text.Chars.{Chars, parse_string_iff}
use jitterentropy_analysis_d.Bridge.Text.Escape.{is_plain}
use jitterentropy_analysis_d.Bridge.Object.{Object, members, equal, find, parse_flat_object}
use jitterentropy_analysis_d.Bridge.Object.Fuel.{Loops, members_fuel}
use jitterentropy_analysis_d.Bridge.Object.Keys.{Distinct}
use jitterentropy_analysis_d.Bridge.Object.RoundTrip.{
  show_object, AllReadable, parse_flat_object-show_object,
}
use jitterentropy_analysis_d.Bridge.Getters.{ok, get_int}
use jitterentropy_analysis_d.Bridge.Getters.Ints.{Denotes, IsShort, get_int_iff}

-- A quotation mark and a line feed.
abbrev awkward : Bytes
awkward = b'"' ∷ b'\n' ∷ []

-- {"n":12}
abbrev twelve : Object
twelve = (b'n' ∷ [], record { is_string = false; text = b'1' ∷ b'2' ∷ [] }) ∷ []

-- {"a":"\"\n","b":""}
abbrev notes : Object
notes =
    (b'a' ∷ [], record { is_string = true; text = awkward })
    ∷ (b'b' ∷ [], record { is_string = true; text = [] })
    ∷ []

abbrev twelve_text : Bytes
twelve_text = b'{' ∷ b'"' ∷ b'n' ∷ b'"' ∷ b':' ∷ b'1' ∷ b'2' ∷ b'}' ∷ []

parse_string_iff_example : (parse_string (b'"' ∷ b'"' ∷ b',' ∷ []) ≡ some ([], b',' ∷ [])) ↔ (
    (body : Bytes) × (b'"' ∷ b'"' ∷ b',' ∷ [] ≡ b'"' ∷ (body ++ (b'"' ∷ b',' ∷ [])))
    × Chars body [])
parse_string_iff_example = parse_string_iff (b'"' ∷ b'"' ∷ b',' ∷ []) [] (b',' ∷ [])

members_fuel_example :
    (n : ℕ) × (n ≤ length twelve_text + 1) × Loops n [] twelve_text (members 100 [] twelve_text)
members_fuel_example = members_fuel 100 [] twelve_text (omega arith)

notes-AllReadable : AllReadable notes
unfolding is_plain
notes-AllReadable =
    (((refl, tt), inl (refl, (refl, (refl, tt)))), (((refl, tt), inl (refl, tt)), tt))

notes-Distinct : Distinct notes
unfolding find equal
notes-Distinct = (refl, (refl, tt))

parse_flat_object-show_object_example : parse_flat_object (show_object notes) ≡ some notes
parse_flat_object-show_object_example =
    parse_flat_object-show_object notes notes-Distinct notes-AllReadable

get_int_iff_example : (get_int twelve (b'n' ∷ []) (pos 1) (pos 20) ≡ ok (pos 12)) ↔ (
    (t : Bytes) × (find (b'n' ∷ []) twelve ≡ some (record { is_string = false; text = t }))
    × Denotes t (pos 12)
    × IsShort (pos 12)
    × (pos 1 ≤ℤ pos 12)
    × (pos 12 ≤ℤ pos 20))
get_int_iff_example = get_int_iff twelve (b'n' ∷ []) (pos 1) (pos 20) (pos 12)
