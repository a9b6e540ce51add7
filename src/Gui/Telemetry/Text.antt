-- ===== src/Gui/Telemetry/Text.antt =====
-- The text of a frame, as `BuildTelemetryJson` writes it: the document of a frame, and its layout. How
-- the stream prints a `double` is an argument.
pub mod Grammar
pub mod Numbers
pub mod Parts
pub mod Written
use jitterentropy_analysis_d.Prelude.{
  ℕ, zero, suc, ◌+◌, ◌-◌, ◌/◌, ◌%◌, Bool, true, false, Option, none, some, List, [], ◌∷◌, ◌++◌, map,
  ltb, if◌then◌else◌, replicate, length,
}
use jitterentropy_analysis_d.Prelude.Int.{ℤ, pos, negsuc}
use jitterentropy_analysis_d.Monitor.{HealthStats, HistorySample}
use jitterentropy_analysis_d.Rng.{Settings}
use jitterentropy_analysis_d.Stats.Histogram.{ChiSquare}
use jitterentropy_analysis_d.Stats.Rct.{RctResult}
use jitterentropy_analysis_d.Stats.Apt.{AptResult}
use jitterentropy_analysis_d.Stats.Report.{Report}
use jitterentropy_analysis_d.Bridge.Text.{Bytes, json_escape}
use jitterentropy_analysis_d.Bridge.Getters.{codes}
use jitterentropy_analysis_d.Print.{decimal, signed_decimal}
use jitterentropy_analysis_d.Gui.State.{Payload, Stage, Timeline}
use jitterentropy_analysis_d.Gui.Telemetry.{Session, Frame}

-- The members of an object stand on one line, or on a line each, behind so many blanks.
pub data Layout : Type 0 where
  inline : Layout
  block : ℕ → Layout

mutual
  -- A value. `spliced` is a text that is put in as it is.
  pub data Doc (F : Type 0) : Type 0 where
    natural : ℕ → Doc F
    integer : ℤ → Doc F
    real : F → Doc F
    truth : Bool → Doc F
    letters : Bytes → Doc F
    null : Doc F
    spliced : Bytes → Doc F
    naturals : List ℕ → Doc F
    reals : List F → Doc F
    object : Layout → Members F → Doc F

  -- The members of an object, by their keys.
  pub data Members (F : Type 0) : Type 0 where
    last : Bytes → Doc F → Members F
    next : Bytes → Doc F → Members F → Members F

abbrev pub truth_text : Bool → Bytes
truth_text true = codes "true"
truth_text false = codes "false"

abbrev pub string_text : Bytes → Bytes
string_text s = b'"' ∷ (json_escape s ++ (b'"' ∷ []))

-- The loops over an array, from behind the bracket.
pub elements_text : List Bytes → Bytes
elements_text [] = b']' ∷ []
elements_text (t ∷ []) = t ++ (b']' ∷ [])
elements_text (t ∷ u ∷ texts) = t ++ (b',' ∷ elements_text (u ∷ texts))

-- What stands before the first member, between two, and behind the last one.
abbrev pub opening : Layout → Bytes
opening inline = []
opening (block n) = b'\n' ∷ replicate n b' '

abbrev pub gap : Layout → Bytes
gap inline = b' ' ∷ []
gap (block n) = b'\n' ∷ replicate n b' '

abbrev pub closing : Layout → Bytes
closing inline = []
closing (block n) = b'\n' ∷ replicate (n - 2) b' '

module _ {F : Type 0} (print : F → Bytes) where
  mutual
    unfolding elements_text decimal signed_decimal

    pub doc_text : Doc F → Bytes
    doc_text (natural n) = decimal n
    doc_text (integer z) = signed_decimal z
    doc_text (real x) = print x
    doc_text (truth b) = truth_text b
    doc_text (letters s) = string_text s
    doc_text null = codes "null"
    doc_text (spliced t) = t
    doc_text (naturals ns) = b'[' ∷ elements_text (map decimal ns)
    doc_text (reals xs) = b'[' ∷ elements_text (map print xs)
    doc_text (object l ms) = b'{' ∷ (opening l ++ members_text l ms)

    pub members_text : Layout → Members F → Bytes
    members_text l (last k v) =
        string_text k ++ (b':' ∷ ((b' ' ∷ []) ++ (doc_text v ++ (closing l ++ (b'}' ∷ [])))))
    members_text l (next k v ms) =
        string_text k
        ++ (b':' ∷ ((b' ' ∷ []) ++ (doc_text v ++ (b',' ∷ (gap l ++ members_text l ms)))))
