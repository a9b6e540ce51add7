-- ===== src/Gui/Counted.antt =====
-- The references to a handler that the browser is given: `AddRef`, `Release` and `QueryInterface`, which
-- are the same for all three classes.
pub mod Owned
use jitterentropy_analysis_d.Prelude.{
  ℕ, zero, suc, ◌+◌, ◌-◌, ◌^◌, ◌%◌, Bool, true, false, Option, none, some, List, [], ◌∷◌, ◌==◌,
  ◌||◌, not, u32, if◌then◌else◌,
}

-- `m_refCount`, and whether `delete this` has run.
pub record Handler : Type 0 where
  pub references : ℕ
  pub deleted : Bool

abbrev pub created : Handler
created = record { references = 1; deleted = false }

pub data Answer : Type 0 where
  done bad_pointer no_interface : Answer

-- The count has 32 bits.
pub add_ref : Handler → Handler
add_ref h = record h { references = u32 (h.references + 1) }

pub release : Handler → Handler
release h =
    let count = u32 (h.references + (2 ^ 32 - 1)) in
    record { references = count; deleted = h.deleted || (count == 0) }

-- With whether there is a place for the answer, and whether the interface is one of the two: the result,
-- whether the place gets the handler, and what is left.
pub query_interface : Bool → Bool → Handler → Answer × Bool × Handler
unfolding add_ref
query_interface has_place known h =
    if not has_place
    then (bad_pointer, false, h)
    else if known
    then (done, true, add_ref h)
    else (no_interface, false, h)

pub data Use : Type 0 where
  adds releases : Use
  asks : Bool → Bool → Use

pub use_once : Use → Handler → Handler
unfolding add_ref release query_interface
use_once adds h = add_ref h
use_once releases h = release h
use_once (asks has_place known) h = (query_interface has_place known h).2

pub use_all : List Use → Handler → Handler
unfolding use_once
use_all [] h = h
use_all (u ∷ uses) h = use_all uses (use_once u h)
