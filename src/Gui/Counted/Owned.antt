-- ===== src/Gui/Counted/Owned.antt =====
-- A handler lives exactly as long as someone holds a reference to it.
use jitterentropy_analysis_d.Prelude.{
  ℕ, zero, suc, ◌+◌, ◌^◌, ◌<◌, Bool, true, false, Option, none, some, List, [], ◌∷◌, ◌≡◌, ap, ap₂,
  ◌∙◌, ◌-◌, ◌||◌, arith, ◌==◌, length, u32,
}
use jitterentropy_analysis_d.Gui.Counted.{
  Handler, created, add_ref, release, query_interface, Use, adds, releases, asks, use_once, use_all,
}

-- The references that are held after the uses, if each use is by a holder: who asks and gets the handler
-- holds one more.
unfoldable pub held : ℕ → List Use → Option ℕ
held n [] = some n
held zero (u ∷ uses) = none
held (suc n) (adds ∷ uses) = held (suc (suc n)) uses
held (suc n) (releases ∷ uses) = held n uses
held (suc n) (asks true true ∷ uses) = held (suc (suc n)) uses
held (suc n) (asks true false ∷ uses) = held (suc n) uses
held (suc n) (asks false known ∷ uses) = held (suc n) uses

abbrev handler : ℕ → Bool → Handler
handler n gone = record { references = n; deleted = gone }

-- A handler with so many holders.
abbrev pub with_holders : ℕ → Handler
with_holders n = record { references = n; deleted = n == 0 }

added : (n : ℕ) → suc (suc n) < 2 ^ 32 → add_ref (with_holders (suc n)) ≡ with_holders (suc (suc n))
unfolding add_ref
added n small =
    let fits : u32 (suc n + 1) ≡ suc (suc n) = omega (arith, small) in
    let kept : (suc n == 0) ≡ (suc (suc n) == 0) = ground arith in ap₂ handler fits kept

released : (n : ℕ) → suc n < 2 ^ 32 → release (with_holders (suc n)) ≡ with_holders n
unfolding release
released n small =
    let fits : u32 (suc n + (2 ^ 32 - 1)) ≡ n = omega (arith, small) in
    let gone : ((suc n == 0) || (u32 (suc n + (2 ^ 32 - 1)) == 0)) ≡ (n == 0) =
      ground (arith, fits) in
    ap₂ handler fits gone

use_all-with_holders :
    (uses : List Use) (m n : ℕ)
    → held m uses ≡ some n
    → m + length uses < 2 ^ 32
    → use_all uses (with_holders m) ≡ with_holders n
unfolding held use_all use_once query_interface
use_all-with_holders [] m n e small = ap with_holders (cc e)
use_all-with_holders (u ∷ uses) zero n e small = absurd (cc e)
use_all-with_holders (adds ∷ uses) (suc m) n e small =
    ap (use_all uses) (added m (omega (arith, small)))
    ∙ use_all-with_holders uses (suc (suc m)) n e (omega (arith, small))
use_all-with_holders (releases ∷ uses) (suc m) n e small =
    ap (use_all uses) (released m (omega (arith, small)))
    ∙ use_all-with_holders uses m n e (omega (arith, small))
use_all-with_holders (asks true true ∷ uses) (suc m) n e small =
    ap (use_all uses) (added m (omega (arith, small)))
    ∙ use_all-with_holders uses (suc (suc m)) n e (omega (arith, small))
use_all-with_holders (asks true false ∷ uses) (suc m) n e small =
    use_all-with_holders uses (suc m) n e (omega (arith, small))
use_all-with_holders (asks false known ∷ uses) (suc m) n e small =
    use_all-with_holders uses (suc m) n e (omega (arith, small))

-- After fewer than 2^32 - 1 uses of a new handler, each by a holder of a reference, the count is that of
-- the references held, and the handler has been deleted exactly if that is 0.
pub use_all_lem :
    (uses : List Use) (n : ℕ)
    → held 1 uses ≡ some n
    → length uses < 2 ^ 32 - 1
    → ((use_all uses created).references ≡ n) × ((use_all uses created).deleted ≡ (n == 0))
use_all_lem uses n e small =
    let same = use_all-with_holders uses 1 n e (omega (arith, small)) in
    (ap (λ h. h.references) same, ap (λ h. h.deleted) same)
