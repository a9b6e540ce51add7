-- ===== src/Gui/Place/Centred.antt =====
-- The window is inside the work area, and in its middle.
use jitterentropy_analysis_d.Prelude.{
  ℕ, ◌+◌, ◌-◌, ◌*◌, ◌/◌, ◌≤◌, true, some, ◌&&◌, if_true, ◌≡◌, ◌∙◌, ap, sym, subst, Option, arith,
}
use jitterentropy_analysis_d.Prelude.Int.{ℤ, pos, negsuc, ◌≤ℤ◌, ◌+ℤ◌, ◌-ℤ◌, times, quot}
use jitterentropy_analysis_d.Gui.Place.{
  Place, Rect, work_area, window_side, window_corner, fits, window_place,
}

apart : (low high : ℤ) → low ≤ℤ high → (n : ℕ) × (high ≡ low +ℤ pos n)
apart (pos a) (pos b) h = (b - a, ground arith)
apart (negsuc a) (pos b) h = (b + a + 1, ground arith)
apart (negsuc a) (negsuc b) h = (a - b, ground arith)
apart (pos a) (negsuc b) h = absurd (omega arith)

distance : (low : ℤ) (n : ℕ) → (low +ℤ pos n) -ℤ low ≡ pos n
distance (pos a) n = ground arith
distance (negsuc a) n = ground arith

hundredth : (m : ℕ) → quot (pos m) 100 ≡ pos (m / 100)
hundredth m = ground arith

half : (m : ℕ) → quot (pos m) 2 ≡ pos (m / 2)
half m = ground arith

times_85 : (m : ℕ) → times (pos m) 85 ≡ pos (m * 85)
times_85 m = ground arith

left_over : (n s : ℕ) → s ≤ n → pos n -ℤ pos s ≡ pos (n - s)
left_over n s fits = ground arith

window_side_lem : (low : ℤ) (n : ℕ) → window_side low (low +ℤ pos n) ≡ pos (n * 85 / 100)
window_side_lem low n =
    ap (λ d. quot (times d 85) 100) (distance low n)
    ∙ ap (λ d. quot d 100) (times_85 n)
    ∙ hundredth (n * 85)

window_corner_lem :
    (low : ℤ) (n : ℕ) → window_corner low (low +ℤ pos n) ≡ low +ℤ pos ((n - n * 85 / 100) / 2)
window_corner_lem low n =
    ap (λ s. low +ℤ quot (((low +ℤ pos n) -ℤ low) -ℤ s) 2) (window_side_lem low n)
    ∙ ap (λ d. low +ℤ quot (d -ℤ pos (n * 85 / 100)) 2) (distance low n)
    ∙ ap (λ d. low +ℤ quot d 2) (left_over n (n * 85 / 100) (omega arith))
    ∙ ap (λ m. low +ℤ m) (half (n - n * 85 / 100))

-- Inside `low` to `high`, not larger than 85 hundredths of it, with margins of the same size up to one
-- pixel.
abbrev pub Centred : ℤ → ℤ → ℤ → ℤ → Type 0
Centred low high corner side =
    let before = corner -ℤ low in
    let behind = high -ℤ (corner +ℤ side) in
    (pos 0 ≤ℤ before)
    × (before ≤ℤ behind)
    × (behind ≤ℤ before +ℤ pos 1)
    × (times side 100 ≤ℤ times (high -ℤ low) 85)

behind_lem :
    (low : ℤ) (n k s : ℕ)
    → k + s ≤ n
    → (low +ℤ pos n) -ℤ ((low +ℤ pos k) +ℤ pos s) ≡ pos (n - (k + s))
behind_lem (pos a) n k s fits = ground arith
behind_lem (negsuc a) n k s fits = ground arith

side-Centred :
    (low high : ℤ) → low ≤ℤ high → Centred low high (window_corner low high) (window_side low high)
side-Centred low high ordered =
    let (n, e) = apart low high ordered in
    let s = n * 85 / 100 in
    let k = (n - s) / 2 in
    let inside : Centred low (low +ℤ pos n) (low +ℤ pos k) (pos s) =
      let gap = behind_lem low n k s (omega arith) in
      (
        rw (distance low k) (omega arith),
        rw (distance low k, gap) (omega arith),
        rw (distance low k, gap) (ground arith),
        rw (distance low n, times_85 n) (ground arith),
      ) in
    subst (λ h. Centred low h (window_corner low h) (window_side low h)) (sym e)
      (subst (λ c. Centred low (low +ℤ pos n) c (window_side low (low +ℤ pos n)))
        (sym (window_corner_lem low n))
        (subst (Centred low (low +ℤ pos n) (low +ℤ pos k)) (sym (window_side_lem low n)) inside))

side-fits :
    (low high : ℤ)
    → low ≤ℤ high
    → high -ℤ low ≤ℤ pos 25264513
    → fits (times (high -ℤ low) 85) ≡ true
side-fits low high ordered short =
    let (n, e) = apart low high ordered in
    let d : high -ℤ low ≡ pos n = ap (λ h. h -ℤ low) e ∙ distance low n in
    let small : n ≤ 25264513 =
      let less : pos n ≤ℤ pos 25264513 = subst (λ (z : ℤ). z ≤ℤ pos 25264513) d short in
      omega (arith, less) in
    ap (λ z. fits (times z 85)) d ∙ ap fits (times_85 n) ∙ ground (arith, small)

-- If the work area is not inside out and has sides of at most 25264513 pixels, so that an `int` holds 85
-- times each, the window has a place, inside the work area, with both sides at most 85 hundredths of the
-- area's, and with the same margin at two opposite edges, up to one pixel.
pub window_place_lem :
    (answer : Option Rect)
    → (work_area answer).left ≤ℤ (work_area answer).right
    → (work_area answer).top ≤ℤ (work_area answer).bottom
    → (work_area answer).right -ℤ (work_area answer).left ≤ℤ pos 25264513
    → (work_area answer).bottom -ℤ (work_area answer).top ≤ℤ pos 25264513
    → let work = work_area answer in
      (place : Place) × (window_place answer ≡ some place)
      × Centred work.left work.right place.x place.width
      × Centred work.top work.bottom place.y place.height
unfolding window_place
window_place_lem answer wide high narrow low =
    let work = work_area answer in
    let across = side-fits work.left work.right wide narrow in
    let down = side-fits work.top work.bottom high low in
    (
      record {
        x = window_corner work.left work.right;
        y = window_corner work.top work.bottom;
        width = window_side work.left work.right;
        height = window_side work.top work.bottom;
      },
      if_true
          (fits (times (work.right -ℤ work.left) 85) && fits (times (work.bottom -ℤ work.top) 85)) _
          _ (ap (λ b. b && fits (times (work.bottom -ℤ work.top) 85)) across ∙ down),
      side-Centred work.left work.right wide,
      side-Centred work.top work.bottom high,
    )
