-- ===== src/Gui/Place.antt =====
-- `main` of app/main_gui.cpp: the place of the window in the work area of the screen. A product that an
-- `int` cannot hold is `none`, since the source does not say what becomes of it.
pub mod Centred
use jitterentropy_analysis_d.Prelude.{
  ℕ, ◌+◌, ◌*◌, ◌/◌, Bool, leb, ◌&&◌, if◌then◌else◌, Option, none, some,
}
use jitterentropy_analysis_d.Prelude.Int.{
  ℤ, pos, pos_part, neg_part, negsuc, ◌+ℤ◌, ◌-ℤ◌, times, quot,
}

pub record Rect : Type 0 where
  pub left : ℤ
  pub top : ℤ
  pub right : ℤ
  pub bottom : ℤ

-- The arguments of `CreateWindowEx`.
pub record Place : Type 0 where
  pub x : ℤ
  pub y : ℤ
  pub width : ℤ
  pub height : ℤ

-- What `SystemParametersInfo` puts into `work`, if it succeeds.
abbrev pub work_area : Option Rect → Rect
work_area none = record { left = pos 0; top = pos 0; right = pos 1280; bottom = pos 800 }
work_area (some r) = r

-- `win_w` from the left and right, `win_h` from the top and bottom.
abbrev pub window_side : ℤ → ℤ → ℤ
window_side low high = quot (times (high -ℤ low) 85) 100

abbrev pub window_corner : ℤ → ℤ → ℤ
window_corner low high = low +ℤ quot ((high -ℤ low) -ℤ window_side low high) 2

-- What an `int` can hold.
abbrev pub fits : ℤ → Bool
fits z = leb (pos_part z) 2147483647 && leb (neg_part z) 2147483648

unfoldable pub window_place : Option Rect → Option Place
window_place answer =
    let work = work_area answer in
    if fits (times (work.right -ℤ work.left) 85) && fits (times (work.bottom -ℤ work.top) 85)
    then some record {
      x = window_corner work.left work.right;
      y = window_corner work.top work.bottom;
      width = window_side work.left work.right;
      height = window_side work.top work.bottom;
    }
    else none
