-- ===== src/Examples/Window.antt =====
-- Runs of the program with its window, the page it loads, and the references to a handler.
use jitterentropy_analysis_d.Prelude.{
  ℕ, true, false, none, some, List, [], ◌∷◌, ◌++◌, ◌≡◌, ◌==◌, refl, arith,
}
use jitterentropy_analysis_d.Bridge.Getters.{codes}
use jitterentropy_analysis_d.Double.{whole}
use jitterentropy_analysis_d.Gui.Window.{
  Window, Wait, complete, Input, environment_created, controller_created, timer_fired, page_message,
  worker_step, closed, Chances, over, fresh, on_environment, on_controller, dispatch, run, start,
}
use jitterentropy_analysis_d.Gui.Window.Sound.{Released}
use jitterentropy_analysis_d.Gui.Window.Reached.{FineFrom, start_lem}
use jitterentropy_analysis_d.Gui.Window.Ended.{by_user, start_ends}
use jitterentropy_analysis_d.Prelude.Int.{pos}
use jitterentropy_analysis_d.Gui.Place.{Rect, Place, window_place}
use jitterentropy_analysis_d.Gui.Place.Centred.{Centred, window_place_lem}
use jitterentropy_analysis_d.Gui.Counted.{releases, asks, created, Use, use_all}
use jitterentropy_analysis_d.Gui.Counted.Owned.{held, use_all_lem}
use jitterentropy_analysis_d.Examples.Rng.{Collector, World, outset, zeros}

abbrev wait : Wait
wait = record { in_time = true; luck = record { allocated = true; cancelled_at = none } }

abbrev chances : Chances
chances = record {
  initialized = true;
  registered = true;
  created = true;
  requested = true;
  wait = wait;
}

-- The browser is there.
abbrev begin_ : List Input
begin_ = environment_created true true wait ∷ controller_created (complete true) wait ∷ []

abbrev session : List Input
session =
    begin_
    ++ (timer_fired false [] true true
        ∷ page_message true true (codes "{\"action\":\"generate\",\"bytes\":8}")
        ∷ worker_step wait.luck 0
        ∷ timer_fired true ((wait.luck, 0) ∷ []) true false
        ∷ closed wait
        ∷ [])

start_lem_example : FineFrom zeros ℕ outset (start zeros chances outset session)
start_lem_example = start_lem zeros ℕ outset chances session

-- With the browser and the timer.
abbrev ready : Window Collector World ℕ
ready = record (fresh zeros outset) {
  com_ready = true;
  exists = true;
  has_controller = true;
  has_webview = true;
  listening = true;
  timer = true;
}

start_ends_example :
    (s' : Window Collector World ℕ) × (start zeros chances outset (begin_ ++ (closed wait ∷ []))
      ≡ over 0 s')
    × Released s'
    × (s'.locks ≡ false)
    × (s'.com_ready ≡ false)
unfolding start run dispatch on_environment on_controller
start_ends_example =
    start_ends zeros chances outset begin_ [] (closed wait) ready refl (by_user refl) tt

-- The browser takes a reference, the program gives up its own, and the browser gives up its own.
abbrev uses : List Use
uses = asks true true ∷ releases ∷ asks true false ∷ releases ∷ []

use_all_lem_example :
    ((use_all uses created).references ≡ 0) × ((use_all uses created).deleted ≡ (0 == 0))
unfolding held
use_all_lem_example = use_all_lem uses 0 refl (omega arith)

abbrev work : Rect
work = record { left = pos 72; top = pos 0; right = pos 1920; bottom = pos 1080 }

-- Beside a bar of 72 pixels on the left of a screen of 1920 by 1080.
window_place_lem_example :
    (place : Place) × (window_place (some work) ≡ some place)
    × Centred work.left work.right place.x place.width
    × Centred work.top work.bottom place.y place.height
window_place_lem_example =
    window_place_lem (some work) (omega arith) (omega arith) (omega arith) (omega arith)
