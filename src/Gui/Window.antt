-- ===== src/Gui/Window.antt =====
-- `main` of app/main_gui.cpp, the callbacks of the embedded browser and `WndProc`. What Windows and
-- the browser answer are arguments. A callback comes only while it is waited for, and the page reaches the
-- handler of its messages only while that is registered.
pub mod Sound
pub mod Ended
pub mod Reached
use jitterentropy_analysis_d.Prelude.{
  ℕ, Bool, true, false, Option, none, some, List, [], ◌∷◌, ◌&&◌, not, if◌then◌else◌,
}
use jitterentropy_analysis_d.Double.{Double}
use jitterentropy_analysis_d.Library.{Library}
use jitterentropy_analysis_d.Bridge.Text.{Bytes}
use jitterentropy_analysis_d.Gui.State.{Gui}
use jitterentropy_analysis_d.Gui.Threads.{Luck, go_on, destroy}
use jitterentropy_analysis_d.Gui.Messages.{invoke}
use jitterentropy_analysis_d.Gui.Telemetry.{Frame, build_telemetry}
use jitterentropy_analysis_d.Gui.Events.{launch}

-- The callback that comes next: of the environment, of the controller, or none.
pub data Awaited : Type 0 where
  environment controller nothing : Awaited

-- What the program holds besides the variables of `Gui`: COM, the four locks, the window, the timer,
-- `g_controller`, `g_webview` and the registration of the handler of messages. `quit` says that
-- `PostQuitMessage` was called, and `sent` has the frames that the page was sent, newest first.
pub record Window (C W F : Type 0) : Type 0 where
  pub gui : Gui C W F
  pub com_ready : Bool
  pub locks : Bool
  pub exists : Bool
  pub awaited : Awaited
  pub has_controller : Bool
  pub has_webview : Bool
  pub listening : Bool
  pub timer : Bool
  pub quit : Bool
  pub sent : List (Frame F)

-- What closing meets: whether a worker ends in time, and its luck until then.
pub record Wait : Type 0 where
  pub in_time : Bool
  pub luck : Luck

-- What the callback of the controller meets: no controller, no `ICoreWebView2`, no registration, or
-- none of these failures, with whether the timer could be set.
pub data Creation : Type 0 where
  no_controller no_webview no_registration : Creation
  complete : Bool → Creation

-- What the loop over the messages comes across, and the steps of worker threads. A callback of the
-- environment says whether there is one, and whether the controller can be asked for; a tick whether the
-- wrapper is locked, which steps worker threads do while the frame is built, whether the text can be converted, and the page takes it; a message of the page as in
-- Gui/Events.
pub data Input : Type 0 where
  environment_created : Bool → Bool → Wait → Input
  controller_created : Creation → Wait → Input
  timer_fired : Bool → List (Luck × ℕ) → Bool → Bool → Input
  page_message : Bool → Bool → Bytes → Input
  worker_step : Luck → ℕ → Input
  resized : Input
  closed : Wait → Input

-- The program goes on, or it has ended with an exit code, or by `ExitProcess(0)`; or the callback of the
-- browser that is awaited comes behind `WM_DESTROY`, from where it is not followed.
pub data Program (C W F : Type 0) : Type 0 where
  running : Window C W F → Program C W F
  over : ℕ → Window C W F → Program C W F
  killed : Program C W F
  overtaken : Window C W F → Program C W F

-- A callback of the browser.
abbrev pub is_callback : Input → Bool
is_callback (environment_created ok requested wait) = true
is_callback (controller_created creation wait) = true
is_callback (timer_fired lock_busy between converts accepted) = false
is_callback (page_message in_time created json) = false
is_callback (worker_step luck i) = false
is_callback resized = false
is_callback (closed wait) = false

-- The callback that is awaited.
abbrev pub is_awaited : Awaited → Input → Bool
is_awaited nothing i = false
is_awaited environment (environment_created ok requested wait) = true
is_awaited environment (controller_created creation wait) = false
is_awaited environment (timer_fired lock_busy between converts accepted) = false
is_awaited environment (page_message in_time created json) = false
is_awaited environment (worker_step luck i) = false
is_awaited environment resized = false
is_awaited environment (closed wait) = false
is_awaited controller (environment_created ok requested wait) = false
is_awaited controller (controller_created creation wait) = true
is_awaited controller (timer_fired lock_busy between converts accepted) = false
is_awaited controller (page_message in_time created json) = false
is_awaited controller (worker_step luck i) = false
is_awaited controller resized = false
is_awaited controller (closed wait) = false

-- What `main` meets: whether `CoInitializeEx`, `RegisterClassEx`, `CreateWindowEx` and
-- `CreateCoreWebView2EnvironmentWithOptions` succeed.
pub record Chances : Type 0 where
  pub initialized : Bool
  pub registered : Bool
  pub created : Bool
  pub requested : Bool
  pub wait : Wait

module _ {C W F : Type 0} ⦃d : Double F⦄ (lib : Library C W) where
  -- `WM_DESTROY` behind `shutdown_rng`.
  abbrev pub tear_down : Window C W F → Gui C W F → Window C W F
  tear_down s g = record s {
    gui = g;
    exists = false;
    timer = false;
    has_webview = false;
    listening = false;
    has_controller = false;
    locks = false;
    quit = true;
  }

  -- `DestroyWindow`, which runs `WM_DESTROY`.
  unfoldable pub destroy_window : Wait → Window C W F → Option (Window C W F)
  destroy_window wait s = elim (destroy lib wait.in_time wait.luck s.gui) [
    | none ↦ none
    | some g ↦ some (tear_down s g)
  ]

  -- `EnvironmentCreatedHandler::Invoke`
  unfoldable pub on_environment : Bool → Bool → Wait → Window C W F → Option (Window C W F)
  unfolding destroy_window
  on_environment ok requested wait s =
      if not ok
      then destroy_window wait (record s { awaited = nothing })
      else some (record s { awaited = if requested then controller else nothing })

  -- `ControllerCreatedHandler::Invoke`
  unfoldable pub on_controller : Creation → Wait → Window C W F → Option (Window C W F)
  unfolding destroy_window
  on_controller no_controller wait s = destroy_window wait (record s { awaited = nothing })
  on_controller no_webview wait s =
      destroy_window wait (record s { awaited = nothing; has_controller = true })
  on_controller no_registration wait s =
      destroy_window wait
        (record s { awaited = nothing; has_controller = true; has_webview = true })
  on_controller (complete timer_set) wait s = some (record s {
    awaited = nothing;
    has_controller = true;
    has_webview = true;
    listening = true;
    timer = timer_set;
  })

  -- `WM_TIMER`
  unfoldable pub on_timer : Bool → List (Luck × ℕ) → Bool → Bool → Window C W F → Window C W F
  on_timer lock_busy between converts accepted s =
      let (frame, g) = build_telemetry lib lock_busy between s.gui in
      if s.timer && s.has_webview
      then record s { gui = g; sent = if converts && accepted then frame ∷ s.sent else s.sent }
      else s

  -- `none` is `ExitProcess`.
  unfoldable pub dispatch : Input → Window C W F → Option (Window C W F)
  unfolding destroy_window on_environment on_controller on_timer
  dispatch (environment_created ok requested wait) s = elim s.awaited [
    | environment ↦ on_environment ok requested wait s
    | controller ↦ some s
    | nothing ↦ some s
  ]
  dispatch (controller_created creation wait) s = elim s.awaited [
    | environment ↦ some s
    | controller ↦ on_controller creation wait s
    | nothing ↦ some s
  ]
  dispatch (timer_fired lock_busy between converts accepted) s =
      some (on_timer lock_busy between converts accepted s)
  dispatch (page_message in_time created json) s =
      some (if s.listening then record s { gui = invoke lib in_time created json s.gui } else s)
  dispatch (worker_step luck i) s = some (record s { gui = go_on lib luck i s.gui })
  dispatch resized s = some s
  dispatch (closed wait) s = destroy_window wait s

  -- The loop over the messages, and the end of `main`. Behind `PostQuitMessage` the inputs that are
  -- queued come first; the window they are for is gone, but a callback of the browser is not for it.
  unfoldable pub run : List Input → Window C W F → Program C W F
  unfolding dispatch
  run [] s = if s.quit then over 0 (record s { com_ready = false }) else running s
  run (i ∷ inputs) s =
      let drained = run inputs s in
      if s.quit
      then if is_awaited s.awaited i then overtaken s else drained
      else elim (dispatch i s) [ none ↦ killed | some s' ↦ run inputs s' ]

  -- The variables before the calls that can fail.
  abbrev pub fresh : W → Window C W F
  fresh w = record {
    gui = launch lib w;
    com_ready = false;
    locks = true;
    exists = false;
    awaited = nothing;
    has_controller = false;
    has_webview = false;
    listening = false;
    timer = false;
    quit = false;
    sent = [];
  }

  -- `main`
  unfoldable pub start : Chances → W → List Input → Program C W F
  unfolding destroy_window run
  start c w inputs =
      let s = fresh w in
      let begun = record s { com_ready = true; exists = true } in
      if not c.initialized
      then over 1 (record s { locks = false })
      else if not (c.registered && c.created)
      then over 1 (record s { com_ready = true })
      else if c.requested
      then run inputs (record begun { awaited = environment })
      else elim (destroy_window c.wait begun) [
        | none ↦ killed
        | some s' ↦ over 1 (record s' { com_ready = false })
      ]
