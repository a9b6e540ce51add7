-- ===== src/Gui/Window/Sound.antt =====
-- What holds of the window while the program goes on, and when it has ended.
use jitterentropy_analysis_d.Prelude.{
  OnSome, true, false, Option, none, some, List, [], ◌∷◌, ◌≡◌, ◌⊎◌, inl, inr, refl, if-elim,
  if-cases, ◌&&◌, not,
}
use jitterentropy_analysis_d.Double.{Double}
use jitterentropy_analysis_d.Library.{Library}
use jitterentropy_analysis_d.Gui.State.{Gui}
use jitterentropy_analysis_d.Gui.Threads.{destroy}
use jitterentropy_analysis_d.Gui.Threads.Alone.{AloneIn}
use jitterentropy_analysis_d.Gui.Threads.Lives.{Idle, destroy-Idle}
use jitterentropy_analysis_d.Gui.Telemetry.{Frame, build_telemetry}
use jitterentropy_analysis_d.Gui.Events.{Event, message, tick, step, happen}
use jitterentropy_analysis_d.Gui.Window.{
  Window, Wait, Awaited, environment, controller, nothing, Creation, no_controller, no_webview,
  no_registration, complete, Input, environment_created, controller_created, timer_fired,
  page_message, worker_step, resized, closed, Program, running, over, killed, overtaken, is_awaited,
  tear_down, destroy_window, on_environment, on_controller, on_timer, dispatch, run,
}

-- Nothing of the window and the browser is left.
pub record Released {C W F : Type 0} (s : Window C W F) : Type 0 where
  pub no_window : s.exists ≡ false
  pub no_browser : s.has_controller ≡ false
  pub no_view : s.has_webview ≡ false
  pub deaf : s.listening ≡ false
  pub no_timer : s.timer ≡ false
  pub idle : Idle s.gui

-- Of a program that goes on. The timer and the messages of the page need the browser, and all need the
-- window and the locks.
pub record Open {C W F : Type 0} (P : Gui C W F → Type 0) (s : Window C W F) : Type 0 where
  pub holds : P s.gui
  pub window : s.exists ≡ true
  pub locked : s.locks ≡ true
  pub going : s.quit ≡ false
  pub ticks : s.timer ≡ true → s.has_webview ≡ true
  pub listens : s.listening ≡ true → s.has_webview ≡ true
  pub views : s.has_webview ≡ true → s.has_controller ≡ true

-- Behind `WM_DESTROY`.
abbrev pub Closed : {C W F : Type 0} → Window C W F → Type 0
Closed s = Released s × (s.quit ≡ true) × (s.locks ≡ false)

module _ {C W F : Type 0} ⦃d : Double F⦄ (lib : Library C W) where
  pub destroy_window-Closed :
      (wait : Wait) (s : Window C W F) → AloneIn s.gui → OnSome Closed (destroy_window lib wait s)
  unfolding destroy_window
  destroy_window-Closed wait s a =
      (elim (destroy lib wait.in_time wait.luck s.gui)
          as (λ x.
            OnSome Idle x
            → OnSome Closed (elim x as (λ y. Option (Window C W F)) [
              | none ↦ none
              | some g ↦ some (tear_down lib s g)
            ])) [
              | none ↦ λ i. tt
              | some g ↦ λ i. (
                record {
                  no_window = refl;
                  no_browser = refl;
                  no_view = refl;
                  deaf = refl;
                  no_timer = refl;
                  idle = i;
                },
                refl,
                refl,
              )
            ])
        (destroy-Idle lib wait.in_time wait.luck s.gui a)

-- A property of the variables that every event keeps, and that says of the threads what closing the window
-- relies on.
module _ {C W F : Type 0} ⦃d : Double F⦄ (lib : Library C W) (P : Gui C W F → Type 0)
    (keeps : (e : Event) (g : Gui C W F) → P g → P (happen lib e g))
    (alone : (g : Gui C W F) → P g → AloneIn g) where
  abbrev pub Sound : Window C W F → Type 0
  Sound s = Open P s ⊎ Closed s

  closing :
      (wait : Wait) (s : Window C W F) → AloneIn s.gui → OnSome Sound (destroy_window lib wait s)
  closing wait s a =
      elim (destroy_window lib wait s) as (λ x. OnSome Closed x → OnSome Sound x) [
        | none ↦ λ c. tt
        | some s' ↦ λ c. inr c
      ]
        (destroy_window-Closed lib wait s a)

  on_controller-Sound :
      (creation : Creation) (wait : Wait) (s : Window C W F)
      → Open P s
      → OnSome Sound (on_controller lib creation wait s)
  unfolding on_controller
  on_controller-Sound no_controller wait s o =
      closing wait (record s { awaited = nothing }) (alone s.gui o.holds)
  on_controller-Sound no_webview wait s o =
      closing wait (record s { awaited = nothing; has_controller = true }) (alone s.gui o.holds)
  on_controller-Sound no_registration wait s o =
      closing wait (record s { awaited = nothing; has_controller = true; has_webview = true })
        (alone s.gui o.holds)
  on_controller-Sound (complete timer_set) wait s o = inl record {
    holds = o.holds;
    window = o.window;
    locked = o.locked;
    going = o.going;
    ticks = λ t. refl;
    listens = λ t. refl;
    views = λ t. refl;
  }

  -- A change of the variables and of what was sent.
  same_window :
      (s : Window C W F) (g : Gui C W F) {sent : List (Frame F)}
      → Open P s
      → P g
      → Open P (record s { gui = g; sent = sent })
  same_window s g o p = record {
    holds = p;
    window = o.window;
    locked = o.locked;
    going = o.going;
    ticks = o.ticks;
    listens = o.listens;
    views = o.views;
  }

  awaiting : (s : Window C W F) (a : Awaited) → Open P s → Open P (record s { awaited = a })
  awaiting s a o = record {
    holds = o.holds;
    window = o.window;
    locked = o.locked;
    going = o.going;
    ticks = o.ticks;
    listens = o.listens;
    views = o.views;
  }

  pub dispatch-Sound : (i : Input) (s : Window C W F) → Open P s → OnSome Sound (dispatch lib i s)
  unfolding dispatch on_timer on_environment happen
  dispatch-Sound (environment_created ok requested wait) s o =
      elim s.awaited
        as (λ x. OnSome Sound (elim x as (λ y. Option (Window C W F)) [
          | environment ↦ on_environment lib ok requested wait s
          | controller ↦ some s
          | nothing ↦ some s
        ])) [
          | environment ↦
              if-elim (OnSome Sound) (not ok)
                (closing wait (record s { awaited = nothing }) (alone s.gui o.holds))
                (inl (awaiting s _ o))
          | controller ↦ inl o
          | nothing ↦ inl o
        ]
  dispatch-Sound (controller_created creation wait) s o =
      elim s.awaited
        as (λ x. OnSome Sound (elim x as (λ y. Option (Window C W F)) [
          | environment ↦ some s
          | controller ↦ on_controller lib creation wait s
          | nothing ↦ some s
        ])) [
          | environment ↦ inl o
          | controller ↦ on_controller-Sound creation wait s o
          | nothing ↦ inl o
        ]
  dispatch-Sound (timer_fired lock_busy between converts accepted) s o =
      let g = (build_telemetry lib lock_busy between s.gui).1 in
      inl (
        if-elim (Open P) (s.timer && s.has_webview)
          (same_window s g o (keeps (tick lock_busy between) s.gui o.holds)) o)
  dispatch-Sound (page_message in_time created json) s o = inl (
      if-elim (Open P) s.listening
        (same_window s _ o (keeps (message in_time created json) s.gui o.holds)) o)
  dispatch-Sound (worker_step luck i) s o =
      inl (same_window s _ o (keeps (step luck i) s.gui o.holds))
  dispatch-Sound resized s o = inl o
  dispatch-Sound (closed wait) s o = closing wait s (alone s.gui o.holds)

  -- The state of a program.
  abbrev pub Fine : Program C W F → Type 0
  Fine (running s) = Open P s
  Fine (over code s) =
      ((code ≡ 0) ⊎ (code ≡ 1))
      × Released s
      × (code ≡ 0 → (s.locks ≡ false) × (s.com_ready ≡ false))
  Fine killed = Unit
  Fine (overtaken s) = Closed s

  ended : (s : Window C W F) → Closed s → Fine (over 0 (record s { com_ready = false }))
  ended s (released, quit, locks) = (
    inl refl,
    record {
      no_window = released.no_window;
      no_browser = released.no_browser;
      no_view = released.no_view;
      deaf = released.deaf;
      no_timer = released.no_timer;
      idle = released.idle;
    },
    λ z. (locks, refl),
  )

  pub run-Fine : (inputs : List Input) (s : Window C W F) → Sound s → Fine (run lib inputs s)
  unfolding run
  run-Fine [] s (inr c) = if-cases Fine s.quit (λ q. ended s c) (λ n. absurd (cc (n, c.1)))
  run-Fine (i ∷ inputs) s (inr c) =
      if-cases Fine s.quit
        (λ q. if-elim Fine (is_awaited s.awaited i) c (run-Fine inputs s (inr c)))
        (λ n. absurd (cc (n, c.1)))
  run-Fine [] s (inl o) = if-cases Fine s.quit (λ q. absurd (cc (q, o.going))) (λ n. o)
  run-Fine (i ∷ inputs) s (inl o) =
      if-cases Fine s.quit (λ q. absurd (cc (q, o.going)))
        (λ n.
          (elim (dispatch lib i s)
              as (λ x.
                OnSome Sound x
                → Fine (elim x as (λ y. Program C W F) [
                  | none ↦ killed
                  | some s' ↦ run lib inputs s'
                ])) [ none ↦ λ u. tt | some s' ↦ λ c. run-Fine inputs s' c ])
            (dispatch-Sound i s o))
