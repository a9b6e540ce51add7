-- ===== src/Gui/Window/Reached.antt =====
-- The program with its window does to the variables what a sequence of events does.
use jitterentropy_analysis_d.Prelude.{
  Bool, true, false, none, some, List, [], ◌∷◌, ◌++◌, ◌≡◌, inl, inr, refl, ap, ◌∙◌, sym, subst,
  OnSome, if-elim, ◌&&◌, not,
}
use jitterentropy_analysis_d.Double.{Double}
use jitterentropy_analysis_d.Library.{Library}
use jitterentropy_analysis_d.Gui.State.{Gui}
use jitterentropy_analysis_d.Gui.Threads.Alone.{AloneIn}
use jitterentropy_analysis_d.Gui.Threads.Lives.{Idle}
use jitterentropy_analysis_d.Gui.Telemetry.{ask}
use jitterentropy_analysis_d.Gui.Events.{Event, launch, happen, run_events}
use jitterentropy_analysis_d.Gui.Events.Append.{run_events-append, run_events-one}
use jitterentropy_analysis_d.Gui.Events.Alone.{run_events_lem}
use jitterentropy_analysis_d.Gui.Window.{
  Window, Input, Program, over, killed, environment, Chances, destroy_window, fresh, start,
}
use jitterentropy_analysis_d.Gui.Window.Sound.{Open, Closed, Fine, run-Fine, destroy_window-Closed}

-- The variables are as some events leave them.
abbrev pub Reached : {C W F : Type 0} ⦃d : Double F⦄ → Library C W → W → Gui C W F → Type 0
Reached lib w g = (events : List Event) × (g ≡ run_events lib events (launch lib w))

module _ {C W : Type 0} (lib : Library C W) (F : Type 0) ⦃d : Double F⦄ (w : W) where
  pub Reached-happen :
      (e : Event) (g : Gui C W F) → Reached lib w g → Reached lib w (happen lib e g)
  Reached-happen e g (events, q) = (
    events ++ (e ∷ []),
    ap (happen lib e) q
        ∙ sym (
            run_events-append lib events (e ∷ []) (launch lib w)
            ∙ run_events-one lib e (run_events lib events (launch lib w))),
  )

  pub Reached-Alone : (g : Gui C W F) → Reached lib w g → AloneIn g
  Reached-Alone g (events, q) = subst AloneIn (sym q) (run_events_lem lib F events w)

  pub launch-Reached : Reached {F = F} lib w (launch lib w)
  unfolding run_events
  launch-Reached = ([], refl)

  launch-Idle : Idle {F = F} (launch lib w)
  unfolding launch ask
  launch-Idle = (refl, refl, refl, refl)

  -- Of a program that started in the world `w`.
  abbrev pub FineFrom : Program C W F → Type 0
  FineFrom = Fine lib (Reached lib w) Reached-happen Reached-Alone

  -- Before there is a window.
  unopened :
      (locks ready : Bool)
      → FineFrom (over 1 (record (fresh lib w) { locks = locks; com_ready = ready }))
  unopened locks ready = (
    inr refl,
    record {
      no_window = refl;
      no_browser = refl;
      no_view = refl;
      deaf = refl;
      no_timer = refl;
      idle = launch-Idle;
    },
    λ z. cc,
  )

  -- With the window, before the loop.
  opened :
      Open {F = F}
        (Reached lib w)
        (record (fresh lib w) { com_ready = true; exists = true; awaited = environment })
  opened = record {
    holds = launch-Reached;
    window = refl;
    locked = refl;
    going = refl;
    ticks = λ h. cc;
    listens = λ h. cc;
    views = λ h. cc;
  }

  failed : (s : Window C W F) → Closed s → FineFrom (over 1 (record s { com_ready = false }))
  failed s (released, quit, locks) = (
    inr refl,
    record {
      no_window = released.no_window;
      no_browser = released.no_browser;
      no_view = released.no_view;
      deaf = released.deaf;
      no_timer = released.no_timer;
      idle = released.idle;
    },
    λ z. (locks, refl),
  )

  -- Whatever Windows, the browser, the page and the worker threads do: while the program goes on, its
  -- variables are as some events of Gui/Events leave them, the window and the locks exist, and the timer
  -- and the messages of the page come only with the browser. If it returns from `main`, the exit code is 0
  -- or 1, and no window, browser, timer, worker thread or collector is left; and if it is 0, the locks are
  -- deleted and COM is closed. If an awaited callback of the browser comes behind `WM_DESTROY`, it finds
  -- the window gone and the locks deleted. Nothing is said of an end by `ExitProcess`.
  pub start_lem : (c : Chances) (inputs : List Input) → FineFrom (start lib c w inputs)
  unfolding start
  start_lem c inputs =
      let begun : Window C W F = record (fresh lib w) { com_ready = true; exists = true } in
      if-elim FineFrom (not c.initialized) (unopened false false) (
        if-elim FineFrom (not (c.registered && c.created)) (unopened true true) (
          if-elim FineFrom c.requested
            (run-Fine lib (Reached lib w) Reached-happen Reached-Alone inputs
              (record begun { awaited = environment }) (inl opened))
            (elim (destroy_window lib c.wait begun)
                as (λ x.
                  OnSome Closed x
                  → FineFrom (elim x as (λ y. Program C W F) [
                    | none ↦ killed
                    | some s ↦ over 1 (record s { com_ready = false })
                  ])) [ none ↦ λ u. tt | some s ↦ λ k. failed s k ]
              (destroy_window-Closed lib c.wait begun (Reached-Alone begun.gui launch-Reached)))))
