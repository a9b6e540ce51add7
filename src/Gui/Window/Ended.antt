-- ===== src/Gui/Window/Ended.antt =====
-- What ends the program.
use jitterentropy_analysis_d.Prelude.{
  Bool, true, false, Option, none, some, List, [], ◌∷◌, ◌++◌, ◌≡◌, inl, inr, refl, ap, ◌∙◌, sym,
  subst, Bool-cases, Option-cases, if_true, if_false, All, ◌&&◌, not,
}
use jitterentropy_analysis_d.Double.{Double}
use jitterentropy_analysis_d.Library.{Library}
use jitterentropy_analysis_d.Gui.State.{Gui}
use jitterentropy_analysis_d.Gui.Threads.{destroy}
use jitterentropy_analysis_d.Gui.Threads.Alone.{AloneIn}
use jitterentropy_analysis_d.Gui.Threads.Lives.{destroy_lem}
use jitterentropy_analysis_d.Gui.Window.{
  timer_fired, page_message, worker_step, resized, is_callback, is_awaited, Window, Wait, Awaited,
  environment, controller, nothing, no_controller, no_webview, no_registration, Input,
  environment_created, controller_created, closed, Program, running, over, killed, Chances, fresh,
  tear_down, destroy_window, on_environment, on_controller, dispatch, run, start,
}
use jitterentropy_analysis_d.Gui.Window.Sound.{Released, Open, Closed}
use jitterentropy_analysis_d.Gui.Window.Reached.{Reached, FineFrom, Reached-Alone, start_lem}

-- The inputs that end the program, by what is awaited, if a worker that is at work ends in time.
pub data Ending : Awaited → Input → Type 0 where
  by_user : {a : Awaited} {wait : Wait} → wait.in_time ≡ true → Ending a (closed wait)
  without_environment :
      {requested : Bool} {wait : Wait}
      → wait.in_time ≡ true
      → Ending environment (environment_created false requested wait)
  without_controller :
      {wait : Wait}
      → wait.in_time ≡ true
      → Ending controller (controller_created no_controller wait)
  without_webview :
      {wait : Wait} → wait.in_time ≡ true → Ending controller (controller_created no_webview wait)
  without_registration :
      {wait : Wait}
      → wait.in_time ≡ true
      → Ending controller (controller_created no_registration wait)

not_awaited : (a : Awaited) (i : Input) → is_callback i ≡ false → is_awaited a i ≡ false
not_awaited nothing i h = refl
not_awaited environment (environment_created ok requested wait) h = cc
not_awaited environment (controller_created creation wait) h = refl
not_awaited environment (timer_fired lock_busy between converts accepted) h = refl
not_awaited environment (page_message in_time created json) h = refl
not_awaited environment (worker_step luck i) h = refl
not_awaited environment resized h = refl
not_awaited environment (closed wait) h = refl
not_awaited controller (environment_created ok requested wait) h = refl
not_awaited controller (controller_created creation wait) h = cc
not_awaited controller (timer_fired lock_busy between converts accepted) h = refl
not_awaited controller (page_message in_time created json) h = refl
not_awaited controller (worker_step luck i) h = refl
not_awaited controller resized h = refl
not_awaited controller (closed wait) h = refl

module _ {C W F : Type 0} ⦃d : Double F⦄ (lib : Library C W) where
  -- It has an effect and leaves nothing.
  abbrev Closes : Option (Window C W F) → Type 0
  Closes x = (s : Window C W F) × (x ≡ some s) × Closed s

  destroy_window-Closes :
      (wait : Wait) (s : Window C W F)
      → wait.in_time ≡ true
      → AloneIn s.gui
      → Closes (destroy_window lib wait s)
  unfolding destroy_window
  destroy_window-Closes wait s in_time a =
      let (g, e, over_, shut, free, idle) = destroy_lem lib wait.luck s.gui a in
      let torn : Option (Gui C W F) → Option (Window C W F) =
        λ x. elim x [ none ↦ none | some g ↦ some (tear_down lib s g) ] in
      (
        tear_down lib s g,
        ap torn (ap (λ b. destroy lib b wait.luck s.gui) in_time ∙ e),
        (
          record {
            no_window = refl;
            no_browser = refl;
            no_view = refl;
            deaf = refl;
            no_timer = refl;
            idle = (over_, shut, free, idle);
          },
          refl,
          refl,
        ),
      )

  dispatch-Closes :
      (i : Input) (a : Awaited) (s : Window C W F)
      → Ending a i
      → AloneIn s.gui
      → Closes (dispatch lib i (record s { awaited = a }))
  unfolding dispatch on_environment on_controller
  dispatch-Closes i a s (by_user {wait = wait} t) alone =
      destroy_window-Closes wait (record s { awaited = a }) t alone
  dispatch-Closes i a s (without_environment {wait = wait} t) alone =
      destroy_window-Closes wait (record s { awaited = nothing }) t alone
  dispatch-Closes i a s (without_controller {wait} t) alone =
      destroy_window-Closes wait (record s { awaited = nothing }) t alone
  dispatch-Closes i a s (without_webview {wait} t) alone =
      destroy_window-Closes wait (record s { awaited = nothing; has_controller = true }) t alone
  dispatch-Closes i a s (without_registration {wait} t) alone =
      destroy_window-Closes wait
        (record s { awaited = nothing; has_controller = true; has_webview = true }) t alone

  abbrev next : List Input → Option (Window C W F) → Program C W F
  next inputs x = elim x [ none ↦ killed | some s ↦ run lib inputs s ]

  run-append :
      (inputs more : List Input) (s s' : Window C W F)
      → run lib inputs s ≡ running s'
      → run lib (inputs ++ more) s ≡ run lib more s'
  unfolding run
  run-append [] more s s' e = elim (Bool-cases s.quit) [
    | inl q ↦ absurd (cc (sym (if_true s.quit _ _ q) ∙ e))
    | inr q ↦
        let same : running s ≡ running s' = sym (if_false s.quit _ _ q) ∙ e in
        ap (run lib more) (cc same)
  ]
  run-append (i ∷ inputs) more s s' e = elim (Bool-cases s.quit) [
    | inl q ↦
        let drained = sym (if_true s.quit _ _ q) ∙ e in
        elim (Bool-cases (is_awaited s.awaited i)) [
          | inl h ↦ absurd (cc (sym (if_true (is_awaited s.awaited i) _ _ h) ∙ drained))
          | inr h ↦
              if_true s.quit _ _ q
              ∙ if_false (is_awaited s.awaited i) _ _ h
              ∙ run-append inputs more s s'
                  (sym (if_false (is_awaited s.awaited i) _ _ h) ∙ drained)
        ]
    | inr q ↦
        let went : next inputs (dispatch lib i s) ≡ running s' = sym (if_false s.quit _ _ q) ∙ e in
        if_false s.quit _ (next (inputs ++ more) (dispatch lib i s)) q
        ∙ elim (Option-cases (dispatch lib i s)) [
          | inl n ↦ absurd (cc (sym (ap (next inputs) n) ∙ went))
          | inr (s1, n) ↦
              ap (next (inputs ++ more)) n
              ∙ run-append inputs more s1 s' (sym (ap (next inputs) n) ∙ went)
        ]
  ]

  run-quit :
      (inputs : List Input) (s : Window C W F)
      → s.quit ≡ true
      → All (λ i. is_callback i ≡ false) inputs
      → run lib inputs s ≡ over 0 (record s { com_ready = false })
  unfolding run
  run-quit [] s q quiet = if_true s.quit _ _ q
  run-quit (i ∷ inputs) s q (other, quiet) =
      if_true s.quit _ _ q
      ∙ if_false (is_awaited s.awaited i) _ _ (not_awaited s.awaited i other)
      ∙ run-quit inputs s q quiet

  run_ends :
      (i : Input) (more : List Input) (s s' : Window C W F)
      → s.quit ≡ false
      → dispatch lib i s ≡ some s'
      → s'.quit ≡ true
      → All (λ i. is_callback i ≡ false) more
      → run lib (i ∷ more) s ≡ over 0 (record s' { com_ready = false })
  unfolding run
  run_ends i more s s' q e over_ quiet =
      if_false s.quit _ _ q ∙ ap (next more) e ∙ run-quit more s' over_ quiet

  start-append :
      (c : Chances) (w : W) (inputs more : List Input) (s : Window C W F)
      → start lib c w inputs ≡ running s
      → start lib c w (inputs ++ more) ≡ run lib more s
  unfolding start
  start-append c w inputs more s e =
      let begun : Window C W F = record (fresh lib w) { com_ready = true; exists = true } in
      let gone : Option (Window C W F) → Program C W F =
        λ x. elim x [ none ↦ killed | some s' ↦ over 1 (record s' { com_ready = false }) ] in
      elim (Bool-cases (not c.initialized)) [
        | inl p ↦ absurd (cc (sym (if_true (not c.initialized) _ _ p) ∙ e))
        | inr p ↦ elim (Bool-cases (not (c.registered && c.created))) [
          | inl q ↦ absurd (
              cc (
                sym (if_true (not (c.registered && c.created)) _ _ q)
                ∙ sym (if_false (not c.initialized) _ _ p)
                ∙ e))
          | inr q ↦
              let rest =
                sym (if_false (not (c.registered && c.created)) _ _ q)
                ∙ sym (if_false (not c.initialized) _ _ p)
                ∙ e in
              if_false (not c.initialized) _ _ p
              ∙ if_false (not (c.registered && c.created)) _ _ q
              ∙ elim (Bool-cases c.requested) [
                | inl r ↦
                    if_true c.requested _ (gone (destroy_window lib c.wait begun)) r
                    ∙ run-append inputs more (record begun { awaited = environment }) s
                        (sym (if_true c.requested _ (gone (destroy_window lib c.wait begun)) r)
                          ∙ rest)
                | inr r ↦
                    let went : gone (destroy_window lib c.wait begun) ≡ running s =
                      sym (if_false c.requested _ (gone (destroy_window lib c.wait begun)) r)
                      ∙ rest in
                    elim (Option-cases (destroy_window lib c.wait begun)) [
                      | inl n ↦ absurd (cc (sym (ap gone n) ∙ went))
                      | inr (s1, n) ↦ absurd (cc (sym (ap gone n) ∙ went))
                    ]
              ]
        ]
      ]

module _ {C W F : Type 0} ⦃d : Double F⦄ (lib : Library C W) where
  -- A program that goes on after some inputs ends with exit code 0 at the next one that closes its window,
  -- or by which the browser reports that the environment, the controller, the web view or the registration
  -- of the handler of messages has failed, if a worker that is at work ends in time and no callback of the
  -- browser is queued behind it. No window, browser, timer, worker
  -- thread or collector is then left, the locks are deleted and COM is closed.
  pub start_ends :
      (c : Chances) (w : W) (inputs more : List Input) (i : Input) (s : Window C W F)
      → start lib c w inputs ≡ running s
      → Ending s.awaited i
      → All (λ j. is_callback j ≡ false) more
      → (s' : Window C W F) × (start lib c w (inputs ++ (i ∷ more)) ≡ over 0 s')
        × Released s'
        × (s'.locks ≡ false)
        × (s'.com_ready ≡ false)
  start_ends c w inputs more i s e ending quiet =
      let o : Open (Reached lib w) s = subst (FineFrom lib F w) e (start_lem lib F w c inputs) in
      let (s1, went, (released, quit, locks)) =
        dispatch-Closes lib i s.awaited s ending (Reached-Alone lib F w s.gui o.holds) in
      let final : Window C W F = record s1 { com_ready = false } in
      let ends =
        start-append lib c w inputs (i ∷ more) s e
        ∙ run_ends lib i more s s1 o.going went quit quiet in
      let fine = subst (FineFrom lib F w) ends (start_lem lib F w c (inputs ++ (i ∷ more))) in
      (final, ends, fine.1, locks, refl)
