-- ===== src/Examples/Gui.antt =====
-- Messages, jobs and frames of the program for the window, over the library of zeros.
use jitterentropy_analysis_d.Prelude.{
  ℕ, ◌*◌, ◌≤◌, true, false, none, some, List, [], ◌∷◌, ◌≡◌, ◌≢◌, refl, inl, inr, arith, length,
  ◌==◌,
}
use jitterentropy_analysis_d.Prelude.Int.{pos}
use jitterentropy_analysis_d.Double.{whole}
use jitterentropy_analysis_d.Rng.Allocated.{Descends, InUse}
use jitterentropy_analysis_d.Bridge.Text.{is_ws}
use jitterentropy_analysis_d.Bridge.Text.Escape.{is_plain}
use jitterentropy_analysis_d.Bridge.Object.{Object, equal, find, ends_token, token_ok}
use jitterentropy_analysis_d.Bridge.Object.Keys.{Distinct}
use jitterentropy_analysis_d.Bridge.Object.RoundTrip.{
  show_object, AllReadable, parse_flat_object-show_object,
}
use jitterentropy_analysis_d.Bridge.Getters.{codes, get, get_string}
use jitterentropy_analysis_d.Gui.State.{
  generating, measuring, Gui, try_admit_job, reap_worker_handle,
}
use jitterentropy_analysis_d.Gui.State.Sums.{IsConsistent}
use jitterentropy_analysis_d.Gui.Jobs.{generate_work}
use jitterentropy_analysis_d.Gui.Jobs.Traced.{Produces, generate_work_lem}
use jitterentropy_analysis_d.Rng.Journal.{log_of}
use jitterentropy_analysis_d.Gui.Jobs.Cancelled.{generate_work_cancelled}
use jitterentropy_analysis_d.Print.Hex.{from_hex, from_hex-hex}
use jitterentropy_analysis_d.Gui.Threads.{Luck, start_job, destroy, work}
use jitterentropy_analysis_d.Gui.Threads.Alone.{Alone}
use jitterentropy_analysis_d.Gui.Threads.Lives.{destroy_lem}
use jitterentropy_analysis_d.Gui.Messages.{
  configure, cancel_benchmark, read_settings, action_named, action_in, act, invoke,
}
use jitterentropy_analysis_d.Gui.Messages.Busy.{told, answered, Undisturbed, invoke_busy}
use jitterentropy_analysis_d.Gui.Messages.Waiting.{Configures, invoke_configure, invoke-pending}
use jitterentropy_analysis_d.Gui.Messages.Cancel.{act_cancel}
use jitterentropy_analysis_d.Print.{hex}
use jitterentropy_analysis_d.Gui.Events.{
  Event, message, tick, step, no_result, no_timeline, launch, run_events,
}
use jitterentropy_analysis_d.Gui.Events.Alone.{run_events_lem}
use jitterentropy_analysis_d.Gui.Events.Configured.{run_events_configured}
use jitterentropy_analysis_d.Gui.Events.Session.{run_events-IsConsistent}
use jitterentropy_analysis_d.Examples.Rng.{
  zeros-PutsBytes, Collector, zeros, zeros-Delivers, zeros-StaysNone, zeros-Journal, World, outset,
  before,
}

-- {"action":"generate"}
abbrev pub generate_object : Object
generate_object = (codes "action", record { is_string = true; text = codes "generate" }) ∷ []

-- {"action":"configure","forceFips":true}
abbrev configure_object : Object
configure_object =
    (codes "action", record { is_string = true; text = codes "configure" })
    ∷ (codes "forceFips", record { is_string = false; text = codes "true" })
    ∷ []

abbrev pub lucky : Luck
lucky = record { allocated = true; cancelled_at = none }

-- A job of 32 bytes up to its publication, a frame, and a configuration.
abbrev events : List Event
events =
    message true true (show_object generate_object)
    ∷ step lucky 0
    ∷ step lucky 0
    ∷ step lucky 0
    ∷ tick false []
    ∷ step lucky 0
    ∷ message true true (show_object configure_object)
    ∷ []

abbrev idle : Gui Collector World ℕ
idle = launch zeros outset

abbrev at_work : Gui Collector World ℕ
at_work = record idle { busy = true }

-- A result waits.
abbrev pub answering : Gui Collector World ℕ
answering = record idle {
  pending = record no_result { valid = true; action = codes "generate"; bytes = 32 };
  timeline = record no_timeline { valid = true; serialization_pending = true };
}

configure_object-AllReadable : AllReadable configure_object
unfolding is_plain ends_token token_ok is_ws
configure_object-AllReadable = (
  (
    (refl, (refl, (refl, (refl, (refl, (refl, tt)))))),
    inl (refl, (refl, (refl, (refl, (refl, (refl, (refl, (refl, (refl, (refl, tt)))))))))),
  ),
  (
    (
      (refl, (refl, (refl, (refl, (refl, (refl, (refl, (refl, (refl, tt))))))))),
      inr (
        refl,
        record { accepted = refl; unquoted = refl; unbroken = (refl, (refl, (refl, (refl, tt)))) },
      ),
    ),
    tt,
  ),
)

configure_object-Distinct : Distinct configure_object
unfolding find equal
configure_object-Distinct = (refl, (refl, tt))

configure_read : action_in (show_object configure_object) ≡ some (configure, configure_object)
unfolding action_in get_string get find equal action_named
configure_read =
    rw
      (
        parse_flat_object-show_object configure_object configure_object-Distinct
            configure_object-AllReadable,
        action_in,
      )
      refl

run_events_lem_example :
    let g : Gui Collector World ℕ = run_events zeros events (launch zeros outset) in
    Alone g.busy g.handle g.threads
run_events_lem_example = run_events_lem zeros ℕ events outset

run_events_configured_example :
    let g : Gui Collector World ℕ = run_events zeros events (launch zeros outset) in
    (g.rng.settings ≡ g.ui_settings) × InUse zeros (Descends zeros) g.ui_settings g.rng.collector
run_events_configured_example = run_events_configured zeros ℕ events outset zeros-StaysNone

run_events-IsConsistent_example :
    let g : Gui Collector World ℕ = run_events zeros events (launch zeros outset) in
    IsConsistent g.session
run_events-IsConsistent_example =
    run_events-IsConsistent zeros ℕ events outset zeros-Delivers zeros-PutsBytes

generate_work_lem_example :
    Produces zeros log_of zeros-Journal 9000 []
      (generate_work zeros true (λ i. false) idle.time_base 9000 before)
generate_work_lem_example =
    generate_work_lem zeros log_of zeros-Journal true (λ i. false) idle.time_base 9000 before
      zeros-Delivers zeros-PutsBytes (omega arith)

generate_work_cancelled_example :
    let p = (generate_work zeros true (λ i. i == 1) idle.time_base 9000 before).payload in
    (p.bytes ≤ 4096 * 1) × (p.status ≢ pos 0) × (p.hex_data ≡ [])
generate_work_cancelled_example =
    generate_work_cancelled zeros true (λ i. i == 1) idle.time_base 9000 1 before zeros-Delivers
      refl (omega arith)

-- ff 00 a5
abbrev octets : List ℕ
octets = 255 ∷ 0 ∷ 165 ∷ []

from_hex-hex_example :
    (length (hex octets) ≡ 2 * length octets) × (from_hex (hex octets) ≡ some octets)
from_hex-hex_example = from_hex-hex octets (omega arith, (omega arith, (omega arith, tt)))

destroy_lem_example :
    (g' : Gui Collector World ℕ) × (destroy zeros true lucky
        (start_job true true (measuring 16 3) idle)
      ≡ some g')
    × (g'.threads ≡ [])
    × (g'.handle ≡ false)
    × (g'.busy ≡ false)
    × (g'.rng.collector ≡ none)
unfolding launch start_job try_admit_job reap_worker_handle
destroy_lem_example =
    destroy_lem zeros lucky (start_job true true (measuring 16 3) idle)
      (refl, refl, (omega arith, omega arith, omega arith, omega arith))

act_cancel_example :
    let g1 = start_job true true (generating 32) idle in
    let g2 = act zeros true true cancel_benchmark [] g1 in
    let p = (work zeros lucky (generating 32) g2).payload in
    (p.bytes ≡ 0) × (p.status ≢ pos 0) × (p.hex_data ≡ [])
unfolding launch
act_cancel_example =
    act_cancel zeros true true lucky 32 [] idle zeros-Delivers (refl, refl) refl (omega arith)

invoke_busy_example :
    let g' = invoke zeros true true (show_object configure_object) at_work in
    (g'.pending ≡ answered (told configure configure_object) at_work.pending)
    × Undisturbed at_work g'
invoke_busy_example =
    invoke_busy zeros true true (show_object configure_object) configure configure_object at_work
      refl configure_read

invoke_configure_example :
    Configures
      (read_settings configure_object idle.rng.settings)
      idle
      (invoke zeros true true (show_object configure_object) idle)
unfolding launch
invoke_configure_example =
    invoke_configure zeros true true (show_object configure_object) configure_object idle refl
      configure_read

invoke-pending_example :
    (invoke zeros true true (show_object configure_object) answering).pending ≡ answering.pending
invoke-pending_example = invoke-pending zeros true (show_object configure_object) answering refl
