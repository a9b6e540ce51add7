-- ===== src/Examples/Delivered.antt =====
-- A message {"action":"generate"}, up to the frame with its bytes.
use jitterentropy_analysis_d.Prelude.{ℕ, false, some, [], ◌∷◌, ◌≡◌, refl, inl}
use jitterentropy_analysis_d.Bridge.Text.Escape.{is_plain}
use jitterentropy_analysis_d.Bridge.Object.{equal, find}
use jitterentropy_analysis_d.Bridge.Object.Keys.{Distinct}
use jitterentropy_analysis_d.Bridge.Object.RoundTrip.{
  AllReadable, show_object, parse_flat_object-show_object,
}
use jitterentropy_analysis_d.Bridge.Getters.{get, get_string, get_int}
use jitterentropy_analysis_d.Double.{whole}
use jitterentropy_analysis_d.Rng.Journal.{log_of}
use jitterentropy_analysis_d.Gui.State.{Gui, generating}
use jitterentropy_analysis_d.Gui.Messages.{
  generate, or_default, generate_job, action_named, action_in,
}
use jitterentropy_analysis_d.Gui.Telemetry.{build_telemetry}
use jitterentropy_analysis_d.Gui.Events.{tick, launch, happen, run_events}
use jitterentropy_analysis_d.Gui.Events.Delivered.{request, ShowsGenerated, run_events_delivered}
use jitterentropy_analysis_d.Examples.Rng.{
  Collector, World, outset, zeros, zeros-Journal, zeros-Delivers, zeros-PutsBytes,
}
use jitterentropy_analysis_d.Examples.Gui.{generate_object, lucky}

generate_object-AllReadable : AllReadable generate_object
unfolding is_plain
generate_object-AllReadable = (
  (
    (refl, (refl, (refl, (refl, (refl, (refl, tt)))))),
    inl (refl, (refl, (refl, (refl, (refl, (refl, (refl, (refl, (refl, tt))))))))),
  ),
  tt,
)

generate_object-Distinct : Distinct generate_object
unfolding find equal
generate_object-Distinct = (refl, tt)

generate_read : action_in (show_object generate_object) ≡ some (generate, generate_object)
unfolding action_in get_string get find equal action_named
generate_read =
    rw
      (
        parse_flat_object-show_object generate_object generate_object-Distinct
            generate_object-AllReadable,
        action_in,
      )
      refl

bytes_by_default : generate_job generate_object ≡ some (generating 32)
unfolding generate_job or_default get_int get find equal
bytes_by_default = refl

run_events_delivered_example :
    let g : Gui Collector World ℕ = run_events zeros (tick false [] ∷ []) (launch zeros outset) in
    let g' = run_events zeros (request (show_object generate_object) lucky) g in
    ShowsGenerated 32
      (log_of g.rng.world)
      (log_of g'.rng.world)
      (build_telemetry zeros false [] g').0.action_result
unfolding run_events happen launch
run_events_delivered_example =
    run_events_delivered zeros ℕ log_of (tick false [] ∷ []) outset (show_object generate_object)
      generate_object 32 lucky false [] zeros-Journal zeros-Delivers zeros-PutsBytes refl
      generate_read bytes_by_default
