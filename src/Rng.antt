-- ===== src/Rng.antt =====
-- app/rng_wrapper.c over the interface of Library. What a function does under `rng_lock` is one step
-- on the state, with the calls of the monitor that follow.
mod State
pub mod Rounds
pub mod Started
pub mod Initialized
pub mod Reading
pub mod Allocated
pub mod Valid
pub mod Kept
pub mod Octets
pub mod Journal
pub mod Release
pub use State.*
use jitterentropy_analysis_d.Prelude.{
  ℕ, zero, suc, ◌+◌, ◌-◌, Bool, true, false, Option, none, some, List, [], ◌∷◌, ◌++◌, ltb, ◌==◌,
  ◌&&◌, not, if◌then◌else◌, length,
}
use jitterentropy_analysis_d.Prelude.Int.{ℤ, pos, negsuc, pos_part, sub_ℕ, ltb_ℤ}
use jitterentropy_analysis_d.Double.{Double, lit, ◌⊗◌, ◌⊘◌}
use jitterentropy_analysis_d.Monitor.{
  Tick, Monitor, set_initialized, record_failure, record_fips_failure, record_jitter_sample,
  record_generation_attempt,
}
use jitterentropy_analysis_d.Library.{
  Read, Library, err_self_test_failed, err_alloc_failed, err_not_initialized, err_short_read,
  err_invalid_argument, err_generation_failed, err_already_running,
}

module _ {C W F : Type 0} where
  -- `rng_configure`
  pub rng_configure : Option Settings → Rng C W F → ℤ × Rng C W F
  rng_configure wanted r = elim r.collector [
    | some c ↦ (err_already_running, r)
    | none ↦ (pos 0, record r { settings = chosen wanted; self_test_complete = false })
  ]

  -- `rng_get_settings`
  unfoldable pub rng_get_settings : Rng C W F → Settings
  rng_get_settings r = r.settings

-- `rng_get_library_version`
pub rng_get_library_version : {C W : Type 0} → Library C W → ℕ
rng_get_library_version lib = lib.version

module _ {C W F : Type 0} (lib : Library C W) where
  -- The reading of the counter that the monitor's first function call takes for its epoch.
  abbrev pub epoch_reading : Rng C W F → Tick × W
  epoch_reading r = elim r.monitor.epoch [ some t ↦ (t, r.world) | none ↦ lib.now r.world ]

  -- A call of a function of the monitor.
  unfoldable pub monitored : (Tick → Monitor F → Monitor F) → Rng C W F → Rng C W F
  monitored f r = let (t, w) = epoch_reading r in record r { monitor = f t r.monitor; world = w }

  abbrev pub fail_init : ℤ → Rng C W F → ℤ × Rng C W F
  unfolding monitored
  fail_init code r = (
    code,
    monitored (λ t m. record_failure t code m) (monitored (λ t m. set_initialized t false m) r),
  )

  -- `init_rng` from the allocation on.
  pub init_collector : Rng C W F → ℤ × Rng C W F
  unfolding monitored
  init_collector r =
      let flags = settings_to_flags r.settings in
      let (allocated, w) = lib.collector_alloc r.settings.osr flags r.world in
      let r' = record r { callback_set = true; collector = allocated; world = w } in
      elim allocated [
        | none ↦ fail_init err_alloc_failed r'
        | some c ↦ (pos 0, monitored (λ t m. set_initialized t true m) r')
      ]

  -- `init_rng` from the result of the self-test on.
  pub after_test : ℤ → Rng C W F → ℤ × Rng C W F
  unfolding init_collector
  after_test (pos zero) r = init_collector (record r { self_test_complete = true })
  after_test (pos (suc n)) r = fail_init err_self_test_failed r
  after_test (negsuc n) r = fail_init err_self_test_failed r

  pub init_rng : Rng C W F → ℤ × Rng C W F
  unfolding init_collector after_test
  init_rng r =
      let flags = settings_to_flags r.settings in
      let (ret, w) = lib.entropy_init_ex r.settings.osr flags r.world in
      elim r.collector [
        | some c ↦ (pos 0, r)
        | none ↦
            if r.self_test_complete
            then init_collector r
            else after_test ret (record r { world = w })
      ]

  -- `shutdown_rng`
  pub shutdown_rng : Rng C W F → Rng C W F
  unfolding monitored
  shutdown_rng r =
      monitored (λ t m. set_initialized t false m)
        (record r { world = lib.collector_free r.collector r.world; collector = none })

  -- `rng_get_status_json`: the result and the text put into the buffer, which is not null and has
  -- `buflen` bytes; `busy` says that another thread holds the lock.
  unfoldable pub rng_get_status_json : Bool → ℕ → Rng C W F → (ℤ × Option (List ℕ)) × Rng C W F
  rng_get_status_json busy buflen r =
      if buflen == 0
      then ((negsuc 0, none), r)
      else if busy
      then ((negsuc 0, none), r)
      else elim r.collector [
        | none ↦ ((negsuc 0, none), r)
        | some c ↦ let (answer, w) = lib.status c buflen r.world in (answer, record r { world = w })
      ]

  -- `fips_failure_handler` for each mask, if it is registered.
  pub record_alarms : List ℕ → Rng C W F → Rng C W F
  unfolding monitored
  record_alarms [] r = r
  record_alarms (mask ∷ masks) r =
      let told = monitored (λ t m. record_fips_failure t mask m) r in
      record_alarms masks (if r.callback_set then told else r)

  abbrev pub read_counter : Rng C W F → Tick × Rng C W F
  read_counter r = let (t, w) = lib.now r.world in (t, record r { world = w })

-- What `get_random_bytes` makes of the last result of the loop and the bytes it has: the code it
-- returns.
abbrev pub outcome : ℕ → ℤ → ℕ → ℤ
outcome len ret generated =
    if ltb_ℤ ret (pos 0)
    then err_generation_failed
    else if generated == len
    then pos 0
    else err_short_read

-- A code that is not an error.
abbrev pub succeeded : ℤ → Bool
succeeded (pos n) = true
succeeded (negsuc n) = false

module _ {C W F : Type 0} ⦃d : Double F⦄ (lib : Library C W) where
  -- `qpc_elapsed_seconds`
  abbrev pub qpc_elapsed_seconds : Tick → Tick → F
  qpc_elapsed_seconds start end_ =
      d.of_int (sub_ℕ end_.counter start.counter) ⊘ d.of_nat end_.frequency

  -- The body of the loop, up to the test of the result.
  pub read_once : ℕ → Loop C W F → Loop C W F
  unfolding record_alarms
  read_once len s =
      let (call_start, r0) = read_counter lib s.rng in
      let (got, w) = lib.read_entropy_safe r0.collector (len - s.generated) r0.world in
      let r1 =
        record_alarms lib got.alarms (record r0 { collector = got.collector_left; world = w }) in
      let (call_end, r2) = read_counter lib r1 in
      let microseconds = qpc_elapsed_seconds call_start call_end ⊗ lit 1000000 in
      let r3 = monitored lib (λ t m. record_jitter_sample t microseconds m) r2 in
      let more = ltb_ℤ (pos 0) got.ret in
      record {
        ret = got.ret;
        generated = if more then s.generated + pos_part got.ret else s.generated;
        written = if more then s.written ++ got.bytes else s.written;
        rng = r3;
      }

  -- Every round but the last adds a byte, so that `len` rounds are enough.
  pub read_loop : ℕ → ℕ → Loop C W F → Loop C W F
  unfolding read_once
  read_loop zero len s = s
  read_loop (suc fuel) len s =
      let next = read_once len s in
      let rest = read_loop fuel len next in
      if ltb s.generated len then (if ltb_ℤ (pos 0) next.ret then rest else next) else s

  abbrev pub attempt : Bool → ℕ → F → ℤ → Rng C W F → Rng C W F
  attempt success byte_count seconds code r =
      let (t, w0) = epoch_reading lib r in
      let (now, w) = lib.now w0 in
      record r {
        monitor = record_generation_attempt t now success byte_count seconds code r.monitor;
        world = w;
      }

  -- From the first reading of the counter on.
  pub generate : ℕ → Rng C W F → ℤ × List ℕ × Rng C W F
  unfolding read_loop
  generate len r =
      let (start, r0) = read_counter lib r in
      let begin_ : Loop C W F = record { ret = pos 0; generated = 0; written = []; rng = r0 } in
      let s = read_loop len len begin_ in
      let (end_, r1) = read_counter lib s.rng in
      let code = outcome len s.ret s.generated in
      let success = succeeded code in
      (code, s.written, attempt success s.generated (qpc_elapsed_seconds start end_) code r1)

  -- The code, and the bytes put into the buffer.
  pub get_random_bytes : Bool → ℕ → Rng C W F → ℤ × List ℕ × Rng C W F
  unfolding generate
  get_random_bytes has_buffer len r =
      if not has_buffer && not (len == 0)
      then (err_invalid_argument, [], attempt false 0 (lit 0) err_invalid_argument r)
      else elim r.collector [
        | none ↦ (err_not_initialized, [], attempt false 0 (lit 0) err_not_initialized r)
        | some c ↦ if len == 0 then (pos 0, [], r) else generate len r
      ]

  -- Any call, and the state that a sequence of calls leaves.
  pub call : Call → Rng C W F → Rng C W F
  unfolding rng_configure init_rng shutdown_rng get_random_bytes
  call (configure wanted) r = (rng_configure wanted r).1
  call init r = (init_rng lib r).1
  call (get_bytes has_buffer len) r = (get_random_bytes has_buffer len r).2
  call shutdown r = shutdown_rng lib r

  pub run_calls : List Call → Rng C W F → Rng C W F
  unfolding call
  run_calls [] r = r
  run_calls (c ∷ calls) r = run_calls calls (call c r)
