-- ===== src/Rng/State.antt =====
-- The settings and the static variables of app/rng_wrapper.c.
use jitterentropy_analysis_d.Prelude.{ℕ, ◌+◌, Bool, false, Option, none, some, List, if◌then◌else◌}
use jitterentropy_analysis_d.Prelude.Int.{ℤ}
use jitterentropy_analysis_d.Monitor.{Monitor}

-- `rng_settings`
pub record Settings : Type 0 where
  pub osr : ℕ
  pub force_fips : Bool
  pub ntg1 : Bool
  pub disable_memory_access : Bool

abbrev pub settings_defaults : Settings
settings_defaults = record {
  osr = 0;
  force_fips = false;
  ntg1 = false;
  disable_memory_access = false;
}

-- What `rng_configure` stores; a null pointer asks for the defaults.
abbrev pub chosen : Option Settings → Settings
chosen none = settings_defaults
chosen (some s) = s

-- The flags are distinct bits: `1 << 5`, `1 << 6` and `1 << 2`.
abbrev pub settings_to_flags : Settings → ℕ
settings_to_flags s =
    (if s.force_fips then 32 else 0)
    + (if s.ntg1 then 64 else 0)
    + (if s.disable_memory_access then 4 else 0)

-- The static variables of the file, those of the monitor, and the world of the library.
-- `callback_set`: `fips_failure_handler` is registered.
pub record Rng (C W F : Type 0) : Type 0 where
  pub collector : Option C
  pub self_test_complete : Bool
  pub settings : Settings
  pub callback_set : Bool
  pub monitor : Monitor F
  pub world : W

-- What the loop of `get_random_bytes` changes; `written` is the buffer up to `generated`.
pub record Loop (C W F : Type 0) : Type 0 where
  pub ret : ℤ
  pub generated : ℕ
  pub written : List ℕ
  pub rng : Rng C W F

-- Functions of the wrapper as the callers see them.
pub data Call : Type 0 where
  configure : Option Settings → Call
  init : Call
  -- With whether the buffer is not null, and the length.
  get_bytes : Bool → ℕ → Call
  shutdown : Call
