-- ===== src/Ring.antt =====
-- The ring buffers of app/health_monitor.c. `history_ring` and `jitter_ring` are two copies of the
-- same code, for 300 and for 256 slots: here it is one, over the type and the number of the slots.
pub mod Holds
use jitterentropy_analysis_d.Prelude.{
  ℕ, zero, suc, ◌+◌, ◌-◌, ◌%◌, ◌^◌, List, [], ◌∷◌, ltb, ◌==◌, if◌then◌else◌, get_or, set, replicate,
}

pub record Ring (A : Type 0) : Type 0 where
  pub slots : List A
  pub write_index : ℕ
  pub samples_written : ℕ

-- `size_t` subtraction
abbrev pub sub_size : ℕ → ℕ → ℕ
sub_size a b = (a + 2 ^ 64 - b) % 2 ^ 64

module _ {A : Type 0} where
  -- The zeroed ring; `blank` is a zeroed slot.
  pub empty : ℕ → A → Ring A
  empty size blank = record { slots = replicate size blank; write_index = 0; samples_written = 0 }

  -- Writes a sample and moves on; a full ring loses its oldest sample.
  pub push : ℕ → Ring A → A → Ring A
  push size r v = record {
    slots = set r.slots r.write_index v;
    write_index = (r.write_index + 1) % size;
    samples_written =
        if ltb r.samples_written size then r.samples_written + 1 else r.samples_written;
  }

  -- `out[i]` to `out[i + left - 1]`
  pub copy_out : ℕ → A → Ring A → ℕ → ℕ → ℕ → List A
  copy_out size blank r start i zero = []
  copy_out size blank r start i (suc left) =
      get_or r.slots ((start + i) % size) blank ∷ copy_out size blank r start (i + 1) left

  pub start_idx : ℕ → Ring A → ℕ → ℕ
  start_idx size r count =
      if ltb r.samples_written size
      then sub_size r.write_index count
      else (r.write_index + size - count) % size

  abbrev pub count_to_copy : Ring A → ℕ → ℕ
  count_to_copy r max_count =
      if ltb r.samples_written max_count then r.samples_written else max_count

  -- The last `max_count` samples at most, oldest first.
  pub snapshot : ℕ → A → Ring A → ℕ → List A
  snapshot size blank r max_count =
      let count = count_to_copy r max_count in
      if count == 0 then [] else copy_out size blank r (start_idx size r count) 0 count
