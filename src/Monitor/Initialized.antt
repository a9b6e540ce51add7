-- ===== src/Monitor/Initialized.antt =====
-- The flag `initialized` of the monitor changes only where it is set.
use jitterentropy_analysis_d.Prelude.{ℕ, Bool, ◌≡◌, refl, ◌==◌, if-elim, List}
use jitterentropy_analysis_d.Prelude.Int.{ℤ}
use jitterentropy_analysis_d.Double.{Double}
use jitterentropy_analysis_d.Monitor.{
  Tick, Monitor, ensure_lock, get_epoch, set_initialized, record_failure, record_fips_failure,
  record_jitter_sample, update_derived_values, record_generation_attempt, HistorySample,
  health_snapshot, recent_history_snapshot, jitter_samples_snapshot, clear_history,
}

module _ {F : Type 0} where
  pub set_initialized_lem :
      (t : Tick) (b : Bool) (m : Monitor F) → (set_initialized t b m).stats.initialized ≡ b
  unfolding set_initialized ensure_lock
  set_initialized_lem t b m = refl

  pub get_epoch-initialized :
      (t : Tick) (m : Monitor F) → (get_epoch t m).1.stats.initialized ≡ m.stats.initialized
  unfolding get_epoch ensure_lock
  get_epoch-initialized t m = refl

  pub record_failure-initialized :
      (t : Tick) (code : ℤ) (m : Monitor F)
      → (record_failure t code m).stats.initialized ≡ m.stats.initialized
  unfolding record_failure ensure_lock
  record_failure-initialized t code m = refl

  pub record_fips_failure-initialized :
      (t : Tick) (mask : ℕ) (m : Monitor F)
      → (record_fips_failure t mask m).stats.initialized ≡ m.stats.initialized
  unfolding record_fips_failure ensure_lock
  record_fips_failure-initialized t mask m = refl

  pub record_jitter_sample-initialized :
      (t : Tick) (x : F) (m : Monitor F)
      → (record_jitter_sample t x m).stats.initialized ≡ m.stats.initialized
  unfolding record_jitter_sample ensure_lock
  record_jitter_sample-initialized t x m = refl

module _ {F : Type 0} ⦃d : Double F⦄ where
  pub record_generation_attempt-initialized :
      (t now : Tick) (success : Bool) (n : ℕ) (x : F) (code : ℤ) (m : Monitor F)
      → (record_generation_attempt t now success n x code m).stats.initialized ≡ m.stats.initialized
  unfolding record_generation_attempt get_epoch ensure_lock update_derived_values
  record_generation_attempt-initialized t now success n x code m = refl

  -- A snapshot shows the flag and keeps it.
  pub health_snapshot-initialized :
      (t : Tick) (m : Monitor F)
      → let (shown, after) = health_snapshot t m in
        (shown.initialized ≡ m.stats.initialized) × (after.stats.initialized ≡ m.stats.initialized)
  unfolding health_snapshot ensure_lock update_derived_values
  health_snapshot-initialized t m = (refl, refl)

  pub recent_history_snapshot-initialized :
      (t : Tick) (n : ℕ) (m : Monitor F)
      → (recent_history_snapshot t n m).1.stats.initialized ≡ m.stats.initialized
  unfolding recent_history_snapshot ensure_lock
  recent_history_snapshot-initialized t n m =
      if-elim
        (λ (x : List (HistorySample F) × Monitor F). x.1.stats.initialized ≡ m.stats.initialized)
        (n == 0) refl refl

  pub jitter_samples_snapshot-initialized :
      (t : Tick) (n : ℕ) (m : Monitor F)
      → (jitter_samples_snapshot t n m).1.stats.initialized ≡ m.stats.initialized
  unfolding jitter_samples_snapshot ensure_lock
  jitter_samples_snapshot-initialized t n m =
      if-elim (λ (x : List F × Monitor F). x.1.stats.initialized ≡ m.stats.initialized) (n == 0)
        refl refl

  pub clear_history-initialized :
      (t : Tick) (m : Monitor F) → (clear_history t m).stats.initialized ≡ m.stats.initialized
  unfolding clear_history ensure_lock
  clear_history-initialized t m = refl
