-- ===== src/Stats/Rct.antt =====
-- `entropy_stats_rct` of app/entropy_stats.c: the Repetition Count Test of SP 800-90B, 4.4.1. `run` is
-- an `unsigned int` and wraps. A null pointer or no samples is an empty list.
pub mod Longest
use jitterentropy_analysis_d.Prelude.{
  ℕ, ◌+◌, ◌*◌, ◌^◌, Bool, true, false, List, [], ◌∷◌, ltb, if◌then◌else◌, ◌&&◌, u32,
}
use jitterentropy_analysis_d.Double.{Double, lit, ◌⊕◌, ◌⊘◌}

module _ {F : Type 0} ⦃d : Double F⦄ where
  -- The default is 2^-20.
  abbrev pub normalize_alpha : F → F
  normalize_alpha alpha =
      if d.lt (lit 0) alpha && d.lt alpha (lit 1) then alpha else lit 1 ⊘ lit 1048576

  abbrev pub normalize_h : F → F
  normalize_h h_bits = if d.lt (lit 0) h_bits then h_bits else lit 1

-- `entropy_rct_result`
pub record RctResult : Type 0 where
  pub cutoff : ℕ
  pub max_run : ℕ
  pub passed : Bool

module _ {F : Type 0} ⦃d : Double F⦄ where
  -- The loop from the second sample on: the longest run, with the previous sample at hand.
  pub rct_loop : ℕ → ℕ → F → List F → ℕ
  rct_loop run max_run prev [] = max_run
  rct_loop run max_run prev (x ∷ samples) =
      let more = u32 (run + 1) in
      let on_repeat = rct_loop more (if ltb max_run more then more else max_run) x samples in
      let on_change = rct_loop 1 max_run x samples in if d.eq x prev then on_repeat else on_change

  pub rct_cutoff : F → F → ℕ
  rct_cutoff alpha h_bits =
      d.to_u32 (lit 1 ⊕ d.ceil (d.neg (d.log2 (normalize_alpha alpha)) ⊘ normalize_h h_bits))

  pub rct : List F → F → F → RctResult
  unfolding rct_loop rct_cutoff
  rct [] alpha h_bits = record { cutoff = rct_cutoff alpha h_bits; max_run = 0; passed = true }
  rct (x ∷ samples) alpha h_bits =
      let cutoff = rct_cutoff alpha h_bits in
      let max_run = rct_loop 1 1 x samples in
      record { cutoff = cutoff; max_run = max_run; passed = ltb max_run cutoff }
