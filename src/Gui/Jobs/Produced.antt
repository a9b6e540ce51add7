-- ===== src/Gui/Jobs/Produced.antt =====
-- What a "generate" job produces.
use jitterentropy_analysis_d.Prelude.{
  ℕ, zero, suc, ◌+◌, ◌-◌, ◌≤◌, ◌<◌, min, Bool, true, false, none, some, List, [], ◌++◌, ◌≡◌, ◌↔◌,
  inl, inr, refl, arith, ltb, ltb→lt, lt→ltb, Bool-cases, length, length-append, if◌then◌else◌,
}
use jitterentropy_analysis_d.Prelude.Int.{ℤ, pos}
use jitterentropy_analysis_d.Double.{Double}
use jitterentropy_analysis_d.Monitor.{Tick}
use jitterentropy_analysis_d.Library.{Library, err_alloc_failed}
use jitterentropy_analysis_d.Rng.{Rng, init_rng, get_random_bytes, read_counter}
use jitterentropy_analysis_d.Rng.Rounds.{Delivers}
use jitterentropy_analysis_d.Rng.Octets.{PutsBytes, append-AreBytes, get_random_bytes-AreBytes}
use jitterentropy_analysis_d.Stats.Histogram.Counts.{AreBytes}
use jitterentropy_analysis_d.Rng.Reading.{get_random_bytes_zero}
use jitterentropy_analysis_d.Benchmark.{is_zero, result_cancelled}
use jitterentropy_analysis_d.Benchmark.Outcome.{is_zero_lem, is_zero_ne}
use jitterentropy_analysis_d.Stats.Report.{report}
use jitterentropy_analysis_d.Gui.State.{Payload}
use jitterentropy_analysis_d.Print.{hex}
use jitterentropy_analysis_d.Gui.Jobs.{
  Chunks, generate_chunk_bytes, read_chunks, nothing_generated, generate_into_buffer, generate_work,
}

-- The buffer is filled up to `done`, with bytes of which `Q` holds, and the loop has not failed exactly
-- if all of it is.
pub record Ended {C W F : Type 0} (Q : List ℕ → Type 0) (n : ℕ) (s : Chunks C W F) : Type 0 where
  pub filled : length s.written ≡ s.done
  pub bounded : s.done ≤ n
  pub fit : Q s.written
  pub code : (s.gen_ret ≡ pos 0) ↔ (s.done ≡ n)

-- `Q` holds of no bytes, and of more bytes from the wrapper.
abbrev pub Grows :
    {C W : Type 0} (F : Type 0) ⦃d : Double F⦄ → Library C W → (List ℕ → Type 0) → Type 0
Grows {C} {W} F lib Q =
    Q []
    × ((m : ℕ) (r : Rng C W F) (bytes : List ℕ)
        → Q bytes
        → Q (bytes ++ (get_random_bytes lib true m r).1))

module _ {C W F : Type 0} ⦃d : Double F⦄ (lib : Library C W) (Q : List ℕ → Type 0) where
  stopped_short :
      (n : ℕ) (s : Chunks C W F)
      → length s.written ≡ s.done
      → Q s.written
      → s.done < n
      → is_zero s.gen_ret ≡ false
      → Ended Q n s
  stopped_short n s full q less failed = record {
    filled = full;
    bounded = omega arith;
    fit = q;
    code = (λ e. absurd (is_zero_ne s.gen_ret failed e), λ e. absurd (omega arith));
  }

  pub read_chunks-Ended :
      (polls : ℕ → Bool) (fuel n i : ℕ) (s : Chunks C W F)
      → Delivers lib
      → Grows F lib Q
      → length s.written ≡ s.done
      → Q s.written
      → s.done ≤ n
      → n ≤ s.done + fuel
      → s.gen_ret ≡ pos 0
      → Ended Q n (read_chunks lib polls fuel n i s)
  unfolding read_chunks
  read_chunks-Ended polls zero n i s delivers grows full q most enough fine = record {
    filled = full;
    bounded = most;
    fit = q;
    code = (λ e. omega arith, λ e. fine);
  }
  read_chunks-Ended polls (suc fuel) n i s delivers grows full q most enough fine =
      let m = min (n - s.done) generate_chunk_bytes in
      let got = get_random_bytes lib true m s.rng in
      elim (Bool-cases (ltb s.done n)) [
        | inr l ↦
            rw (l, read_chunks)
              record {
                filled = full;
                bounded = most;
                fit = q;
                code = (λ e. ground (arith, l), λ e. fine);
              }
        | inl l ↦
            let less = ltb→lt s.done n l in
            elim (Bool-cases (polls i)) [
              | inl p ↦
                  rw (l, read_chunks, p)
                    (stopped_short n (record s { gen_ret = result_cancelled }) full q less refl)
              | inr p ↦ elim (Bool-cases (is_zero got.0)) [
                | inl z ↦
                    let all =
                      get_random_bytes_zero lib m s.rng delivers (omega arith)
                        (is_zero_lem got.0 z) in
                    let next : Chunks C W F = record {
                      gen_ret = got.0;
                      done = s.done + m;
                      written = s.written ++ got.1;
                      rng = got.2;
                    } in
                    rw (l, read_chunks, p, z)
                      (read_chunks-Ended polls fuel n (i + 1) next delivers grows
                        (omega (arith, length-append s.written got.1, all))
                        (grows.1 m s.rng s.written q) (omega arith) (omega arith)
                        (is_zero_lem got.0 z))
                | inr z ↦
                    rw (l, read_chunks, p, z)
                      (stopped_short n (record s { gen_ret = got.0; rng = got.2 }) full q less z)
              ]
            ]
      ]

-- What the page is told of `n` bytes that were asked for, when these were written.
abbrev pub Reports : {F : Type 0} ⦃d : Double F⦄ → ℕ → List ℕ → Payload F → Type 0
Reports n written p =
    (length written ≡ p.bytes)
    × (p.bytes ≤ n)
    × ((p.status ≡ pos 0) ↔ (p.bytes ≡ n))
    × (p.hex_data ≡ (if is_zero p.status then hex written else []))
    × (p.stats ≡ (if ltb 0 p.bytes then some (report written) else none))

module _ {C W F : Type 0} ⦃d : Double F⦄ where
  -- Without a result of 0 nothing is there.
  pub unwritten :
      (n : ℕ) (status : ℤ) (a b : Tick) (r : Rng C W F)
      → 0 < n
      → is_zero status ≡ false
      → Reports n [] (nothing_generated status a b r).payload
  unwritten n status a b r some_bytes failed = (
    refl,
    omega arith,
    (λ e. absurd (is_zero_ne status failed e), λ e. absurd (omega arith)),
    rw failed refl,
    refl,
  )

module _ {C W F : Type 0} ⦃d : Double F⦄ (lib : Library C W) (Q : List ℕ → Type 0) where
  generate_into_buffer-Reports :
      (polls : ℕ → Bool) (base : Tick) (n : ℕ) (a b : Tick) (r : Rng C W F)
      → Delivers lib
      → Grows F lib Q
      → (written : List ℕ) × Q written
        × Reports n written (generate_into_buffer lib polls base n a b r).payload
  unfolding generate_into_buffer
  generate_into_buffer-Reports polls base n a b r delivers grows =
      let begin_ : Chunks C W F = record {
        gen_ret = pos 0;
        done = 0;
        written = [];
        rng = (read_counter lib r).1;
      } in
      let s = read_chunks lib polls n n 0 begin_ in
      let e =
        read_chunks-Ended lib Q polls n n 0 begin_ delivers grows refl grows.0 (omega arith)
          (omega arith) refl in
      (s.written, e.fit, (e.filled, e.bounded, e.code, refl, refl))

  pub generate_work-Reports :
      (allocated : Bool) (polls : ℕ → Bool) (base : Tick) (n : ℕ) (r : Rng C W F)
      → Delivers lib
      → Grows F lib Q
      → 0 < n
      → (written : List ℕ) × Q written
        × Reports n written (generate_work lib allocated polls base n r).payload
  unfolding generate_work
  generate_work-Reports allocated polls base n r delivers grows some_bytes =
      let (a, r0) = read_counter lib r in
      let made = init_rng lib r0 in
      let (b, r2) = read_counter lib made.1 in
      let asked : ltb 0 n ≡ true = lt→ltb 0 n some_bytes in
      elim (Bool-cases (is_zero made.0)) [
        | inr z ↦ rw (z, generate_work) ([], grows.0, unwritten n made.0 a b r2 some_bytes z)
        | inl z ↦ elim (Bool-cases allocated) [
          | inl m ↦
              rw (z, generate_work, asked, m)
                (generate_into_buffer-Reports polls base n a b r2 delivers grows)
          | inr m ↦
              rw (z, generate_work, asked, m)
                ([], grows.0, unwritten n err_alloc_failed a b r2 some_bytes refl)
        ]
      ]

module _ {C W F : Type 0} ⦃d : Double F⦄ (lib : Library C W) where
  pub AreBytes-Grows : PutsBytes lib → Grows F lib AreBytes
  AreBytes-Grows puts = (
    tt,
    λ m r bytes a.
        append-AreBytes bytes (get_random_bytes lib true m r).1 a
          (get_random_bytes-AreBytes lib m r puts),
  )

  pub generate_work-AreBytes :
      (allocated : Bool) (polls : ℕ → Bool) (base : Tick) (n : ℕ) (r : Rng C W F)
      → Delivers lib
      → PutsBytes lib
      → 0 < n
      → (written : List ℕ) × AreBytes written
        × Reports n written (generate_work lib allocated polls base n r).payload
  generate_work-AreBytes allocated polls base n r delivers puts some_bytes =
      generate_work-Reports lib AreBytes allocated polls base n r delivers (AreBytes-Grows puts)
        some_bytes
