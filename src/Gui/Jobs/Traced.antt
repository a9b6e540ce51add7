-- ===== src/Gui/Jobs/Traced.antt =====
-- Which bytes a "generate" job produces: those that the library gives, in order.
use mathlib.Core.List.{append_assoc, append-nil}
use jitterentropy_analysis_d.Prelude.{
  ℕ, zero, suc, ◌+◌, ◌-◌, ◌<◌, min, Bool, true, List, [], ◌++◌, ◌≡◌, inl, inr, refl, sym, ap, subst,
  ◌∙◌, arith, ltb, lt→ltb, Bool-cases, if-cases, if-elim,
}
use jitterentropy_analysis_d.Prelude.Int.{pos}
use jitterentropy_analysis_d.Double.{Double}
use jitterentropy_analysis_d.Monitor.{Tick}
use jitterentropy_analysis_d.Library.{Library, err_alloc_failed}
use jitterentropy_analysis_d.Rng.{Rng, init_rng, get_random_bytes, read_counter}
use jitterentropy_analysis_d.Rng.Rounds.{Delivers}
use jitterentropy_analysis_d.Rng.Octets.{PutsBytes}
use jitterentropy_analysis_d.Rng.Journal.{Journal, get_random_bytes-log, init_rng-log}
use jitterentropy_analysis_d.Stats.Histogram.Counts.{AreBytes}
use jitterentropy_analysis_d.Benchmark.{is_zero}
use jitterentropy_analysis_d.Gui.Jobs.{
  Chunks, Work, generate_chunk_bytes, read_chunks, generate_into_buffer, generate_work,
}
use jitterentropy_analysis_d.Gui.Jobs.Produced.{
  AreBytes-Grows, read_chunks-Ended, Reports, unwritten,
}

-- Behind a log that was `before`, `now` has the bytes `written`, and then those of a chunk that failed.
abbrev pub Taken : List ℕ → List ℕ → List ℕ → Bool → Type 0
Taken before now written succeeded =
    (lost : List ℕ) × (now ≡ before ++ (written ++ lost)) × (succeeded ≡ true → lost ≡ [])

nothing_lost :
    (before now written : List ℕ) (b : Bool) → now ≡ before ++ written → Taken before now written b
nothing_lost before now written b e =
    ([], e ∙ ap (λ l. before ++ l) (sym (append-nil written)), λ t. refl)

module _ {C W F : Type 0} ⦃d : Double F⦄ (lib : Library C W) (log : W → List ℕ)
    (j : Journal lib log) where
  read_chunks-Taken :
      (before : List ℕ) (polls : ℕ → Bool) (fuel n i : ℕ) (s : Chunks C W F)
      → log s.rng.world ≡ before ++ s.written
      → let e = read_chunks lib polls fuel n i s in
        Taken before (log e.rng.world) e.written (is_zero e.gen_ret)
  unfolding read_chunks
  read_chunks-Taken before polls zero n i s so_far = nothing_lost before _ s.written _ so_far
  read_chunks-Taken before polls (suc fuel) n i s so_far =
      let Q : Chunks C W F → Type 0 =
        λ e. Taken before (log e.rng.world) e.written (is_zero e.gen_ret) in
      let m = min (n - s.done) generate_chunk_bytes in
      let got = get_random_bytes lib true m s.rng in
      let now : log got.2.world ≡ before ++ (s.written ++ got.1) =
        get_random_bytes-log lib log j true m s.rng
        ∙ ap (λ l. l ++ got.1) so_far
        ∙ append_assoc before s.written got.1 in
      let next : Chunks C W F = record {
        gen_ret = got.0;
        done = s.done + m;
        written = s.written ++ got.1;
        rng = got.2;
      } in
      if-elim Q (ltb s.done n)
        (if-elim Q (polls i) (nothing_lost before _ s.written _ so_far) (
          if-cases Q (is_zero got.0) (λ z. read_chunks-Taken before polls fuel n (i + 1) next now)
            (λ z. (got.1, now, λ t. cc (z, t)))))
        (nothing_lost before _ s.written _ so_far)

  -- What is said of a job that takes its bytes behind `before`.
  abbrev pub Produces : ℕ → List ℕ → Work C W F → Type 0
  Produces n before w =
      (written : List ℕ) × AreBytes written
      × Reports n written w.payload
      × Taken before (log w.rng.world) written (is_zero w.payload.status)

  generate_into_buffer-Produces :
      (polls : ℕ → Bool) (base : Tick) (n : ℕ) (a b : Tick) (r : Rng C W F)
      → Delivers lib
      → PutsBytes lib
      → Produces n (log r.world) (generate_into_buffer lib polls base n a b r)
  unfolding generate_into_buffer
  generate_into_buffer-Produces polls base n a b r delivers puts =
      let begin_ : Chunks C W F = record {
        gen_ret = pos 0;
        done = 0;
        written = [];
        rng = (read_counter lib r).1;
      } in
      let s = read_chunks lib polls n n 0 begin_ in
      let e =
        read_chunks-Ended lib AreBytes polls n n 0 begin_ delivers (AreBytes-Grows lib puts) refl tt
          (omega arith) (omega arith) refl in
      let (lost, now, none_lost) =
        read_chunks-Taken (log r.world) polls n n 0 begin_
          (j.counts r.world ∙ sym (append-nil _)) in
      (
        s.written,
        e.fit,
        (e.filled, e.bounded, e.code, refl, refl),
        (lost, j.counts _ ∙ j.counts _ ∙ j.counts _ ∙ now, none_lost),
      )

  -- Where a read's positive result counts the bytes it delivers, each less than 256, and `log` keeps the
  -- bytes that the reads give, in order: a "generate" job for one byte or more, whatever the state, the
  -- memory and the cancellations, appends to the log the bytes that it counts, at most as many as asked
  -- for, and behind them those of a chunk that failed, none if the status is 0. The status is 0 exactly if
  -- the bytes counted are all; the text in hexadecimal is theirs if the status is 0, and else empty; and
  -- the statistics are theirs, if there is a byte.
  pub generate_work_lem :
      (allocated : Bool) (polls : ℕ → Bool) (base : Tick) (n : ℕ) (r : Rng C W F)
      → Delivers lib
      → PutsBytes lib
      → 0 < n
      → Produces n (log r.world) (generate_work lib allocated polls base n r)
  unfolding generate_work
  generate_work_lem allocated polls base n r delivers puts some_bytes =
      let (a, r0) = read_counter lib r in
      let made = init_rng lib r0 in
      let (b, r2) = read_counter lib made.1 in
      let asked : ltb 0 n ≡ true = lt→ltb 0 n some_bytes in
      let started : log r2.world ≡ log r.world =
        j.counts made.1.world ∙ init_rng-log lib log j r0 ∙ j.counts r.world in
      elim (Bool-cases (is_zero made.0)) [
        | inr z ↦
            rw (z, generate_work)
              (
                [],
                tt,
                unwritten n made.0 a b r2 some_bytes z,
                nothing_lost _ _ [] _ (started ∙ sym (append-nil _)),
              )
        | inl z ↦ elim (Bool-cases allocated) [
          | inl m ↦
              rw (z, generate_work, asked, m)
                (subst (λ before. Produces n before (generate_into_buffer lib polls base n a b r2))
                  started (generate_into_buffer-Produces polls base n a b r2 delivers puts))
          | inr m ↦
              rw (z, generate_work, asked, m)
                (
                  [],
                  tt,
                  unwritten n err_alloc_failed a b r2 some_bytes refl,
                  nothing_lost _ _ [] _ (started ∙ sym (append-nil _)),
                )
        ]
      ]
