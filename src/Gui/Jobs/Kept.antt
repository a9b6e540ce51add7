-- ===== src/Gui/Jobs/Kept.antt =====
-- The work of a worker keeps what the calls of the wrapper keep.
use jitterentropy_analysis_d.Prelude.{
  ℕ, zero, suc, ◌+◌, ◌-◌, ◌++◌, [], min, Bool, refl, true, ltb, ◌&&◌, if-elim,
}
use jitterentropy_analysis_d.Prelude.Int.{pos}
use jitterentropy_analysis_d.Double.{Double}
use jitterentropy_analysis_d.Monitor.{Tick}
use jitterentropy_analysis_d.Library.{Library}
use jitterentropy_analysis_d.Rng.{Rng, init_rng, get_random_bytes, read_counter}
use jitterentropy_analysis_d.Rng.Kept.{Kept}
use jitterentropy_analysis_d.Benchmark.{is_zero, run_benchmark}
use jitterentropy_analysis_d.Benchmark.Kept.{run_benchmark-Kept}
use jitterentropy_analysis_d.Gui.Jobs.{
  Chunks, Work, generate_chunk_bytes, read_chunks, generate_into_buffer, generate_work,
  benchmark_work,
}

module _ {C W F : Type 0} ⦃d : Double F⦄ (lib : Library C W) (P : Rng C W F → Type 0) where
  read_chunks-Kept :
      (polls : ℕ → Bool) (fuel n i : ℕ) (s : Chunks C W F)
      → Kept lib P
      → P s.rng
      → P (read_chunks lib polls fuel n i s).rng
  unfolding read_chunks
  read_chunks-Kept polls zero n i s kept p = p
  read_chunks-Kept polls (suc fuel) n i s kept p =
      let Q : Chunks C W F → Type 0 = λ t. P t.rng in
      let m = min (n - s.done) generate_chunk_bytes in
      let got = get_random_bytes lib true m s.rng in
      let p' = kept.get_keeps m s.rng p in
      let rest =
        read_chunks-Kept polls fuel n (i + 1)
          record { gen_ret = got.0; done = s.done + m; written = s.written ++ got.1; rng = got.2 }
          kept p' in
      if-elim Q (ltb s.done n) (if-elim Q (polls i) p (if-elim Q (is_zero got.0) rest p')) p

  generate_into_buffer-Kept :
      (polls : ℕ → Bool) (base : Tick) (n : ℕ) (a b : Tick) (r : Rng C W F)
      → Kept lib P
      → P r
      → P (generate_into_buffer lib polls base n a b r).rng
  unfolding generate_into_buffer
  generate_into_buffer-Kept polls base n a b r kept p =
      let begin_ : Chunks C W F = record {
        gen_ret = pos 0;
        done = 0;
        written = [];
        rng = (read_counter lib r).1;
      } in
      let s = read_chunks lib polls n n 0 begin_ in
      kept.aside _ _ s.rng refl (read_chunks-Kept polls n n 0 begin_ kept (kept.aside _ _ r refl p))

  pub generate_work-Kept :
      (allocated : Bool) (polls : ℕ → Bool) (base : Tick) (n : ℕ) (r : Rng C W F)
      → Kept lib P
      → P r
      → P (generate_work lib allocated polls base n r).rng
  unfolding generate_work
  generate_work-Kept allocated polls base n r kept p =
      let Q : Work C W F → Type 0 = λ w. P w.rng in
      let r0 = (read_counter lib r).1 in
      let made = init_rng lib r0 in
      let p2 = kept.aside _ _ made.1 refl (kept.init_keeps r0 (kept.aside _ _ r refl p)) in
      if-elim Q (is_zero made.0 && ltb 0 n)
        (if-elim Q allocated
          (generate_into_buffer-Kept polls base n (read_counter lib r).0 (read_counter lib made.1).0
            (read_counter lib made.1).1 kept p2)
          p2)
        p2

  pub benchmark_work-Kept :
      (allocated : Bool) (polls : ℕ → Bool) (n k : ℕ) (r : Rng C W F)
      → Kept lib P
      → P r
      → P (benchmark_work lib allocated polls n k r).rng
  unfolding benchmark_work
  benchmark_work-Kept allocated polls n k r kept p =
      let (t, r0) = read_counter lib r in
      let (t', r1) = read_counter lib r0 in
      let (t'', r2) = read_counter lib r1 in
      let f = run_benchmark lib allocated polls n (pos k) r2 in
      kept.aside _ _ f.rng refl
        (run_benchmark-Kept lib P allocated polls n (pos k) r2 kept (kept.aside _ _ r refl p))
