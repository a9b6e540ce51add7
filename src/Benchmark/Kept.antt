-- ===== src/Benchmark/Kept.antt =====
-- A benchmark keeps what the calls of the wrapper keep.
use jitterentropy_analysis_d.Prelude.{ℕ, zero, suc, ◌+◌, Bool, true, false, refl, if-elim}
use jitterentropy_analysis_d.Prelude.Int.{ℤ, pos, pos_part}
use jitterentropy_analysis_d.Double.{Double}
use jitterentropy_analysis_d.Library.{Library}
use jitterentropy_analysis_d.Rng.{
  Rng, init_rng, shutdown_rng, get_random_bytes, read_counter, qpc_elapsed_seconds,
}
use jitterentropy_analysis_d.Rng.Kept.{Kept}
use jitterentropy_analysis_d.Benchmark.{
  Progress, Finished, is_zero, refuses, iterate, measure, start_and_measure, run_benchmark,
}

module _ {C W F : Type 0} ⦃d : Double F⦄ (lib : Library C W) (P : Rng C W F → Type 0) where
  iterate-Kept :
      (polls : ℕ → Bool) (n left i : ℕ) (s : Progress C W F)
      → Kept lib P
      → P s.rng
      → P (iterate lib polls n left i s).rng
  unfolding iterate
  iterate-Kept polls n zero i s kept p = p
  iterate-Kept polls n (suc left) i s kept p =
      let Q : Progress C W F → Type 0 = λ t. P t.rng in
      let got = get_random_bytes lib true n s.rng in
      let p' = kept.get_keeps n s.rng p in
      let rest =
        iterate-Kept polls n left (i + 1)
          (record s { completed = s.completed + 1; ret = got.0; rng = got.2 }) kept p' in
      if-elim Q (polls i) p (if-elim Q (is_zero got.0) rest p')

  measure-Kept :
      (polls : ℕ → Bool) (n k : ℕ) (x : F) (r : Rng C W F)
      → Kept lib P
      → P r
      → P (measure lib polls n k x r).rng
  unfolding measure
  measure-Kept polls n k x r kept p =
      let begin_ : Progress C W F = record {
        completed = 0;
        ret = pos 0;
        cancelled = false;
        rng = (read_counter lib r).1;
      } in
      let s = iterate lib polls n k 0 begin_ in
      let went = iterate-Kept polls n k 0 begin_ kept (kept.aside _ _ r refl p) in
      kept.shutdown_keeps (read_counter lib s.rng).1 (kept.aside _ _ s.rng refl went)

  start_and_measure-Kept :
      (polls : ℕ → Bool) (n k : ℕ) (r : Rng C W F)
      → Kept lib P
      → P r
      → P (start_and_measure lib polls n k r).rng
  unfolding start_and_measure
  start_and_measure-Kept polls n k r kept p =
      let (start, r0) = read_counter lib (shutdown_rng lib r) in
      let p0 = kept.aside _ _ (shutdown_rng lib r) refl (kept.shutdown_keeps r p) in
      let made = init_rng lib r0 in
      let (end_, r2) = read_counter lib made.1 in
      let p2 = kept.aside _ _ made.1 refl (kept.init_keeps r0 p0) in
      if-elim (λ (f : Finished C W F). P f.rng) (is_zero made.0)
        (measure-Kept polls n k (qpc_elapsed_seconds lib start end_) r2 kept p2)
        (kept.shutdown_keeps r2 p2)

  pub run_benchmark-Kept :
      (allocated : Bool) (polls : ℕ → Bool) (n : ℕ) (k : ℤ) (r : Rng C W F)
      → Kept lib P
      → P r
      → P (run_benchmark lib allocated polls n k r).rng
  unfolding run_benchmark
  run_benchmark-Kept allocated polls n k r kept p =
      let Q : Finished C W F → Type 0 = λ f. P f.rng in
      if-elim Q (refuses n k) p
        (if-elim Q allocated (start_and_measure-Kept polls n (pos_part k) r kept p) p)
