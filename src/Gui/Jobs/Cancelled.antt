-- ===== src/Gui/Jobs/Cancelled.antt =====
-- A Cancel stops a "generate" job at the next chunk.
use jitterentropy_analysis_d.Prelude.{
  ℕ, zero, suc, ◌+◌, ◌-◌, ◌*◌, ◌≤◌, ◌<◌, min, Bool, true, false, [], ◌++◌, ◌≡◌, ◌≢◌, inl, inr, ap,
  arith, ltb, ltb→lt, Bool-cases, if-elim, ◌&&◌,
}
use jitterentropy_analysis_d.Prelude.Int.{pos}
use jitterentropy_analysis_d.Double.{Double}
use jitterentropy_analysis_d.Monitor.{Tick}
use jitterentropy_analysis_d.Library.{Library}
use jitterentropy_analysis_d.Rng.{Rng, init_rng, get_random_bytes, read_counter}
use jitterentropy_analysis_d.Rng.Rounds.{Delivers}
use jitterentropy_analysis_d.Benchmark.{is_zero}
use jitterentropy_analysis_d.Benchmark.Outcome.{is_zero_lem}
use jitterentropy_analysis_d.Gui.Jobs.Produced.{generate_work-Reports}
use jitterentropy_analysis_d.Gui.Jobs.{
  Chunks, Work, generate_chunk_bytes, read_chunks, generate_into_buffer, generate_work,
}

-- A poll that sees no Cancel comes before one that does, if not behind it.
before_cancel : (polls : ℕ → Bool) (i k : ℕ) → i ≤ k → polls k ≡ true → polls i ≡ false → i < k
before_cancel polls i k h c p = elim (Bool-cases (ltb i k)) [
  | inl l ↦ ltb→lt i k l
  | inr l ↦ let same : i ≡ k = ground (arith, l) in absurd (cc (c, p, ap polls same))
]

module _ {C W F : Type 0} ⦃d : Double F⦄ (lib : Library C W) where
  read_chunks_bound :
      (polls : ℕ → Bool) (fuel n i k : ℕ) (s : Chunks C W F)
      → polls k ≡ true
      → i ≤ k
      → s.done ≤ generate_chunk_bytes * i
      → (read_chunks lib polls fuel n i s).done ≤ generate_chunk_bytes * k
  unfolding read_chunks
  read_chunks_bound polls zero n i k s c h l = omega arith
  read_chunks_bound polls (suc fuel) n i k s c h l =
      let P : Chunks C W F → Type 0 = λ t. t.done ≤ generate_chunk_bytes * k in
      let here : s.done ≤ generate_chunk_bytes * k = omega arith in
      let m = min (n - s.done) generate_chunk_bytes in
      let got = get_random_bytes lib true m s.rng in
      let next : Chunks C W F = record {
        gen_ret = got.0;
        done = s.done + m;
        written = s.written ++ got.1;
        rng = got.2;
      } in
      elim (Bool-cases (polls i)) [
        | inl p ↦ rw (p, read_chunks) (if-elim P (ltb s.done n) here here)
        | inr p ↦
            let later : i < k = before_cancel polls i k h c p in
            let rest =
              read_chunks_bound polls fuel n (i + 1) k next c (omega arith) (omega arith) in
            rw (p, read_chunks)
              (if-elim P (ltb s.done n) (if-elim P (is_zero got.0) rest here) here)
      ]

  generate_work_bound :
      (allocated : Bool) (polls : ℕ → Bool) (base : Tick) (n k : ℕ) (r : Rng C W F)
      → polls k ≡ true
      → (generate_work lib allocated polls base n r).payload.bytes ≤ generate_chunk_bytes * k
  unfolding generate_work generate_into_buffer
  generate_work_bound allocated polls base n k r c =
      let P : Work C W F → Type 0 = λ w. w.payload.bytes ≤ generate_chunk_bytes * k in
      let made = init_rng lib (read_counter lib r).1 in
      let begin_ : Chunks C W F = record {
        gen_ret = pos 0;
        done = 0;
        written = [];
        rng = (read_counter lib (read_counter lib made.1).1).1;
      } in
      let most = read_chunks_bound polls n n 0 k begin_ c (omega arith) (omega arith) in
      if-elim P (is_zero made.0 && ltb 0 n) (if-elim P allocated most (omega arith)) (omega arith)

  -- Where a read's positive result counts the bytes it delivers: if poll `k` of the cancel flag finds
  -- it set and more than `4096 * k` bytes are asked for, then at most `4096 * k` are produced, the
  -- status is not 0 and the page gets no bytes in hexadecimal.
  pub generate_work_cancelled :
      (allocated : Bool) (polls : ℕ → Bool) (base : Tick) (n k : ℕ) (r : Rng C W F)
      → Delivers lib
      → polls k ≡ true
      → 4096 * k < n
      → let p = (generate_work lib allocated polls base n r).payload in
        (p.bytes ≤ 4096 * k) × (p.status ≢ pos 0) × (p.hex_data ≡ [])
  generate_work_cancelled allocated polls base n k r delivers c more =
      let (written, any, (full, most, code, text, stats)) =
        generate_work-Reports lib (λ bytes. Unit) allocated polls base n r delivers
          (tt, λ m r bytes q. tt) (omega arith) in
      let bound = generate_work_bound allocated polls base n k r c in
      let p = (generate_work lib allocated polls base n r).payload in
      let failed : p.status ≢ pos 0 =
        λ e. let all = code.0 e in absurd (omega (arith, all, bound)) in
      elim (Bool-cases (is_zero p.status)) [
        | inl z ↦ absurd (failed (is_zero_lem p.status z))
        | inr z ↦ (bound, failed, rw (z) at text)
      ]
