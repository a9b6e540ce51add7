-- ===== src/Rng/Octets.antt =====
-- What is put into a buffer are bytes.
use jitterentropy_analysis_d.Prelude.{
  ℕ, zero, suc, ◌-◌, true, Option, List, [], ◌∷◌, ◌++◌, inl, inr, Option-cases, if-elim, ◌==◌, ltb,
}
use jitterentropy_analysis_d.Prelude.Int.{ℤ, pos, ltb_ℤ}
use jitterentropy_analysis_d.Double.{Double}
use jitterentropy_analysis_d.Library.{Library}
use jitterentropy_analysis_d.Stats.Histogram.Counts.{AreBytes}
use jitterentropy_analysis_d.Rng.{
  Rng, Loop, read_counter, read_once, read_loop, generate, get_random_bytes,
}

-- A read puts bytes into the buffer.
abbrev pub PutsBytes : {C W : Type 0} → Library C W → Type 0
PutsBytes {C} {W} lib =
    (held : Option C) (n : ℕ) (w : W) → AreBytes (lib.read_entropy_safe held n w).0.bytes

pub append-AreBytes : (xs ys : List ℕ) → AreBytes xs → AreBytes ys → AreBytes (xs ++ ys)
append-AreBytes [] ys a b = b
append-AreBytes (x ∷ xs) ys (small, a) b = (small, append-AreBytes xs ys a b)

module _ {C W F : Type 0} ⦃d : Double F⦄ (lib : Library C W) where
  read_once-AreBytes :
      (len : ℕ) (s : Loop C W F)
      → PutsBytes lib
      → AreBytes s.written
      → AreBytes (read_once lib len s).written
  unfolding read_once
  read_once-AreBytes len s puts a =
      let w = (lib.now s.rng.world).1 in
      let got = (lib.read_entropy_safe s.rng.collector (len - s.generated) w).0 in
      if-elim AreBytes (ltb_ℤ (pos 0) got.ret)
        (append-AreBytes s.written got.bytes a (puts s.rng.collector (len - s.generated) w)) a

  read_loop-AreBytes :
      (fuel len : ℕ) (s : Loop C W F)
      → PutsBytes lib
      → AreBytes s.written
      → AreBytes (read_loop lib fuel len s).written
  unfolding read_loop
  read_loop-AreBytes zero len s puts a = a
  read_loop-AreBytes (suc fuel) len s puts a =
      let P : Loop C W F → Type 0 = λ t. AreBytes t.written in
      let next = read_once-AreBytes len s puts a in
      let rest = read_loop-AreBytes fuel len (read_once lib len s) puts next in
      if-elim P (ltb s.generated len)
        (if-elim P (ltb_ℤ (pos 0) (read_once lib len s).ret) rest next) a

  pub get_random_bytes-AreBytes :
      (len : ℕ) (r : Rng C W F) → PutsBytes lib → AreBytes (get_random_bytes lib true len r).1
  unfolding get_random_bytes generate
  get_random_bytes-AreBytes len r puts =
      let P : (ℤ × List ℕ × Rng C W F) → Type 0 = λ x. AreBytes x.1 in
      elim (Option-cases r.collector) [
        | inl e ↦ rw (e, r.collector) tt
        | inr (c, e) ↦
            let begin_ : Loop C W F = record {
              ret = pos 0;
              generated = 0;
              written = [];
              rng = (read_counter lib r).1;
            } in
            rw (e, get_random_bytes)
              (if-elim P (len == 0) tt (read_loop-AreBytes len len begin_ puts tt))
      ]
