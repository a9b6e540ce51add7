-- ===== src/Rng/Rounds.antt =====
-- The rounds of reading of `get_random_bytes`, over the library's contract for a read.
use jitterentropy_analysis_d.Prelude.{
  ℕ, zero, suc, ◌+◌, ◌-◌, ◌≤◌, ◌<◌, Bool, true, false, Option, some, List, [], ◌∷◌, ◌≡◌, ◌↔◌, inl,
  inr, refl, subst, sym, ◌∙◌, arith, ltb, ◌==◌, if◌then◌else◌, length, length-append, Bool-cases,
  if-elim,
}
use jitterentropy_analysis_d.Prelude.Int.{ℤ, pos, negsuc, ltb_ℤ, pos_part}
use jitterentropy_analysis_d.Double.{Double}
use jitterentropy_analysis_d.Monitor.{record_fips_failure}
use jitterentropy_analysis_d.Library.{Library}
use jitterentropy_analysis_d.Rng.{
  Rng, Loop, record_alarms, monitored, read_once, read_loop, outcome, succeeded,
}

module _ {C W : Type 0} (lib : Library C W) where
  -- A positive result counts the bytes delivered, no more than asked for.
  abbrev pub Delivers : Type 0
  Delivers =
      (held : Option C) (n : ℕ) (w : W) (k : ℕ)
      → (lib.read_entropy_safe held n w).0.ret ≡ pos k
      → (k ≤ n) × (length (lib.read_entropy_safe held n w).0.bytes ≡ k)

  -- With a collector, every read for a byte or more delivers one and leaves a collector.
  abbrev pub Answers : Type 0
  Answers =
      (c : C) (n : ℕ) (w : W)
      → 0 < n
      → (k : ℕ) × (left : C) × ((lib.read_entropy_safe (some c) n w).0.ret ≡ pos (suc k))
        × ((lib.read_entropy_safe (some c) n w).0.collector_left ≡ some left)

pos_of : (z : ℤ) → ltb_ℤ (pos 0) z ≡ true → z ≡ pos (pos_part z)
pos_of (pos n) h = refl
pos_of (negsuc n) h = absurd (ground arith)

if_both :
    {A : Type 0} {b c : Bool} {x : A} (y z : A)
    → b ≡ true
    → c ≡ true
    → (if b then (if c then x else y) else z) ≡ x
if_both y z p q = rw (p, q) refl

pub outcome_iff :
    (len : ℕ) (ret : ℤ) (n : ℕ)
    → (ltb_ℤ ret (pos 0) ≡ true → n < len)
    → ((outcome len ret n ≡ pos 0) ↔ (n ≡ len)) × (succeeded (outcome len ret n) ≡ (n == len))
outcome_iff len ret n unfinished = elim (Bool-cases (ltb_ℤ ret (pos 0))) [
  | inl h ↦
      let left : n < len = unfinished h in
      rw (h, ltb_ℤ ret (pos 0)) ((λ e. cc, λ e. absurd (omega arith)), ground arith)
  | inr h ↦
      rw (h, ltb_ℤ ret (pos 0))
        elim (Bool-cases (n == len)) [
          | inl e ↦
              let all : n ≡ len = ground arith in rw (e, n == len) ((λ x. all, λ x. refl), refl)
          | inr e ↦ rw (e, n == len) ((λ x. cc, λ x. absurd (ground arith)), refl)
        ]
]

-- What the loop keeps, while no error ends it: the count of the bytes, and that an error leaves some
-- undelivered.
pub record Good {C W F : Type 0} (len : ℕ) (s : Loop C W F) : Type 0 where
  pub counted : length s.written ≡ s.generated
  pub bounded : s.generated ≤ len
  pub unfinished : ltb_ℤ s.ret (pos 0) ≡ true → s.generated < len

module _ {C W F : Type 0} (lib : Library C W) where
  record_alarms-collector :
      (masks : List ℕ) (r : Rng C W F) → (record_alarms lib masks r).collector ≡ r.collector
  unfolding record_alarms monitored
  record_alarms-collector [] r = refl
  record_alarms-collector (mask ∷ masks) r =
      let told = monitored lib (λ t m. record_fips_failure t mask m) r in
      record_alarms-collector masks (if r.callback_set then told else r)
      ∙ if-elim (λ (x : Rng C W F). x.collector ≡ r.collector) r.callback_set {x = told} {y = r}
          refl refl

module _ {C W F : Type 0} ⦃d : Double F⦄ (lib : Library C W) where
  read_once-Good :
      (len : ℕ) (s : Loop C W F)
      → Delivers lib
      → s.generated < len
      → Good len s
      → Good len (read_once lib len s)
  unfolding read_once
  read_once-Good len s delivers left g =
      let w = (lib.now s.rng.world).1 in
      let got = (lib.read_entropy_safe s.rng.collector (len - s.generated) w).0 in
      let fair = delivers s.rng.collector (len - s.generated) w (pos_part got.ret) in
      elim (Bool-cases (ltb_ℤ (pos 0) got.ret)) [
        | inl h ↦
            let (most, bytes) = fair (pos_of got.ret h) in
            let joined = length-append s.written got.bytes in
            rw (h, read_once)
              record {
                counted = omega (arith, joined, bytes, g.counted);
                bounded = omega (arith, most, left);
                unfinished = λ e. absurd (ground arith);
              }
        | inr h ↦
            rw (h, read_once)
              record { counted = g.counted; bounded = g.bounded; unfinished = λ e. left }
      ]

  pub read_loop-Good :
      (fuel len : ℕ) (s : Loop C W F)
      → Delivers lib
      → Good len s
      → Good len (read_loop lib fuel len s)
  unfolding read_loop
  read_loop-Good zero len s delivers g = g
  read_loop-Good (suc fuel) len s delivers g = elim (Bool-cases (ltb s.generated len)) [
    | inl h ↦
        let next = read_once-Good len s delivers (ground arith) g in
        let rest = read_loop-Good fuel len (read_once lib len s) delivers next in
        rw (h, read_loop) (if-elim (Good len) (ltb_ℤ (pos 0) (read_once lib len s).ret) rest next)
    | inr h ↦ rw (h, read_loop) g
  ]

  read_once_answered :
      (len : ℕ) (s : Loop C W F) (c : C)
      → Answers lib
      → s.rng.collector ≡ some c
      → s.generated < len
      → (left : C) × (ltb_ℤ (pos 0) (read_once lib len s).ret ≡ true)
        × (ltb_ℤ (read_once lib len s).ret (pos 0) ≡ false)
        × (s.generated < (read_once lib len s).generated)
        × ((read_once lib len s).rng.collector ≡ some left)
  unfolding read_once monitored
  read_once_answered len s c answers held left_over =
      let w = (lib.now s.rng.world).1 in
      let (k, left, e, kept) = answers c (len - s.generated) w (omega arith) in
      let got = lib.read_entropy_safe (some c) (len - s.generated) w in
      let r = record (s.rng) { collector = got.0.collector_left; world = got.1 } in
      let same = record_alarms-collector lib got.0.alarms r ∙ kept in
      rw (held, e, got.0.ret) (left, ground arith, ground arith, ground arith, same)

  read_loop_more :
      (fuel len : ℕ) (s : Loop C W F)
      → ltb s.generated len ≡ true
      → ltb_ℤ (pos 0) (read_once lib len s).ret ≡ true
      → read_loop lib (suc fuel) len s ≡ read_loop lib fuel len (read_once lib len s)
  unfolding read_loop
  read_loop_more fuel len s h more = if_both _ _ h more

  -- With every read answered, `fuel` rounds deliver all that is left.
  pub read_loop_full :
      (fuel len : ℕ) (s : Loop C W F) (c : C)
      → Delivers lib
      → Answers lib
      → s.rng.collector ≡ some c
      → Good len s
      → ltb_ℤ s.ret (pos 0) ≡ false
      → len ≤ fuel + s.generated
      → ((read_loop lib fuel len s).generated ≡ len)
        × (ltb_ℤ (read_loop lib fuel len s).ret (pos 0) ≡ false)
  unfolding read_loop
  read_loop_full zero len s c delivers answers held g fine enough =
      (omega (arith, enough, g.bounded), fine)
  read_loop_full (suc fuel) len s c delivers answers held g fine enough =
      elim (Bool-cases (ltb s.generated len)) [
        | inl h ↦
            let left_over : s.generated < len = ground arith in
            let next = read_once-Good len s delivers left_over g in
            let (left, more, fair, grows, kept) =
              read_once_answered len s c answers held left_over in
            let ih =
              read_loop_full fuel len (read_once lib len s) left delivers answers kept next fair
                (omega (arith, enough, grows)) in
            subst (λ (t : Loop C W F). (t.generated ≡ len) × (ltb_ℤ t.ret (pos 0) ≡ false))
              (sym (read_loop_more fuel len s h more)) ih
        | inr h ↦
            let all : s.generated ≡ len = let b = g.bounded in ground arith in
            rw (h, read_loop) (all, fine)
      ]
