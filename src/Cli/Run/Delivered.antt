-- ===== src/Cli/Run/Delivered.antt =====
-- What a run that has its bytes prints, and what becomes of the file.
use mathlib.Core.List.{append_assoc}
use jitterentropy_analysis_d.Prelude.{
  ℕ, ◌*◌, ◌≤◌, min, Bool, true, false, some, List, [], ◌∷◌, ◌++◌, ◌≡◌, ◌≢◌, ◌↔◌, ◌⊎◌, inl, inr,
  refl, ap, ◌∙◌, arith, length, take, take-append, Bool-cases, if-elim, if◌then◌else◌, ◌==◌, not,
}
use jitterentropy_analysis_d.Double.{Double}
use jitterentropy_analysis_d.Library.{Library}
use jitterentropy_analysis_d.Rng.{Rng, shutdown_rng}
use jitterentropy_analysis_d.Rng.Journal.{Journal, status-log, shutdown_rng-log, epoch_reading-log}
use jitterentropy_analysis_d.Stats.Histogram.Counts.{AreBytes}
use jitterentropy_analysis_d.Stats.Report.{report}
use jitterentropy_analysis_d.Print.{hex}
use jitterentropy_analysis_d.Print.Hex.{from_hex, from_hex-hex}
use jitterentropy_analysis_d.Bridge.Text.{Bytes}
use jitterentropy_analysis_d.Cli.Args.{Options}
use jitterentropy_analysis_d.Cli.Errors.{write_failed, message}
use jitterentropy_analysis_d.Cli.Errors.Told.{message-ne}
use jitterentropy_analysis_d.Cli.Text.{hex_line, entropy_text}
use jitterentropy_analysis_d.Cli.Run.{
  Disk, File, untouched, spoilt, holding, Surroundings, Outcome, write_random_file, prompt, prompts,
  wants_file, report_status, deliver,
}

-- A disk that takes so many bytes.
abbrev pub Writable : Disk → ℕ → Type 0
Writable disk n = (disk.opened ≡ true) × (n ≤ disk.room) × (disk.closed ≡ true)

abbrev pub Failed : File → Type 0
Failed file = (file ≡ untouched) ⊎ (file ≡ spoilt)

write_random_file_lem :
    (disk : Disk) (bytes : List ℕ)
    → (Writable disk (length bytes) × (write_random_file disk bytes ≡ (true, holding bytes)))
      ⊎ (¬ Writable disk (length bytes)
          × ((write_random_file disk bytes).0 ≡ false)
          × Failed (write_random_file disk bytes).1)
unfolding write_random_file
write_random_file_lem disk bytes = elim (Bool-cases disk.opened) [
  | inr o ↦ rw (o, disk.opened) (inr (λ w. cc (w.0), refl, inl refl))
  | inl o ↦ elim (Bool-cases (min disk.room (length bytes) == length bytes)) [
    | inr r ↦
        rw (o, disk.opened, r, min disk.room (length bytes) == length bytes)
          (inr (λ w. let fits = w.1 in ground (arith, fits, r), refl, inr refl))
    | inl r ↦ elim (Bool-cases disk.closed) [
      | inr c ↦
          rw (o, disk.opened, r, min disk.room (length bytes) == length bytes, c, disk.closed)
            (inr (λ w. cc (w.2), refl, inr refl))
      | inl c ↦
          rw (o, disk.opened, r, min disk.room (length bytes) == length bytes, c, disk.closed)
            (inl ((refl, ground (arith, r), refl), refl))
    ]
  ]
]

-- What a run with all its bytes, which are `bytes`, leaves. Its output starts with them in hexadecimal and the end of the
-- line, and reads back as them. It exits with 0 exactly if no file is wanted or the disk takes it, and
-- there is a message exactly if it does not. If it does, the file holds the bytes, if it is wanted, and
-- else is as before; if it does not, the file is as before or spoilt.
pub record Sample {C W F : Type 0} (around : Surroundings) (o : Options) (bytes : List ℕ)
    (e : Outcome C W F) : Type 0 where
  pub rest : Bytes
  pub are_bytes : AreBytes bytes
  pub complete : length bytes ≡ o.random_byte_count
  pub shown : e.out ≡ hex bytes ++ (b'\n' ∷ rest)
  pub read_back : from_hex (take (2 * o.random_byte_count) e.out) ≡ some bytes
  pub said : (e.err ≡ []) ↔ (e.code ≡ 0)
  pub fine : (e.code ≡ 0) ↔ (wants_file around o ≡ true → Writable around.disk (length bytes))
  pub kept : e.code ≡ 0 → e.file ≡ (if wants_file around o then holding bytes else untouched)
  pub failed : e.code ≢ 0 → (e.code ≡ 1) × Failed e.file

printed_back :
    (bytes : List ℕ) (rest out : Bytes) (n : ℕ)
    → AreBytes bytes
    → length bytes ≡ n
    → out ≡ hex bytes ++ (b'\n' ∷ rest)
    → from_hex (take (2 * n) out) ≡ some bytes
printed_back bytes rest out n are_bytes complete shown =
    let (long, back) = from_hex-hex bytes are_bytes in
    ap (λ t. from_hex (take (2 * n) t)) shown
    ∙ ap from_hex (take-append (2 * n) (hex bytes) (b'\n' ∷ rest) (omega (arith, long, complete)))
    ∙ back

hex_line_first :
    (bytes : List ℕ) (p more : Bytes)
    → (hex_line bytes ++ p) ++ more ≡ hex bytes ++ (b'\n' ∷ (p ++ more))
unfolding hex_line
hex_line_first bytes p more =
    append_assoc (hex_line bytes) p more ∙ append_assoc (hex bytes) (b'\n' ∷ []) (p ++ more)

-- What is written, if a file is wanted.
abbrev written : Surroundings → Options → List ℕ → Bool × File
written around o bytes =
    if wants_file around o then write_random_file around.disk bytes else (true, untouched)

-- The file that is asked for is there, or is not.
abbrev Settled : Surroundings → Options → List ℕ → Bool × File → Type 0
Settled around o bytes (ok, file) =
    ((ok ≡ true)
      × (file ≡ (if wants_file around o then holding bytes else untouched))
      × (wants_file around o ≡ true → Writable around.disk (length bytes)))
    ⊎ ((ok ≡ false)
        × Failed file
        × ¬ (wants_file around o ≡ true → Writable around.disk (length bytes)))

written-Settled :
    (around : Surroundings) (o : Options) (bytes : List ℕ)
    → Settled around o bytes (written around o bytes)
written-Settled around o bytes = elim (Bool-cases (wants_file around o)) [
  | inr h ↦ rw (h, wants_file around o) (inl (refl, refl, λ t. cc))
  | inl h ↦ elim (write_random_file_lem around.disk bytes) [
    | inl (fits, e) ↦ rw (h, wants_file around o, e) (inl (refl, refl, λ t. fits))
    | inr (misses, e, failed) ↦
        rw (h, wants_file around o) (inr (e, failed, λ fits. misses (fits refl)))
  ]
]

module _ {C W F : Type 0} ⦃d : Double F⦄ (fixed : ℕ → ℕ → F → Bytes) (lib : Library C W) where
  Settled-Sample :
      (around : Surroundings) (o : Options) (bytes : List ℕ) (p more : Bytes) (r r1 : Rng C W F)
      (made : Bool × File)
      → AreBytes bytes
      → length bytes ≡ o.random_byte_count
      → Settled around o bytes made
      → Sample around o bytes (
          if not made.0
          then record {
            code = 1;
            out = hex_line bytes ++ p;
            err = message write_failed;
            file = made.1;
            rng = r;
          }
          else record {
            code = 0;
            out = (hex_line bytes ++ p) ++ more;
            err = [];
            file = made.1;
            rng = r1;
          })
  unfolding hex_line
  Settled-Sample around o bytes p more r r1 made are_bytes complete (inl (ok, file, fits)) =
      let shown = hex_line_first bytes p more in
      rw (ok, made.0)
        record {
          rest = p ++ more;
          are_bytes = are_bytes;
          complete = complete;
          shown = shown;
          read_back = printed_back bytes _ _ _ are_bytes complete shown;
          said = (λ z. refl, λ z. refl);
          fine = (λ z. fits, λ f. refl);
          kept = λ z. file;
          failed = λ h. absurd (h refl);
        }
  Settled-Sample around o bytes p more r r1 made are_bytes complete (inr (ok, failed, misses)) =
      let shown = append_assoc (hex bytes) (b'\n' ∷ []) p in
      rw (ok, made.0)
        record {
          rest = p;
          are_bytes = are_bytes;
          complete = complete;
          shown = shown;
          read_back = printed_back bytes _ _ _ are_bytes complete shown;
          said = (λ z. absurd (message-ne write_failed z), λ z. cc);
          fine = (λ z. cc, λ f. absurd (misses f));
          kept = λ z. cc;
          failed = λ h. (refl, failed);
        }

  pub deliver-Sample :
      (around : Surroundings) (o : Options) (bytes : List ℕ) (r : Rng C W F)
      → AreBytes bytes
      → length bytes ≡ o.random_byte_count
      → Sample around o bytes (deliver fixed lib around o bytes r)
  unfolding deliver
  deliver-Sample around o bytes r are_bytes complete =
      let stats = if o.print_stats then entropy_text fixed (report bytes) else [] in
      let (status, r1) = report_status fixed lib o.print_status r in
      Settled-Sample around o bytes (if prompts o then prompt else []) (stats ++ status)
        (shutdown_rng lib r) (shutdown_rng lib r1) (written around o bytes) are_bytes complete
        (written-Settled around o bytes)

  report_status-log :
      (log : W → List ℕ) (b : Bool) (r : Rng C W F)
      → Journal lib log
      → log (report_status fixed lib b r).1.world ≡ log r.world
  unfolding report_status
  report_status-log log false r j = refl
  report_status-log log true r j = status-log lib log j _ _ _ ∙ epoch_reading-log lib log j _ _

  pub deliver-log :
      (log : W → List ℕ) (around : Surroundings) (o : Options) (bytes : List ℕ) (r : Rng C W F)
      → Journal lib log
      → log (deliver fixed lib around o bytes r).rng.world ≡ log r.world
  unfolding deliver
  deliver-log log around o bytes r j =
      if-elim (λ (e : Outcome C W F). log e.rng.world ≡ log r.world)
        (not (written around o bytes).0) (shutdown_rng-log lib log j r)
        (shutdown_rng-log lib log j _ ∙ report_status-log log o.print_status r j)

  -- A run that delivers what the wrapper has handed on, and the log behind it.
  abbrev pub Delivered : (W → List ℕ) → Surroundings → Options → Rng C W F → Outcome C W F → Type 0
  Delivered log around o r e =
      (bytes : List ℕ) × Sample around o bytes e × (log e.rng.world ≡ log r.world ++ bytes)
