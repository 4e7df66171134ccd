-- ===== src/Bench/Report/Streams.antt =====
-- What the lines of the benchmark programs leave on the two streams and in the CSV file (`CsvWriter` of
-- bench/common.hpp).
use shimmy.Common.{
  ◌≡◌, refl, sym, ap, ◌∙◌, inl, inr, List, [], ◌∷◌, ◌++◌, Option, none, some, Bool-cases,
}
use mathlib.Core.Path.{subst}
use mathlib.Core.List.{append_assoc, append-nil}
use shimmy.Bench.Options.{Text}
use shimmy.Bench.Cpu.{CpuConfig}
use shimmy.Bench.Report.{
  file_line, Output, to_stdout, to_stderr, to_file, CsvWriter, line, lines, newline, file_text,
  stdout_text, print_cpu_config_banner,
}

-- The outputs put these lines on the standard output, and the same into the file if it is open.
pub record Writes (csv : CsvWriter) (outputs : List Output) (written : List Text) : Type 0 where
  pub shown : stdout_text outputs ≡ lines written
  pub kept : (path : Text) → csv.file ≡ some path → file_text outputs ≡ lines written

stdout_text-append :
    (xs ys : List Output) → stdout_text (xs ++ ys) ≡ stdout_text xs ++ stdout_text ys
stdout_text-append [] ys = refl
stdout_text-append (to_stdout s ∷ xs) ys =
    ap (λ t. s ++ t) (stdout_text-append xs ys)
    ∙ sym (append_assoc s (stdout_text xs) (stdout_text ys))
stdout_text-append (to_stderr s ∷ xs) ys = stdout_text-append xs ys
stdout_text-append (to_file path s ∷ xs) ys = stdout_text-append xs ys

file_text-append : (xs ys : List Output) → file_text (xs ++ ys) ≡ file_text xs ++ file_text ys
file_text-append [] ys = refl
file_text-append (to_file path s ∷ xs) ys =
    ap (λ t. s ++ t) (file_text-append xs ys) ∙ sym (append_assoc s (file_text xs) (file_text ys))
file_text-append (to_stderr s ∷ xs) ys = file_text-append xs ys
file_text-append (to_stdout s ∷ xs) ys = file_text-append xs ys

lines-append : (xs ys : List Text) → lines (xs ++ ys) ≡ lines xs ++ lines ys
lines-append [] ys = refl
lines-append (s ∷ xs) ys =
    ap (λ t. s ++ newline ++ t) (lines-append xs ys)
    ∙ sym (append_assoc (s ++ newline) (lines xs) (lines ys))

line_shown :
    (s : Text) (file : Option Text)
    → stdout_text (file_line file s ++ (to_stdout (s ++ newline) ∷ [])) ≡ s ++ newline
line_shown s none = append-nil (s ++ newline)
line_shown s (some path) = append-nil (s ++ newline)

line_kept :
    (s : Text) (file : Option Text) (path : Text)
    → file ≡ some path
    → file_text (file_line file s ++ (to_stdout (s ++ newline) ∷ [])) ≡ s ++ newline
line_kept s none path e = absurd (cc)
line_kept s (some at) path e = append-nil (s ++ newline)

module _ {csv : CsvWriter} where
  pub Writes-append :
      {xs ys : List Output} {s t : List Text}
      → Writes csv xs s
      → Writes csv ys t
      → Writes csv (xs ++ ys) (s ++ t)
  Writes-append {xs} {ys} {s} {t} v w = record {
    shown = rw (stdout_text-append xs ys, v.shown, w.shown) (sym (lines-append s t));
    kept = λ path e.
        rw (file_text-append xs ys, v.kept path e, w.kept path e) (sym (lines-append s t));
  }

  pub Writes-line : (s : Text) → Writes csv (line csv s) (s ∷ [])
  unfolding line
  Writes-line s = record {
    shown = line_shown s csv.file ∙ sym (append-nil (s ++ newline));
    kept = λ path e. line_kept s csv.file path e ∙ sym (append-nil (s ++ newline));
  }

  -- Lines on the error stream alone.
  pub Writes-nothing :
      (outputs : List Output)
      → stdout_text outputs ≡ []
      → file_text outputs ≡ []
      → Writes csv outputs []
  Writes-nothing outputs e h = record { shown = e; kept = λ path o. h }

  pub Writes-banner : (cfg : CpuConfig) → Writes csv (print_cpu_config_banner cfg) []
  unfolding print_cpu_config_banner
  Writes-banner cfg = elim (Bool-cases cfg.noisy) [
    | inl noisy ↦ rw noisy (Writes-nothing _ refl refl)
    | inr clean ↦ rw clean (Writes-nothing _ refl refl)
  ]

  -- What a program prints: the banner, its settings, the header, the rows and the verdict.
  pub Writes-program :
      {banner setting head rows end : List Output} {header : Text} {written : List Text}
      → Writes csv banner []
      → Writes csv setting []
      → Writes csv head (header ∷ [])
      → Writes csv rows written
      → Writes csv end []
      → Writes csv (banner ++ setting ++ head ++ rows ++ end) (header ∷ written)
  Writes-program {banner} {setting} {head} {rows} {end} {header} {written} a b c d e =
      subst (λ t. Writes csv (banner ++ setting ++ head ++ rows ++ end) (header ∷ t))
        (append-nil written)
        (Writes-append (Writes-append (Writes-append (Writes-append a b) c) d) e)
