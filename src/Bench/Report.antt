-- ===== src/Bench/Report.antt =====
-- What the benchmark programs print (bench/common.hpp): numbers in decimal, lines on the two streams, and
-- the CSV file. A `double` is printed by a parameter.
unfoldable pub use shimmy.Common.Texts.{decimal_from}
pub use shimmy.Common.Texts.{decimal}
pub mod Numbers
pub mod Columns
pub mod Streams
use shimmy.Common.{
  ℕ, zero, suc, ◌+◌, ◌/◌, ◌%◌, ◌-◌, Bool, ◌==◌, List, [], ◌∷◌, ◌++◌, Option, none, some, ltb,
  if◌then◌else◌, take, ℤ, pos, negsuc,
}
use shimmy.Bench.Options.{Text, codes}
use shimmy.Bench.Cpu.{CpuConfig, em_dash, read_first_line, detect_cpu_config}

abbrev pub signed : ℤ → Text
signed (pos v) = decimal v
signed (negsuc v) = 45 ∷ decimal (v + 1)

-- `snprintf` to a buffer of this size, one byte of which ends the text.
abbrev pub snprintf : ℕ → Text → Text
snprintf size text = take (size - 1) text

-- What `printf` makes of the pieces of its format and of its arguments, in order.
abbrev printed_from : Text → List Text → Text
printed_from s [] = s
printed_from s (t ∷ pieces) = s ++ printed_from t pieces

abbrev pub printed : List Text → Text
printed [] = []
printed (s ∷ pieces) = printed_from s pieces

-- A write to a stream or to the CSV file.
pub data Output : Type 0 where
  to_stdout : Text → Output
  to_stderr : Text → Output
  to_file : Text → Text → Output  -- the path and the text

-- `f_`: the path of the open file.
pub record CsvWriter : Type 0 where
  pub file : Option Text

-- `opens` is whether `fopen` succeeds.
unfoldable pub csv_writer : (Text → Bool) → Text → CsvWriter
csv_writer opens [] = record { file = none }
csv_writer opens (b ∷ path) = record { file = if opens (b ∷ path) then some (b ∷ path) else none }

abbrev pub newline : Text
newline = 10 ∷ []

abbrev file_line : Option Text → Text → List Output
file_line none s = []
file_line (some path) s = to_file path (s ++ newline) ∷ []

-- `CsvWriter::line`
unfoldable pub line : CsvWriter → Text → List Output
line csv s = file_line csv.file s ++ (to_stdout (s ++ newline) ∷ [])

unfoldable pub print_cpu_config_banner : CpuConfig → List Output
print_cpu_config_banner c =
    to_stderr (printed (codes "# shimmy-bench cpu-config: " ∷ c.note ∷ newline ∷ []))
    ∷ (if c.noisy
        then to_stderr (
            printed (
              codes
                "# WARNING: measuring under a NOISY CPU config. Numbers are real but not authoritative "
              ∷ em_dash
              ∷ codes " see note above."
              ∷ newline
              ∷ []))
          ∷ []
        else [])

-- The type `double`, with the operations that the programs use: conversion from `int64_t`, division,
-- multiplication, two comparisons, and `printf` with a number of decimals.
pub record Doubles (D : Type 0) : Type 0 where
  pub from_int : ℤ → D
  pub over : D → D → D
  pub times : D → D → D
  pub is_above : D → D → Bool
  pub is_at_least : D → D → Bool
  pub fixed : ℕ → D → Text

-- What the programs find on the machine: the lines of the files under /sys, the processors, whether
-- `fopen` succeeds.
pub record Machine : Type 0 where
  pub governor : Option (Option Text)
  pub no_turbo : Option (Option Text)
  pub boost : Option (Option Text)
  pub processors : ℤ
  pub opens : Text → Bool

abbrev pub cpu_config_of : Machine → CpuConfig
cpu_config_of machine =
    detect_cpu_config (read_first_line machine.governor) (read_first_line machine.no_turbo)
      (read_first_line machine.boost)

abbrev pub comma : Text
comma = 44 ∷ []

-- `cfg.noisy ? 1 : 0`
abbrev pub flag : Bool → Text
flag noisy = if noisy then codes "1" else codes "0"

-- What is written to the CSV file and to the standard output, in order.
abbrev pub file_text : List Output → Text
file_text [] = []
file_text (to_file path text ∷ outputs) = text ++ file_text outputs
file_text (to_stdout text ∷ outputs) = file_text outputs
file_text (to_stderr text ∷ outputs) = file_text outputs

abbrev pub stdout_text : List Output → Text
stdout_text [] = []
stdout_text (to_file path text ∷ outputs) = stdout_text outputs
stdout_text (to_stdout text ∷ outputs) = text ++ stdout_text outputs
stdout_text (to_stderr text ∷ outputs) = stdout_text outputs

-- Lines, one after the other.
abbrev pub lines : List Text → Text
lines [] = []
lines (s ∷ others) = s ++ newline ++ lines others
