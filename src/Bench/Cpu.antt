-- ===== src/Bench/Cpu.antt =====
-- The cores and the CPU configuration of the benchmark programs (bench/common.hpp). The first lines
-- of the files under /sys are parameters, empty if a file cannot be read.
use shimmy.Common.{
  ℕ, Bool, true, false, not, ◌&&◌, ◌||◌, [], ◌∷◌, ◌++◌, Option, none, some, ℤ, pos, negsuc, ltb,
  ◌==◌, if◌then◌else◌,
}
use shimmy.Bench.Options.{Text, codes}

pub record CoreLayout : Type 0 where
  pub producer_cpu : ℕ
  pub first_consumer_cpu : ℕ

unfoldable pub pick_core_layout : ℕ → CoreLayout
pick_core_layout ncpu = record {
  producer_cpu = 0;
  first_consumer_cpu = if ltb 2 ncpu then 2 else 1;
}

-- On Linux, by what `sysconf` answers.
unfoldable pub num_online_cpus : ℤ → ℕ
num_online_cpus (pos n) = if ltb 0 n then n else 1
num_online_cpus (negsuc n) = 1

pub record CpuConfig : Type 0 where
  pub governor : Text
  pub turbo_known : Bool
  pub turbo_enabled : Bool
  pub noisy : Bool
  pub note : Text

abbrev is_empty : Text → Bool
is_empty [] = true
is_empty (b ∷ text) = false

abbrev same_text : Text → Text → Bool
same_text [] [] = true
same_text [] (b ∷ text) = false
same_text (a ∷ text) [] = false
same_text (a ∷ s) (b ∷ t) = a == b && same_text s t

-- The loop of `read_first_line` that takes line ends and blanks from the end of the buffer.
unfoldable trim : Text → Text
trim [] = []
trim (b ∷ text) =
    let rest = trim text in
    if is_empty rest && (b == 10 || b == 13 || b == 32) then [] else b ∷ rest

-- `read_first_line`: what `fopen` and then `fgets` give.
unfoldable pub read_first_line : Option (Option Text) → Text
unfolding trim
read_first_line none = []
read_first_line (some none) = []
read_first_line (some (some line)) = trim line

-- The turbo state by intel_pstate's no_turbo, or else by cpufreq's boost: whether it is known, and on.
unfoldable turbo_of : Text → Text → Bool × Bool
turbo_of [] [] = (false, false)
turbo_of [] (b ∷ boost) = (true, same_text (b ∷ boost) (codes "1"))
turbo_of (b ∷ no_turbo) boost = (true, same_text (b ∷ no_turbo) (codes "0"))

abbrev is_performance : Text → Bool
is_performance governor = same_text governor (codes "performance")

unfoldable noisy_of : Text → Bool → Bool
noisy_of governor turbo_enabled =
    (not (is_empty governor) && not (is_performance governor)) || turbo_enabled

abbrev turbo_note : Bool → Bool → Text
turbo_note known enabled =
    if known
    then if enabled then codes ", turbo ON" else codes ", turbo off"
    else codes ", turbo state unknown"

abbrev noisy_note : Text
noisy_note =
    codes
      " -> NOISY: frequency may scale during the run; tails are indicative, not authoritative. For stable numbers: set governor=performance and disable turbo, pin to isolated cores."

-- In UTF-8.
abbrev pub em_dash : Text
em_dash = 226 ∷ 128 ∷ 148 ∷ []

unfoldable note_of : Text → Bool → Bool → Bool → Text
note_of governor known enabled noisy =
    if is_empty governor
    then codes "governor unknown (cpufreq sysfs not readable)"
    else if is_performance governor && known && not enabled
    then codes "governor=performance, turbo off "
      ++ em_dash
      ++ codes " clean config for stable tails"
    else codes "governor="
      ++ governor
      ++ turbo_note known enabled
      ++ (if noisy then noisy_note else [])

-- `detect_cpu_config` on Linux.
unfoldable pub detect_cpu_config : Text → Text → Text → CpuConfig
unfolding turbo_of noisy_of note_of
detect_cpu_config governor no_turbo boost =
    let (known, enabled) = turbo_of no_turbo boost in
    let noisy = noisy_of governor enabled in
    record {
      governor = governor;
      turbo_known = known;
      turbo_enabled = enabled;
      noisy = noisy;
      note = note_of governor known enabled noisy;
    }

unfoldable pub turbo_str : CpuConfig → Text
turbo_str c =
    if not c.turbo_known
    then codes "unknown"
    else if c.turbo_enabled
    then codes "on"
    else codes "off"
