-- ===== src/Bench/Latency/Report.antt =====
-- What bench/latency_bench.cpp prints: its CSV rows, its verdicts and its `main`. What a run of
-- `run_latency` measures is an argument, and so is how a `double` is printed.
use shimmy.Common.{ℕ, zero, suc, ◌-◌, List, [], ◌∷◌, ◌++◌, Bool, if◌then◌else◌, ℤ, pos, length}
use shimmy.Config.{Wait, spin, spin_then_yield, futex}
use shimmy.Bench.Timing.{measure_clock_overhead}
use shimmy.Bench.Options.{Text, codes, arg_value, arg_int}
use shimmy.Bench.Cpu.{
  CoreLayout, CpuConfig, pick_core_layout, num_online_cpus, detect_cpu_config, turbo_str, em_dash,
}
use shimmy.Bench.Report.{
  decimal, signed, snprintf, printed, newline, comma, flag, Doubles, Output, to_stderr, Machine,
  cpu_config_of, CsvWriter, csv_writer, line, print_cpu_config_banner,
}
use shimmy.Bench.Latency.{LatencyResult, is_met}

-- The line that `emit_row` formats.
abbrev pub row : Text → LatencyResult → Text → Text → CpuConfig → Text
row strat r clock_oh mean cfg = printed (
    codes "latency,"
    ∷ strat
    ∷ comma
    ∷ decimal 64
    ∷ comma
    ∷ decimal r.samples
    ∷ comma
    ∷ clock_oh
    ∷ comma
    ∷ signed r.p50
    ∷ comma
    ∷ signed r.p90
    ∷ comma
    ∷ signed r.p99
    ∷ comma
    ∷ signed r.p999
    ∷ comma
    ∷ signed r.p9999
    ∷ comma
    ∷ signed r.lo
    ∷ comma
    ∷ signed r.hi
    ∷ comma
    ∷ mean
    ∷ comma
    ∷ cfg.governor
    ∷ comma
    ∷ turbo_str cfg
    ∷ comma
    ∷ flag cfg.noisy
    ∷ [])

-- The texts of the overhead and of the mean are those that "%.1f" gives.
unfoldable pub emit_row : CsvWriter → Text → LatencyResult → Text → Text → CpuConfig → List Output
unfolding line turbo_str
emit_row csv strat r clock_oh mean cfg = line csv (snprintf 512 (row strat r clock_oh mean cfg))

abbrev spaces : ℕ → Text
spaces zero = []
spaces (suc n) = 32 ∷ spaces n

-- "%-14s" and "%6lld".
abbrev pad_right : ℕ → Text → Text
pad_right n s = s ++ spaces (n - length s)

abbrev pad_left : ℕ → Text → Text
pad_left n s = spaces (n - length s) ++ s

unfoldable pub print_verdict : Text → ℤ → ℕ → Text → Output
unfolding is_met
print_verdict strat p999 target target_str = to_stderr (
    printed (
      codes "#   "
      ∷ pad_right 14 strat
      ∷ codes " p99.9="
      ∷ pad_left 6 (signed p999)
      ∷ codes " ns  (hypothesis "
      ∷ target_str
      ∷ codes ")  -> "
      ∷ (if is_met p999 target then codes "MET" else codes "MISSED")
      ∷ newline
      ∷ []))

abbrev pub header : Text
header =
    codes
      "kind,wait_strategy,block_size,samples,clock_overhead_ns,p50_ns,p90_ns,p99_ns,p999_ns,p9999_ns,min_ns,max_ns,mean_ns,governor,turbo,noisy"

abbrev pub section_sign : Text
section_sign = 194 ∷ 167 ∷ []

module _ {D : Type 0} (f : Doubles D) where
  abbrev overhead_line : D → Output
  overhead_line clock_oh = to_stderr (
      printed (
        codes "# clock_overhead="
        ∷ f.fixed 1 clock_oh
        ∷ codes " ns (subtracted per sample)"
        ∷ newline
        ∷ []))

  abbrev pinning_line : CoreLayout → ℕ → ℤ → ℤ → ℤ → Output
  pinning_line layout ncpu measure_msgs warmup_msgs gap_ns = to_stderr (
      printed (
        codes "# pinning: producer=cpu"
        ∷ decimal layout.producer_cpu
        ∷ codes " consumer=cpu"
        ∷ decimal layout.first_consumer_cpu
        ∷ codes " ("
        ∷ decimal ncpu
        ∷ codes " online), samples="
        ∷ signed measure_msgs
        ∷ codes " warmup="
        ∷ signed warmup_msgs
        ∷ codes " gap="
        ∷ signed gap_ns
        ∷ codes "ns, block="
        ∷ decimal 64
        ∷ codes "B, policy=Backpressure"
        ∷ newline
        ∷ []))

  abbrev pub verdicts : LatencyResult → LatencyResult → LatencyResult → Bool → Text → List Output
  verdicts spinning yielding sleeping noisy out =
      to_stderr (
        printed (
          codes "#"
          ∷ newline
          ∷ codes "# per-strategy p99.9 vs DESIGN "
          ∷ section_sign
          ∷ codes "6 hypotheses:"
          ∷ newline
          ∷ []))
      ∷ print_verdict (codes "Spin") spinning.p999 200 (codes "<200ns")
      ∷ print_verdict (codes "SpinThenYield") yielding.p999 1000 (codes "<1us")
      ∷ print_verdict (codes "Futex") sleeping.p999 10000 (codes "<10us")
      ∷ ((if noisy
            then to_stderr (
                printed (
                  codes "# (CPU config is NOISY "
                  ∷ em_dash
                  ∷ codes " treat verdicts as indicative.)"
                  ∷ newline
                  ∷ []))
              ∷ []
            else [])
          ++ (to_stderr (printed (codes "# latency CSV written to " ∷ out ∷ newline ∷ [])) ∷ []))

  -- `main`, on the arguments behind the program's name. `run_latency` is what the run of a strategy
  -- measures, with its mean, when it is given the counts of messages, the gap, the overhead and the
  -- cores.
  unfoldable pub main :
      List Text
      → Machine
      → List (ℕ × ℕ)
      → (Wait → ℤ → ℤ → ℤ → ℕ → ℕ → ℕ → LatencyResult × D)
      → List Output
  unfolding arg_value arg_int detect_cpu_config print_cpu_config_banner measure_clock_overhead
      num_online_cpus pick_core_layout csv_writer line emit_row print_verdict
  main args machine clocks run_latency =
      let out = arg_value args (codes "--csv") (codes "latency.csv") in
      let measure_msgs = arg_int args (codes "--samples") (pos 200000) in
      let warmup_msgs = arg_int args (codes "--warmup") (pos 20000) in
      let gap_ns = arg_int args (codes "--gap_ns") (pos 2000) in
      let cfg = cpu_config_of machine in
      let overhead = measure_clock_overhead clocks in
      let clock_oh = f.from_int (pos overhead) in
      let ncpu = num_online_cpus machine.processors in
      let layout = pick_core_layout ncpu in
      let csv = csv_writer machine.opens out in
      let run = λ (wait : Wait).
        run_latency wait measure_msgs warmup_msgs gap_ns overhead layout.producer_cpu
          layout.first_consumer_cpu in
      let emit = λ (strat : Text) (result : LatencyResult × D).
        emit_row csv strat result.0 (f.fixed 1 clock_oh) (f.fixed 1 result.1) cfg in
      print_cpu_config_banner cfg
      ++ (overhead_line clock_oh ∷ pinning_line layout ncpu measure_msgs warmup_msgs gap_ns ∷ [])
      ++ line csv header
      ++ (emit (codes "Spin") (run spin)
          ++ emit (codes "SpinThenYield") (run (spin_then_yield 1024))
          ++ emit (codes "Futex") (run futex))
      ++ verdicts (run spin).0 (run (spin_then_yield 1024)).0 (run futex).0 cfg.noisy out
