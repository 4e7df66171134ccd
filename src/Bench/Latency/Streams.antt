-- ===== src/Bench/Latency/Streams.antt =====
-- What bench/latency_bench.cpp writes to its CSV file and to the standard output.
use shimmy.Common.{ℕ, refl, List, [], ◌∷◌, Bool, true, false, ℤ, pos}
use shimmy.Config.{Wait, spin, spin_then_yield, futex}
use shimmy.Bench.Options.{Text, codes, arg_value, arg_int}
use shimmy.Bench.Cpu.{CpuConfig, pick_core_layout, num_online_cpus}
use shimmy.Bench.Timing.{measure_clock_overhead}
use shimmy.Bench.Report.{snprintf, Doubles, Machine, cpu_config_of, CsvWriter, csv_writer}
use shimmy.Bench.Report.Streams.{
  Writes, Writes-append, Writes-line, Writes-nothing, Writes-banner, Writes-program,
}
use shimmy.Bench.Latency.{LatencyResult}
use shimmy.Bench.Latency.Report.{row, emit_row, header, print_verdict, main, verdicts}

module _ {D : Type 0} (f : Doubles D) where
  -- What `snprintf` leaves of the line of a strategy.
  abbrev pub printed_row : Text → ℕ → CpuConfig → LatencyResult × D → Text
  printed_row strat overhead cfg result =
      snprintf 512
        (row strat result.0 (f.fixed 1 (f.from_int (pos overhead))) (f.fixed 1 result.1) cfg)

  emit_row-Writes :
      {csv : CsvWriter} (strat : Text) (overhead : ℕ) (cfg : CpuConfig) (result : LatencyResult × D)
      → Writes csv
          (emit_row csv strat result.0
            (f.fixed 1 (f.from_int (pos overhead)))
            (f.fixed 1 result.1)
            cfg)
          (printed_row strat overhead cfg result ∷ [])
  unfolding emit_row
  emit_row-Writes strat overhead cfg result = Writes-line (printed_row strat overhead cfg result)

  verdicts-Writes :
      {csv : CsvWriter} (a b d : LatencyResult) (noisy : Bool) (out : Text)
      → Writes csv (verdicts f a b d noisy out) []
  unfolding print_verdict
  verdicts-Writes a b d true out = Writes-nothing _ refl refl
  verdicts-Writes a b d false out = Writes-nothing _ refl refl

  -- The program prints its header and one row for each wait strategy to the standard output, and the
  -- same lines to the CSV file if it is open.
  pub main-Writes :
      (args : List Text) (machine : Machine) (clocks : List (ℕ × ℕ))
      (run_latency : Wait → ℤ → ℤ → ℤ → ℕ → ℕ → ℕ → LatencyResult × D)
      → let cfg = cpu_config_of machine in
        let overhead = measure_clock_overhead clocks in
        let layout = pick_core_layout (num_online_cpus machine.processors) in
        let run = λ (wait : Wait).
          run_latency wait
            (arg_int args (codes "--samples") (pos 200000))
            (arg_int args (codes "--warmup") (pos 20000))
            (arg_int args (codes "--gap_ns") (pos 2000))
            overhead
            layout.producer_cpu
            layout.first_consumer_cpu in
        Writes
          (csv_writer machine.opens (arg_value args (codes "--csv") (codes "latency.csv")))
          (main f args machine clocks run_latency)
          (header
            ∷ printed_row (codes "Spin") overhead cfg (run spin)
            ∷ printed_row (codes "SpinThenYield") overhead cfg (run (spin_then_yield 1024))
            ∷ printed_row (codes "Futex") overhead cfg (run futex)
            ∷ [])
  unfolding main
  main-Writes args machine clocks run_latency =
      let cfg = cpu_config_of machine in
      let overhead = measure_clock_overhead clocks in
      let layout = pick_core_layout (num_online_cpus machine.processors) in
      let run : Wait → LatencyResult × D = λ wait.
        run_latency wait (arg_int args (codes "--samples") (pos 200000))
          (arg_int args (codes "--warmup") (pos 20000)) (arg_int args (codes "--gap_ns") (pos 2000))
          overhead layout.producer_cpu layout.first_consumer_cpu in
      Writes-program (Writes-banner cfg) (Writes-nothing (_ ∷ _ ∷ []) refl refl)
        (Writes-line header)
        (Writes-append
          (Writes-append (emit_row-Writes (codes "Spin") overhead cfg (run spin))
            (emit_row-Writes (codes "SpinThenYield") overhead cfg (run (spin_then_yield 1024))))
          (emit_row-Writes (codes "Futex") overhead cfg (run futex)))
        (verdicts-Writes (run spin).0 (run (spin_then_yield 1024)).0 (run futex).0 cfg.noisy
          (arg_value args (codes "--csv") (codes "latency.csv")))
