-- ===== src/Bench/ReportTests.antt =====
-- A row of bench/latency_bench.cpp, and a run of bench/throughput_bench.cpp on a machine with three processors.
use shimmy.Common.{[], ◌∷◌, map, none, false, ℤ, pos, true}
use shimmy.Bench.Options.{codes, arg_value, arg_int}
use shimmy.Bench.Throughput.{sweep, consumer_counts}
use shimmy.Bench.Cpu.{CpuConfig, pick_core_layout, num_online_cpus}
use shimmy.Bench.Report.{signed, Doubles, Machine, cpu_config_of, csv_writer}
use shimmy.Bench.Report.Streams.{Writes}
use shimmy.Bench.Latency.{LatencyResult}
use shimmy.Bench.Latency.Report.{header}
use shimmy.Bench.Throughput.Report.{header as throughput_header, main, as_int, cell_for}
use shimmy.Bench.Throughput.Rows.{printed_row, main-Writes}

-- A row of the latency program.
abbrev measured : LatencyResult
measured = record {
  p50 = pos 120;
  p90 = pos 150;
  p99 = pos 180;
  p999 = pos 400;
  p9999 = pos 9000;
  lo = pos 90;
  hi = pos 12000;
  samples = 200000;
}

abbrev governed : CpuConfig
governed = record {
  governor = codes "powersave";
  turbo_known = false;
  turbo_enabled = false;
  noisy = true;
  note = [];
}

-- Whole numbers in place of doubles.
abbrev whole : Doubles ℤ
whole = record {
  from_int = λ v. v;
  over = λ a b. a;
  times = λ a b. a;
  is_above = λ a b. true;
  is_at_least = λ a b. true;
  fixed = λ n v. signed v;
}

-- Three processors.
abbrev small_machine : Machine
small_machine = record {
  governor = none;
  no_turbo = none;
  boost = none;
  processors = pos 3;
  opens = λ path. true;
}

-- `--messages=5`: one consumer at most.
main-Writes_example :
    Writes
      (csv_writer
        (λ path. true)
        (arg_value (codes "--messages=5" ∷ []) (codes "--csv") (codes "throughput.csv")))
      (main whole (codes "--messages=5" ∷ []) small_machine (λ size cc n. (0, 7)))
      (throughput_header
        ∷ map (printed_row whole (cpu_config_of small_machine)) (
            sweep
              (cell_for
                (λ size cc n. (0, 7))
                (arg_int (codes "--messages=5" ∷ []) (codes "--messages") (pos 20000000))
                (as_int (arg_int (codes "--messages=5" ∷ []) (codes "--reps") (pos 3))))
              (pick_core_layout (num_online_cpus (pos 3))).first_consumer_cpu
              (num_online_cpus (pos 3))
              consumer_counts))
main-Writes_example =
    main-Writes whole (codes "--messages=5" ∷ []) small_machine (λ size cc n. (0, 7))
