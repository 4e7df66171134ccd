-- ===== src/Bench/Throughput/Rows.antt =====
-- What bench/throughput_bench.cpp writes to its CSV file and to the standard output.
use shimmy.Common.{
  ℕ, ◌+◌, refl, inl, inr, List, [], ◌∷◌, Bool, ◌&&◌, ltb, Bool-cases, true, false, map, pos,
}
use shimmy.Bench.Options.{Text, codes, arg_value, arg_int}
use shimmy.Bench.Cpu.{CpuConfig, pick_core_layout, num_online_cpus}
use shimmy.Bench.Report.{snprintf, Doubles, Machine, cpu_config_of, CsvWriter, csv_writer}
use shimmy.Bench.Report.Streams.{
  Writes, Writes-append, Writes-line, Writes-nothing, Writes-banner, Writes-program,
}
use shimmy.Bench.Throughput.{Cell, sweep, consumer_counts}
use shimmy.Bench.Throughput.Report.{row, emit, sweep_lines, header, as_int, cell_for, main, closing}

module _ {D : Type 0} (f : Doubles D) where
  -- What `snprintf` leaves of a cell's line.
  abbrev pub printed_row : CpuConfig → Cell → Text
  printed_row cfg c = snprintf 512 (row f c cfg)

  module _ {csv : CsvWriter} (cfg : CpuConfig) (cell : ℕ → ℕ → Cell)
      (first_consumer_cpu ncpu : ℕ) where
    emit-Writes : (c : Cell) → Writes csv (emit f csv c cfg) (printed_row cfg c ∷ [])
    unfolding emit
    emit-Writes c = Writes-line (printed_row cfg c)

    -- The rows are those of the cells of the sweep.
    sweep_lines-Writes :
        (counts : List ℕ) (headline : D)
        → Writes csv
            (sweep_lines f csv cfg cell first_consumer_cpu ncpu counts headline).0
            (map (printed_row cfg) (sweep cell first_consumer_cpu ncpu counts))
    unfolding sweep_lines sweep
    sweep_lines-Writes [] headline = Writes-nothing [] refl refl
    sweep_lines-Writes (cc ∷ counts) headline =
        let rest = sweep_lines-Writes counts in
        elim (Bool-cases (ltb 0 cc && ltb ncpu (first_consumer_cpu + cc))) [
          | inl skipped ↦
              rw skipped (Writes-append (Writes-nothing (_ ∷ []) refl refl) (rest headline))
          | inr run ↦ rw run (
              Writes-append
                (Writes-append
                  (Writes-append
                    (Writes-append (emit-Writes (cell 64 cc)) (emit-Writes (cell 256 cc)))
                    (emit-Writes (cell 1024 cc)))
                  (emit-Writes (cell 4096 cc)))
                (rest _))
        ]

  closing-Writes :
      {csv : CsvWriter} (headline : D) (noisy : Bool) (out : Text)
      → Writes csv (closing f headline noisy out) []
  closing-Writes headline true out = Writes-nothing _ refl refl
  closing-Writes headline false out = Writes-nothing _ refl refl

  -- For every command line, machine and course of the clock, `main` of the throughput program
  -- writes to the standard output the header and then one row, as `snprintf` leaves it, for each
  -- cell of the sweep, in the order of the sweep, and nothing else; and if the CSV file is open,
  -- the same lines to it.
  pub main-Writes :
      (args : List Text) (machine : Machine) (clock : ℕ → ℕ → ℕ → ℕ × ℕ)
      → let out = arg_value args (codes "--csv") (codes "throughput.csv") in
        let messages = arg_int args (codes "--messages") (pos 20000000) in
        let reps = as_int (arg_int args (codes "--reps") (pos 3)) in
        let ncpu = num_online_cpus machine.processors in
        Writes (csv_writer machine.opens out) (main f args machine clock) (
          header
          ∷ map (printed_row (cpu_config_of machine)) (
              sweep
                (cell_for clock messages reps)
                (pick_core_layout ncpu).first_consumer_cpu
                ncpu
                consumer_counts))
  unfolding main
  main-Writes args machine clock =
      let cfg = cpu_config_of machine in
      Writes-program (Writes-banner cfg) (Writes-nothing (_ ∷ []) refl refl) (Writes-line header)
        (sweep_lines-Writes cfg _ _ _ consumer_counts _) (closing-Writes _ cfg.noisy _)
