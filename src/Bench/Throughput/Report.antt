-- ===== src/Bench/Throughput/Report.antt =====
-- What bench/throughput_bench.cpp prints: its CSV rows and its `main`. The clock readings of each cell
-- are an argument, and so is the type `double`.
use shimmy.Common.{
  ℕ, zero, suc, ◌+◌, ◌-◌, ◌%◌, ◌^◌, List, [], ◌∷◌, ◌++◌, Bool, ◌&&◌, ◌==◌, ltb, if◌then◌else◌, ℤ,
  pos, negsuc,
}
use shimmy.Bench.Options.{Text, codes, arg_value, arg_int}
use shimmy.Bench.Cpu.{
  CpuConfig, CoreLayout, pick_core_layout, num_online_cpus, detect_cpu_config, turbo_str, em_dash,
}
use shimmy.Bench.Report.{
  decimal, signed, snprintf, printed, newline, comma, flag, Doubles, Output, to_stderr, Machine,
  cpu_config_of, CsvWriter, csv_writer, line, print_cpu_config_banner,
}
use shimmy.Bench.Throughput.{Cell, run_cell, consumer_counts}

abbrev pub header : Text
header =
    codes
      "kind,policy,wait_strategy,block_size,consumers,messages,elapsed_ns,throughput_msgs_per_sec,throughput_mib_per_sec,governor,turbo,noisy"

-- `static_cast<int>`
abbrev pub as_int : ℤ → ℤ
as_int (pos v) =
    let low = v % 2 ^ 32 in if ltb low (2 ^ 31) then pos low else negsuc (2 ^ 32 - 1 - low)
as_int (negsuc v) =
    let low = v % 2 ^ 32 in if ltb low (2 ^ 31) then negsuc low else pos (2 ^ 32 - 1 - low)

-- The turns of `for (int rep = 0; rep < reps; ++rep)`, and what the clock says around each.
abbrev pub turns : ℤ → ℕ
turns (pos n) = n
turns (negsuc n) = 0

abbrev pub readings : (ℕ → ℕ × ℕ) → ℕ → List (ℕ × ℕ)
readings clock zero = []
readings clock (suc n) = readings clock n ++ (clock n ∷ [])

-- The cell of a size and a count of consumers, by the readings of the clock in its repetitions.
abbrev pub cell_for : (ℕ → ℕ → ℕ → ℕ × ℕ) → ℤ → ℤ → ℕ → ℕ → Cell
cell_for clock messages reps size cc =
    run_cell size cc messages (readings (clock size cc) (turns reps))

module _ {D : Type 0} (f : Doubles D) where
  -- `best_elapsed / 1e9`
  abbrev secs : Cell → D
  secs c = f.over (f.from_int (pos c.best_elapsed_ns)) (f.from_int (pos (10 ^ 9)))

  abbrev if_above_zero : D → D → D
  if_above_zero s rate = if f.is_above s (f.from_int (pos 0)) then rate else f.from_int (pos 0)

  abbrev pub msgs_per_sec : Cell → D
  msgs_per_sec c = if_above_zero (secs c) (f.over (f.from_int c.messages) (secs c))

  abbrev pub mib_per_sec : Cell → D
  mib_per_sec c =
      let bytes = f.times (f.from_int c.messages) (f.from_int (pos c.block_size)) in
      if_above_zero (secs c)
        (f.over (f.over bytes (secs c)) (f.times (f.from_int (pos 1024)) (f.from_int (pos 1024))))

  -- The line that `emit` formats.
  abbrev pub row : Cell → CpuConfig → Text
  row c cfg = printed (
      codes "throughput,Overwrite,Spin,"
      ∷ decimal c.block_size
      ∷ comma
      ∷ decimal c.consumers
      ∷ comma
      ∷ signed c.messages
      ∷ comma
      ∷ decimal c.best_elapsed_ns
      ∷ comma
      ∷ f.fixed 1 (msgs_per_sec c)
      ∷ comma
      ∷ f.fixed 1 (mib_per_sec c)
      ∷ comma
      ∷ cfg.governor
      ∷ comma
      ∷ turbo_str cfg
      ∷ comma
      ∷ flag cfg.noisy
      ∷ [])

  unfoldable pub emit : CsvWriter → Cell → CpuConfig → List Output
  unfolding line turbo_str
  emit csv c cfg = line csv (snprintf 512 (row c cfg))

  abbrev skip_line : ℕ → ℕ → ℕ → Output
  skip_line first_consumer_cpu ncpu cc = to_stderr (
      printed (
        codes "# skipping consumers="
        ∷ decimal cc
        ∷ codes " (not enough cores: need "
        ∷ decimal (first_consumer_cpu + cc)
        ∷ codes ", have "
        ∷ decimal ncpu
        ∷ codes ")"
        ∷ newline
        ∷ []))

  -- The loop over the counts of consumers; the number is `headline_64_1c`.
  unfoldable pub sweep_lines :
      CsvWriter → CpuConfig → (ℕ → ℕ → Cell) → ℕ → ℕ → List ℕ → D → List Output × D
  unfolding emit
  sweep_lines csv cfg cell first_consumer_cpu ncpu [] headline = ([], headline)
  sweep_lines csv cfg cell first_consumer_cpu ncpu (cc ∷ counts) headline =
      let rest = sweep_lines csv cfg cell first_consumer_cpu ncpu counts in
      if ltb 0 cc && ltb ncpu (first_consumer_cpu + cc)
      then (skip_line first_consumer_cpu ncpu cc ∷ (rest headline).0, (rest headline).1)
      else let headline' = if cc == 1 then msgs_per_sec (cell 64 cc) else headline in
        (
          emit csv (cell 64 cc) cfg
              ++ emit csv (cell 256 cc) cfg
              ++ emit csv (cell 1024 cc) cfg
              ++ emit csv (cell 4096 cc) cfg
              ++ (rest headline').0,
          (rest headline').1,
        )

  abbrev setting_line : CoreLayout → ℕ → ℤ → ℤ → ℤ → Output
  setting_line layout ncpu messages warmup reps = to_stderr (
      printed (
        codes "# throughput: producer=cpu"
        ∷ decimal layout.producer_cpu
        ∷ codes " consumers from cpu"
        ∷ decimal layout.first_consumer_cpu
        ∷ codes " ("
        ∷ decimal ncpu
        ∷ codes " online), messages="
        ∷ signed messages
        ∷ codes "/cell warmup="
        ∷ signed warmup
        ∷ codes " reps="
        ∷ signed reps
        ∷ codes ", policy=Overwrite"
        ∷ newline
        ∷ []))

  abbrev headline_line : D → Output
  headline_line headline = to_stderr (
      printed (
        codes "#"
        ∷ newline
        ∷ codes "# headline @64B (1 consumer): "
        ∷ f.fixed 2 (f.over headline (f.from_int (pos (10 ^ 6))))
        ∷ codes " M msgs/sec  (target >=10M) -> "
        ∷ (if f.is_at_least headline (f.from_int (pos (10 ^ 7)))
            then codes "MET"
            else codes "MISSED")
        ∷ newline
        ∷ []))

  abbrev pub closing : D → Bool → Text → List Output
  closing headline noisy out =
      headline_line headline
      ∷ ((if noisy
            then to_stderr (
                printed (
                  codes "# (CPU config is NOISY "
                  ∷ em_dash
                  ∷ codes " number is real but indicative.)"
                  ∷ newline
                  ∷ []))
              ∷ []
            else [])
          ++ (to_stderr (printed (codes "# throughput CSV written to " ∷ out ∷ newline ∷ [])) ∷ []))

  -- `main`, on the arguments behind the program's name.
  unfoldable pub main : List Text → Machine → (ℕ → ℕ → ℕ → ℕ × ℕ) → List Output
  unfolding arg_value arg_int detect_cpu_config print_cpu_config_banner num_online_cpus
      pick_core_layout csv_writer line sweep_lines run_cell
  main args machine clock =
      let out = arg_value args (codes "--csv") (codes "throughput.csv") in
      let messages = arg_int args (codes "--messages") (pos 20000000) in
      let warmup = arg_int args (codes "--warmup") (pos 100000) in
      let reps = as_int (arg_int args (codes "--reps") (pos 3)) in
      let cfg = cpu_config_of machine in
      let ncpu = num_online_cpus machine.processors in
      let layout = pick_core_layout ncpu in
      let csv = csv_writer machine.opens out in
      let (rows, headline) =
        sweep_lines csv cfg (cell_for clock messages reps) layout.first_consumer_cpu ncpu
          consumer_counts (f.from_int (pos 0)) in
      print_cpu_config_banner cfg
      ++ (setting_line layout ncpu messages warmup reps ∷ [])
      ++ line csv header
      ++ rows
      ++ closing headline cfg.noisy out
