-- ===== src/Bench/Tests.antt =====
-- A run of bench/latency_bench.cpp with one message of warmup and one that is measured.
use shimmy.Common.{
  ℕ, zero, suc, ◌^◌, ◌≤◌, ◌<◌, ◌≡◌, refl, List, [], ◌∷◌, ◌++◌, some, arith, length, get_elem?, map,
  pos, negsuc, true,
}
use shimmy.Ring.{Ring, init, write_slot}
use shimmy.Ring.Publish.{Logs, init-Logs, write_slot-Logs}
use shimmy.Ring.Tests.{zeroed, lossy, lossy-IsRingConfig, lossless, lossless-IsRingConfig}
use shimmy.Consumer.{attach}
use shimmy.Bench.Options.{Text, codes, arg_value, arg_int}
use shimmy.Bench.Cpu.{detect_cpu_config, turbo_str, read_first_line}
use shimmy.Bench.Throughput.{drain, repetition, run_cell, sweep, consumer_counts}
use shimmy.Bench.Throughput.Drained.{copies, publish_times-Logs, run_cell-repetition}
use shimmy.Bench.Timing.{max_i64, measure_clock_overhead, IsLeast, Hdr}
use shimmy.Bench.Latency.{message, Visit, Meter, run_consumer}
use shimmy.Bench.Latency.Visits.{Served}
use shimmy.Bench.Latency.Recorded.{some_number}
use shimmy.Bench.Latency.Samples.{kept_samples, run_consumer-samples}

-- A histogram that keeps the values themselves, newest first.
abbrev plain : Hdr (List ℕ) ℕ
plain = record {
  hdr_init = λ low high sig. some [];
  hdr_record_value = λ h v. v ∷ h;
  hdr_value_at_percentile = λ h p. 0;
  hdr_min = λ h. 0;
  hdr_max = λ h. 0;
  total_count = length;
}

abbrev sends : List ℕ
sends = 5 ∷ 9 ∷ []

abbrev one_more : Ring → ℕ → List ℕ → Ring
one_more r seq bytes = write_slot lossless r seq bytes 64

abbrev both : Ring
both = one_more (one_more (init lossless zeroed) 0 (message 5)) 1 (message 9)

both-Logs : Logs lossless (map message sends) both
both-Logs =
    let one =
      write_slot-Logs {c = lossless} {log = []} (omega arith) (init lossless zeroed) (message 5) 64
        (init-Logs zeroed lossless-IsRingConfig).slots (omega arith) in
    write_slot-Logs (omega arith) _ (message 9) 64 one.slots (omega arith)

abbrev at_time : ℕ → Visit
at_time t = record { rounds = 1; rings = λ q. both; recv = t; checked = both }

at_time-Served : (n t : ℕ) → n < 2 → Served lossless (map message sends) n (at_time t)
at_time-Served n t lt = record {
  known = λ q. 2;
  at_rest = λ q. both-Logs;
  near = λ q. omega arith;
  in_time = (0, omega arith, lt);
  known_last = 2;
  at_rest_last = both-Logs;
  near_last = omega arith;
  in_time_last = lt;
}

sends-small : (i send : ℕ) → get_elem? sends i ≡ some send → send < 2 ^ 63
sends-small zero send e = let is : 5 ≡ send = some_number e in omega (arith, is)
sends-small (suc zero) send e = let is : 9 ≡ send = some_number e in omega (arith, is)
sends-small (suc (suc i)) send e = absurd (cc)

-- The message sent at 9 and received at 30, with a clock that takes 1, is recorded as 20.
run_consumer-samples_example :
    (m : Meter (List ℕ)) × (run_consumer plain lossless 2 1 1
        (init lossless zeroed)
        (at_time 8 ∷ at_time 30 ∷ [])
      ≡ some m)
    × (m.seen ≡ 2)
    × (length (kept_samples 1 1 (at_time 8 ∷ at_time 30 ∷ []) sends) ≡ 1)
    × (m.hist ≡ some (20 ∷ []))
run_consumer-samples_example =
    run_consumer-samples plain lossless-IsRingConfig 1 1 1 (init lossless zeroed)
      (at_time 8 ∷ at_time 30 ∷ []) sends (omega arith) refl refl sends-small
      (at_time-Served 0 8 (omega arith), (at_time-Served 1 30 (omega arith), tt))

abbrev filled : List ℕ
filled = 51 ∷ 51 ∷ []

abbrev drained : Ring
drained = repetition lossy 1 1 filled zeroed

drained-Logs : Logs lossy (copies 2 filled) drained
drained-Logs =
    let warm =
      publish_times-Logs {c = lossy} refl filled (omega arith) 1 [] (init lossy zeroed)
        (omega arith) (init-Logs zeroed lossy-IsRingConfig) in
    publish_times-Logs refl filled (omega arith) 1 (filled ∷ []) _ (omega arith) warm

-- Two repetitions, of 5 and of 2 nanoseconds.
run_cell-repetition_example :
    Logs lossy (copies 2 filled) drained
    × ((drain lossy ((drained, 2) ∷ []) (attach lossy (init lossy zeroed)).0 0).1 ≤ 2)
    × IsLeast max_i64 ((3, 8) ∷ (8, 10) ∷ []) 2
unfolding run_cell
run_cell-repetition_example =
    run_cell-repetition lossy-IsRingConfig refl filled (omega arith) 1 1 (omega arith) 1
      ((3, 8) ∷ (8, 10) ∷ []) zeroed ((drained, 2) ∷ [])
      ((2, drained-Logs, omega arith), omega arith, tt)

-- The first argument with the flag counts, and a number ends at the first byte that is no digit.
abbrev arguments : List Text
arguments = codes "--warmup=-12x" ∷ codes "--csv=a" ∷ codes "--csv=b" ∷ []

arg_value_first : arg_value arguments (codes "--csv") (codes "x") ≡ codes "a"
unfolding arg_value
arg_value_first = refl

arg_value_missing : arg_value arguments (codes "--reps") (codes "x") ≡ codes "x"
unfolding arg_value
arg_value_missing = refl

arg_int_sign : arg_int arguments (codes "--warmup") (pos 3) ≡ negsuc 11
unfolding arg_int
arg_int_sign = refl

arg_int_missing : arg_int arguments (codes "--reps") (pos 3) ≡ pos 3
unfolding arg_int
arg_int_missing = refl

-- A governor that is not `performance` is noisy, and so is one with the boost on.
detect_powersave : (detect_cpu_config (codes "powersave") [] []).noisy ≡ true
unfolding detect_cpu_config
detect_powersave = refl

detect_boost : (detect_cpu_config (codes "performance") [] (codes "1")).noisy ≡ true
unfolding detect_cpu_config
detect_boost = refl

detect_clean :
    turbo_str (detect_cpu_config (codes "performance") (codes "1") (codes "1")) ≡ codes "off"
unfolding detect_cpu_config turbo_str
detect_clean = refl

read_first_line_end :
    read_first_line (some (some (codes "schedutil" ++ (32 ∷ 10 ∷ [])))) ≡ codes "schedutil"
unfolding read_first_line
read_first_line_end = refl

-- With four cores the sweep leaves out four consumers.
sweep_four :
    map
      (λ cell. cell.consumers)
      (sweep (λ size cc. run_cell size cc (pos 1) []) 2 4 consumer_counts)
    ≡ 0 ∷ 0 ∷ 0 ∷ 0 ∷ 1 ∷ 1 ∷ 1 ∷ 1 ∷ 2 ∷ 2 ∷ 2 ∷ 2 ∷ []
unfolding sweep run_cell
sweep_four = refl

overhead : measure_clock_overhead ((7, 7) ∷ (8, 31) ∷ (31, 50) ∷ []) ≡ 19
unfolding measure_clock_overhead
overhead = refl
