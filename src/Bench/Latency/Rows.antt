-- ===== src/Bench/Latency/Rows.antt =====
-- The CSV rows of bench/latency_bench.cpp.
use shimmy.Common.{◌<◌, ◌^◌, ◌≡◌, refl, List, [], ◌∷◌}
use shimmy.Bench.Options.{Text, codes}
use shimmy.Bench.Cpu.{CpuConfig, turbo_str}
use shimmy.Bench.Report.{decimal, signed, flag}
use shimmy.Bench.Report.Columns.{IsInt64, joined}
use shimmy.Bench.Latency.{LatencyResult}
use shimmy.Bench.Latency.Report.{row}

-- The cells behind the first.
abbrev pub fields : Text → LatencyResult → Text → Text → CpuConfig → List Text
fields strat r clock_oh mean cfg =
    strat
    ∷ decimal 64
    ∷ decimal r.samples
    ∷ clock_oh
    ∷ signed r.p50
    ∷ signed r.p90
    ∷ signed r.p99
    ∷ signed r.p999
    ∷ signed r.p9999
    ∷ signed r.lo
    ∷ signed r.hi
    ∷ mean
    ∷ cfg.governor
    ∷ turbo_str cfg
    ∷ flag cfg.noisy
    ∷ []

row-joined :
    (strat : Text) (r : LatencyResult) (clock_oh mean : Text) (cfg : CpuConfig)
    → row strat r clock_oh mean cfg ≡ joined (codes "latency") (fields strat r clock_oh mean cfg)
row-joined strat r clock_oh mean cfg = refl

-- The fields of a result are `int64_t`.
pub record IsReportable (r : LatencyResult) : Type 0 where
  pub samples : r.samples < 2 ^ 63
  pub p50 : IsInt64 r.p50
  pub p90 : IsInt64 r.p90
  pub p99 : IsInt64 r.p99
  pub p999 : IsInt64 r.p999
  pub p9999 : IsInt64 r.p9999
  pub lo : IsInt64 r.lo
  pub hi : IsInt64 r.hi
