-- ===== src/Bench/Smoke.antt =====
-- The bodies of bench/smoke_bench.cpp.
use shimmy.Common.{ℕ, zero, suc, ◌+◌, ◌%◌, ◌≤◌, List, [], ◌∷◌, Option, none, some, arith}
use shimmy.Bench.Timing.{Hdr}
use shimmy.Version.{version_number}

-- `BM_VersionNumberPack`: what its iterations load.
abbrev loaded_versions : ℕ → List ℕ
loaded_versions zero = []
loaded_versions (suc n) = version_number ∷ loaded_versions n

-- `value` in the iterations of `BM_HdrHistogramRecord`.
unfoldable recorded_values : ℕ → ℕ → List ℕ
recorded_values zero value = []
recorded_values (suc n) value = value ∷ recorded_values n (value % 100000 + 1)

module _ {H P : Type 0} (hdr : Hdr H P) where
  abbrev record_all : List ℕ → H → H
  record_all [] h = h
  record_all (v ∷ values) h = record_all values (hdr.hdr_record_value h v)

  -- `BM_HdrHistogramRecord`: the percentile at the end, nothing if `hdr_init` fails.
  unfoldable record_histogram : ℕ → P → Option ℕ
  unfolding recorded_values
  record_histogram iterations percentile = elim (hdr.hdr_init 1 1000000000 3) [
    | none ↦ none
    | some h ↦
        some (hdr.hdr_value_at_percentile (record_all (recorded_values iterations 1) h) percentile)
  ]

-- Values from 1 to 100000, which the range of the histogram holds.
abbrev IsRecordable : List ℕ → Type 0
IsRecordable [] = Unit {0}
IsRecordable (v ∷ values) = (1 ≤ v) × (v ≤ 100000) × IsRecordable values

-- All values that the benchmark records lie in the range that it gives to the histogram.
recorded_values-IsRecordable :
    (n value : ℕ) → 1 ≤ value → value ≤ 100000 → IsRecordable (recorded_values n value)
unfolding recorded_values
recorded_values-IsRecordable zero value low high = tt
recorded_values-IsRecordable (suc n) value low high =
    (low, high, recorded_values-IsRecordable n (value % 100000 + 1) (omega arith) (omega arith))
