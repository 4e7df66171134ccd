-- ===== src/Bench/Latency.antt =====
-- The run of bench/latency_bench.cpp: the messages that carry their own send time, and the consumer
-- that measures them.
pub mod Stamps
pub mod Visits
pub mod Recorded
pub mod Samples
pub mod Sending
pub mod Report
pub mod Rows
pub mod Streams
use shimmy.Common.{
  ℕ, zero, suc, ◌+◌, ◌-◌, ◌*◌, ◌/◌, ◌%◌, ◌^◌, Bool, true, ◌==◌, List, [], ◌∷◌, ◌++◌, Option, none,
  some, ltb, leb, if◌then◌else◌, take, ℤ, pos, negsuc, minus,
}
use shimmy.Config.{Config}
use shimmy.Ring.{Ring, Cursor, Outcome, stalled, out_of_bounds, published, publish}
use shimmy.Consumer.{Consumer, Status, ok, empty, lapped, attach, validate, commit}
use shimmy.WaitStrategy.{Blocked, read_blocking}
use shimmy.Bench.Timing.{
  Hdr, histogram, hist_max_ns, record_value, value_at, least, greatest, count,
}

-- The first `n` bytes of a number, lowest first, as `memcpy` takes them on x86-64; and back.
abbrev pub int64_bytes : ℕ → ℕ → List ℕ
int64_bytes zero v = []
int64_bytes (suc n) v = v % 256 ∷ int64_bytes n (v / 256)

abbrev pub bytes_value : List ℕ → ℕ
bytes_value [] = 0
bytes_value (b ∷ bytes) = b + 256 * bytes_value bytes

abbrev pub as_int64 : ℕ → ℤ
as_int64 v = if ltb v (2 ^ 63) then pos v else negsuc (2 ^ 64 - 1 - v)

abbrev pub filler : ℕ → List ℕ
filler zero = []
filler (suc n) = 90 ∷ filler n

-- `msg` as the producer publishes it: kBlock bytes 0x5A, the send time over the first eight.
abbrev pub message : ℕ → List ℕ
message send = int64_bytes 8 send ++ filler 56

abbrev pub send_time : List ℕ → ℤ
send_time view = as_int64 (bytes_value (take 8 view))

-- `recv - send - oh`
unfoldable pub latency : ℕ → ℤ → ℕ → ℤ
latency recv (pos send) oh = minus recv (send + oh)
latency recv (negsuc send) oh = minus (recv + send + 1) oh

-- What the consumer finds in one turn of its loop: the ring in the rounds of `read_blocking`, at most
-- `rounds` of them, the clock after it, and the ring at `validate` and `commit`.
pub record Visit : Type 0 where
  pub rounds : ℕ
  pub rings : ℕ → Ring
  pub recv : ℕ
  pub checked : Ring

-- The consumer's variables, and the ring that its last store left.
pub record Meter (H : Type 0) : Type 0 where
  pub seen : ℕ
  pub consumer : Consumer
  pub hist : Option H
  pub ring : Ring

module _ {H P : Type 0} (hdr : Hdr H P) (c : Config) (total warmup oh : ℕ) where
  -- `c.commit()`
  abbrev pub committed : Visit → Consumer → Meter H → Meter H
  committed v k m = let (k', r) = commit c v.checked k in record m { consumer = k'; ring = r }

  -- A validated message is committed, recorded after the warmup, and counted.
  abbrev pub accept : Visit → List ℕ → Consumer → Meter H → Meter H
  accept v view k m =
      let late = record_value hdr m.hist (latency v.recv (send_time view) oh) in
      record (committed v k m) {
        seen = m.seen + 1;
        hist = if leb warmup m.seen then late else m.hist;
      }

  -- A turn of the loop behind its read, by `status()`.
  unfoldable pub turn : Status → Visit → List ℕ → Consumer → Meter H → Meter H
  unfolding validate commit latency record_value
  turn ok v view k m =
      if validate c v.checked k
      then accept v view k m
      else record m { consumer = k; ring = v.checked }
  turn empty v view k m = committed v k m
  turn lapped v view k m = committed v k m

  -- `none` if `read_blocking` is still waiting.
  abbrev pub turn_after : Visit → Meter H → Blocked → Option (Meter H)
  turn_after v m none = none
  turn_after v m (some (view, k, pauses)) = some (turn k.last_status v view k m)

  abbrev pub visit : Visit → Meter H → Option (Meter H)
  visit v m = turn_after v m (read_blocking c v.rounds v.rings m.consumer)

  -- `while (seen < total)`, in the turns that it finds `visits` in.
  unfoldable pub run : List Visit → Meter H → Option (Meter H)
  unfolding turn read_blocking
  run [] m = some m
  run (v ∷ visits) m =
      if ltb m.seen total
      then elim (visit v m) [ none ↦ none | some m' ↦ run visits m' ]
      else some m

  -- The consumer's thread, from its construction on.
  unfoldable pub run_consumer : Ring → List Visit → Option (Meter H)
  unfolding attach run
  run_consumer r visits =
      let (k, r') = attach c r in
      run visits (record { seen = 0; consumer = k; hist = histogram hdr hist_max_ns 3; ring = r' })

-- The percentiles are the constants of the program; the mean, a `double`, is left out.
pub record LatencyResult : Type 0 where
  pub p50 : ℤ
  pub p90 : ℤ
  pub p99 : ℤ
  pub p999 : ℤ
  pub p9999 : ℤ
  pub lo : ℤ
  pub hi : ℤ
  pub samples : ℕ

unfoldable summary : {H P : Type 0} → Hdr H P → (P × P × P × P × P) → Option H → LatencyResult
unfolding value_at least greatest count
summary hdr (half, tenth, hundredth, thousandth, last) hist = record {
  p50 = value_at hdr hist half;
  p90 = value_at hdr hist tenth;
  p99 = value_at hdr hist hundredth;
  p999 = value_at hdr hist thousandth;
  p9999 = value_at hdr hist last;
  lo = least hdr hist;
  hi = greatest hdr hist;
  samples = count hdr hist;
}

-- What the producer finds in one turn of its loop: the clock in the pacing loop, then the send time,
-- and how the cursors go on while `publish` waits, for at most `rounds` rounds.
pub record Tick : Type 0 where
  pub paces : List ℕ
  pub send : ℕ
  pub rounds : ℕ
  pub cursors : ℕ → ℕ → Cursor

-- Whether the pacing loop is over after these readings of the clock.
abbrev pub paced : ℕ → ℕ → List ℕ → Bool
paced gap_ns next_send [] = gap_ns == 0
paced gap_ns next_send (now ∷ paces) =
    let rest = paced gap_ns next_send paces in
    if gap_ns == 0 then true else if ltb now next_send then rest else true

-- The producer's loop; `none` if it is still in one of its waits.
unfoldable pub send_all : Config → ℕ → ℕ → List Tick → Ring → Option Ring
unfolding publish
send_all c gap_ns next_send [] r = some r
send_all c gap_ns next_send (t ∷ ticks) r =
    if paced gap_ns next_send t.paces
    then elim (publish c t.rounds t.cursors r (message t.send) 64) [
      | stalled ↦ none
      | out_of_bounds ↦ none
      | published seq woke r' ↦ send_all c gap_ns (t.send + gap_ns) ticks r'
    ]
    else none

-- `print_verdict`: whether the hypothesis is met.
unfoldable is_met : ℤ → ℕ → Bool
is_met (pos p999) target = leb p999 target
is_met (negsuc p999) target = true
