-- ===== src/Bench/Latency/Stamps.antt =====
-- The send time of bench/latency_bench.cpp in the first bytes of a message, and back.
use shimmy.Common.{
  ℕ, zero, suc, ◌/◌, ◌^◌, ◌<◌, ◌≡◌, refl, ap, ◌∙◌, take, take-append, take_all, length, pos, arith,
}
use shimmy.Bench.Latency.{int64_bytes, bytes_value, as_int64, filler, message, send_time}

length-int64_bytes : (n v : ℕ) → length (int64_bytes n v) ≡ n
length-int64_bytes zero v = refl
length-int64_bytes (suc n) v = ap suc (length-int64_bytes n (v / 256))

bytes_value-int64_bytes : (n v : ℕ) → v < 256 ^ n → bytes_value (int64_bytes n v) ≡ v
bytes_value-int64_bytes zero v h = omega (arith, h)
bytes_value-int64_bytes (suc n) v h =
    let low : v / 256 < 256 ^ n = omega (arith, h) in
    omega (arith, bytes_value-int64_bytes n (v / 256) low)

-- The consumer reads back the time that the producer wrote.
pub send_time-message : (send : ℕ) → send < 2 ^ 63 → send_time (message send) ≡ pos send
send_time-message send small =
    let whole : take 8 (message send) ≡ int64_bytes 8 send =
      take-append 8 (int64_bytes 8 send) (filler 56) (omega (arith, length-int64_bytes 8 send))
      ∙ take_all 8 (int64_bytes 8 send) (omega (arith, length-int64_bytes 8 send)) in
    let is : bytes_value (take 8 (message send)) ≡ send =
      ap bytes_value whole ∙ bytes_value-int64_bytes 8 send (omega (arith, small)) in
    ap as_int64 is ∙ ground (arith, small)
