-- ===== src/Common/Modular.antt =====
-- Remainders by a fixed modulus: which numbers share one.
use Prim.Native.Nat.{ℕ, ◌+◌, ◌*◌, ◌/◌, ◌%◌, ◌≤◌, ◌<◌}
use mathlib.Core.Path.{◌≡◌}
use native.Mathlib.Omega.{arith}
use native.Mathlib.Nat.{div-add-mod'}

-- Products by a fixed factor keep a strict order a whole factor apart.
mul_lt_apart : (c p q : ℕ) → p < q → p * c + c ≤ q * c
mul_lt_apart c p q h = grind arith

-- Two numbers with one remainder are at least the modulus apart.
pub mod-collide : (c s t : ℕ) → s % c ≡ t % c → s < t → s + c ≤ t
mod-collide c s t e h = ground (
  arith,
  div-add-mod' s c,
  div-add-mod' t c,
  mul_lt_apart c (s / c) (t / c),
  mul_lt_apart c (t / c) (s / c),
)
