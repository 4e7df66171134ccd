-- ===== src/Common/Integers.antt =====
-- Signed numbers over the native ones.
use Prim.Native.Nat.{ℕ, ◌-◌}
use shimmy.Common.Tests.{leb, if◌then◌else◌}

pub data ℤ : Type 0 where
  pos : ℕ → ℤ
  negsuc : ℕ → ℤ  -- -1 - n

abbrev pub minus : ℕ → ℕ → ℤ
minus m n = if leb n m then pos (m - n) else negsuc (n - m - 1)
