-- ===== src/Common/Words.antt =====
-- Unsigned machine words: an operation wraps at the width of its type.
use Prim.Native.Nat.{ℕ, ◌-◌, ◌%◌, ◌^◌}

abbrev pub u32 : ℕ → ℕ
u32 n = n % 2 ^ 32

abbrev pub u64 : ℕ → ℕ
u64 n = n % 2 ^ 64

-- `~std::uint64_t{0}`
abbrev pub max_u64 : ℕ
max_u64 = 2 ^ 64 - 1
