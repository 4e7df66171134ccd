-- ===== src/Config.antt =====
-- The compile-time parameters of a channel: include/shimmy/policies.hpp (the overflow policies),
-- include/shimmy/wait_strategy.hpp (the tags of the wait strategies), include/shimmy/detail/cache.hpp
-- and the template parameters and static assertions of `Ring` in include/shimmy/ring.hpp.
pub mod Index
use shimmy.Common.{ℕ, ◌-◌, ◌%◌, ◌≤◌, ◌<◌, ◌^◌, bit_and, Bool, true, false, ◌≡◌, ◌⊎◌, inl, inr, refl}

-- The tag types `Overwrite` and `Backpressure`, the two for which `is_overflow_policy_v` holds.
pub data Overflow : Type 0 where
  overwrite backpressure : Overflow

pub Overflow-cases : (o : Overflow) → (o ≡ overwrite) ⊎ (o ≡ backpressure)
Overflow-cases overwrite = inl refl
Overflow-cases backpressure = inr refl

-- The tag types `Spin`, `SpinThenYield<SpinLimit>` and `Futex`, those for which
-- `is_wait_strategy_v` holds.
pub data Wait : Type 0 where
  spin : Wait
  spin_then_yield : ℕ → Wait
  futex : Wait

-- The member `blocks` of each strategy.
abbrev pub blocks : Wait → Bool
blocks spin = false
blocks (spin_then_yield limit) = false
blocks futex = true

abbrev pub cache_line_size : ℕ
cache_line_size = 64

-- The template arguments of `Ring`.
pub record Config : Type 0 where
  pub block_size : ℕ
  pub capacity : ℕ
  pub overflow : Overflow
  pub max_consumers : ℕ
  pub wait : Wait

abbrev pub mask : Config → ℕ
mask c = c.capacity - 1

-- The static assertions of `Ring`; `fits` is the range of its `std::size_t Capacity`.
pub record IsRingConfig (c : Config) : Type 0 where
  pub at_least_two : 2 ≤ c.capacity
  pub power_of_two : bit_and c.capacity (c.capacity - 1) ≡ 0
  pub aligned_blocks : c.block_size % cache_line_size ≡ 0
  pub has_cursor : 1 ≤ c.max_consumers
  pub fits : c.capacity < 2 ^ 64

-- `seq & mask`, the slot that a sequence number goes to.
abbrev pub index : Config → ℕ → ℕ
index c seq = bit_and seq (mask c)
