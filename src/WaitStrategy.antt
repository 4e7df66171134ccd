-- ===== src/WaitStrategy.antt =====
-- The wait strategies of include/shimmy/wait_strategy.hpp, and `Consumer::read_blocking` of
-- include/shimmy/ring.hpp, which waits by them.
pub mod Blocking
pub mod Calls
pub mod Eventcount
pub mod Sleepers
pub mod Watched
pub mod Wakeups
pub mod StoreBuffer
pub mod LostWakeup
pub mod Parking
pub mod Parked
pub mod Attentive
pub mod Deadlock
mod Tests
mod CallsTests
mod ParkingTests
use shimmy.Common.{
  ℕ, zero, suc, ◌+◌, Bool, true, false, List, [], ◌∷◌, Option, none, some, ltb, leb, if◌then◌else◌,
  u32,
}
use shimmy.Config.{Config, Wait, spin, spin_then_yield, futex}
use shimmy.Ring.{Ring, slot_at}
use shimmy.Consumer.{Consumer, Status, ok, empty, lapped, do_read, view_for}

-- What a call of `wait` does before it returns.
pub data Pause : Type 0 where
  pause : Pause  -- `Spin::pause`
  yield_cpu : Pause  -- `std::this_thread::yield`
  caught_up : Pause  -- counted as a waiter and back, without sleeping
  futex_wait : (cmp : ℕ) → Pause  -- FUTEX_WAIT while the word is `cmp`

-- `Futex::spin_before_syscall`
abbrev pub spin_before_syscall : ℕ
spin_before_syscall = 64

-- `wait(published, expected_at_least, iter, waiters)`; `seen` is the stamp that it loads, if it does.
unfoldable pub wait : Wait → ℕ → ℕ → ℕ → Pause
wait spin seen expected iter = pause
wait (spin_then_yield limit) seen expected iter = if ltb iter limit then pause else yield_cpu
wait futex seen expected iter =
    if ltb iter spin_before_syscall
    then pause
    else if leb expected seen
    then caught_up
    else futex_wait (u32 seen)

-- What `read_blocking` returns: the view, the consumer, and the calls of `wait` that it made.
abbrev pub Blocked : Type 0
Blocked = Option (List ℕ × Consumer × List Pause)

abbrev pub after_wait : Pause → Blocked → Blocked
after_wait p none = none
after_wait p (some (view, k, pauses)) = some (view, k, p ∷ pauses)

-- A round of the loop behind its `do_read`, by `last_status_`.
abbrev pub round_for : Status → Config → Ring → ℕ → Consumer → Blocked → Blocked
round_for ok c r iter k again = some (view_for ok c r k, k, [])
round_for lapped c r iter k again = some (view_for lapped c r k, k, [])
round_for empty c r iter k again =
    after_wait (wait c.wait (slot_at c r k.next).seq k.next iter) again

-- The loop of `read_blocking`, from round `iter` on. In its `q`-th round the ring is `seen q`; it is
-- `none` if it is still waiting when the fuel is used up.
unfoldable pub read_blocking_from : Config → ℕ → (ℕ → Ring) → ℕ → Consumer → Blocked
unfolding do_read wait
read_blocking_from c zero seen iter k = none
read_blocking_from c (suc fuel) seen iter k =
    let k' = do_read c (seen iter) k in
    let again = read_blocking_from c fuel seen (iter + 1) k' in
    round_for k'.last_status c (seen iter) iter k' again

unfoldable pub read_blocking : Config → ℕ → (ℕ → Ring) → Consumer → Blocked
unfolding read_blocking_from
read_blocking c fuel seen k = read_blocking_from c fuel seen 0 k
