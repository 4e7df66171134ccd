-- ===== src/WaitStrategy/Wakeups.antt =====
-- The invariant of the futex protocol, and the count of waiters: the comment of `Futex` in
-- include/shimmy/wait_strategy.hpp.
use shimmy.Common.{ℕ, ◌<◌, ◌≡◌, ◌^◌, refl, u32}
use shimmy.WaitStrategy.Eventcount.{
  asleep, resting, marked, stamped, waking, Slotwise, Wake, mark, publish, publish_marked,
  nobody_waits, somebody_waits, wake_all, Turn, producer, reader, Leads, begin, later,
}
use shimmy.WaitStrategy.Sleepers.{insiders, insiders-away}
use shimmy.WaitStrategy.Watched.{
  Watched, Watched-stir, Watched-nobody, Watched-woken, Watched-Sleep, Watched-asleep,
}

-- While the producer rests the word is calm.
abbrev Settled : ℕ → (ℕ → ℕ) → Slotwise → Type 0
Settled n expected s =
    Watched n expected (λ _. s.waker ≡ resting) (λ _. s.stamp) s.waiters s.sleepers

-- Every step of the producer keeps the invariant.
Wake-Settled :
    {n : ℕ} {expected : ℕ → ℕ} {s t : Slotwise}
    → Settled n expected s
    → Wake s t
    → Settled n expected t
Wake-Settled inv (mark at) = Watched-stir inv (λ _. marked ≡ resting) _ (λ i e. cc)
Wake-Settled inv (publish seq at) = Watched-stir inv (λ _. stamped ≡ resting) (λ _. seq) (λ i e. cc)
Wake-Settled inv (publish_marked seq at) =
    Watched-stir inv (λ _. stamped ≡ resting) (λ _. seq) (λ i e. cc)
Wake-Settled inv (nobody_waits at none) = Watched-nobody inv (λ _. resting ≡ resting) none
Wake-Settled {s = s} inv (somebody_waits at some_) =
    Watched-stir inv (λ _. waking ≡ resting) (λ _. s.stamp) (λ i e. cc)
Wake-Settled inv (wake_all at) = Watched-woken inv (λ _. resting ≡ resting)

module _ {n : ℕ} {expected : ℕ → ℕ} (few : n < 2 ^ 31) where
  Turn-Settled :
      {s t : Slotwise} → Settled n expected s → Turn n expected s t → Settled n expected t
  Turn-Settled inv (producer step) = Wake-Settled inv step
  Turn-Settled inv (reader i lt step) = Watched-Sleep inv few i lt refl step

  Leads-Settled : {s : Slotwise} → Leads n expected s → Settled n expected s
  Leads-Settled begin = record { counted = insiders-away n; each = λ i lt. tt }
  Leads-Settled (later before step) = Turn-Settled (Leads-Settled before) step

  -- In every state that fewer than 2^31 readers and the producer reach on one slot, by any
  -- interleaving of `wait` and of marker, stamp and `notify`, the counter `waiters` is the number
  -- of readers between their increment and their decrement; the 32-bit arithmetic does not wrap.
  pub waiters-insiders : {s : Slotwise} → Leads n expected s → s.waiters ≡ insiders s.sleepers n
  waiters-insiders led = (Leads-Settled led).counted

  -- In every state that fewer than 2^31 readers and the producer reach on one slot, by any
  -- interleaving of `wait` and of marker, stamp and `notify`: when a reader is asleep and the
  -- producer is not between its first store to the slot and the end of `notify`, then the stamp
  -- that the reader saw is below the number it waits for, and the low 32 bits of the slot's stamp
  -- are still those that it saw.
  pub asleep-behind :
      {s : Slotwise}
      → Leads n expected s
      → (i seen : ℕ) → i < n
      → s.sleepers i ≡ asleep seen
      → s.waker ≡ resting
      → (seen < expected i) × (u32 s.stamp ≡ u32 seen)
  asleep-behind led i seen lt at rests = Watched-asleep (Leads-Settled led) i seen lt at rests
