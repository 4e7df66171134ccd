-- ===== src/WaitStrategy/Eventcount.antt =====
-- `Futex::wait` and `Futex::notify` of include/shimmy/wait_strategy.hpp at work together on the
-- stamp of one slot: one access at a time, in any order. FUTEX_WAIT compares the word and sleeps in
-- one step, FUTEX_WAKE wakes every sleeper, as futex(2) says; a sleeper may also wake for no reason.
use shimmy.Common.{ℕ, ◌+◌, ◌-◌, ◌≤◌, ◌<◌, ◌≡◌, ◌≢◌, ◌^◌, update, u32}
use shimmy.Ring.{writing_seq, empty_seq}

-- Where a reader stands in the slow path of `wait`.
pub data Sleeper : Type 0 where
  away : Sleeper
  announced : Sleeper  -- after `waiters.fetch_add`
  deciding : (seen : ℕ) → Sleeper  -- after the load of the stamp, before FUTEX_WAIT
  asleep : (seen : ℕ) → Sleeper
  leaving : Sleeper  -- before `waiters.fetch_sub`

-- Where the producer stands in `publish` to this slot.
pub data Waker : Type 0 where
  resting : Waker
  marked : Waker  -- after the store of the marker
  stamped : Waker  -- after the store of the stamp, before the load of `waiters`
  waking : Waker  -- the load was not 0; before FUTEX_WAKE

pub record Slotwise : Type 0 where
  pub stamp : ℕ
  pub waiters : ℕ
  pub waker : Waker
  pub sleepers : ℕ → Sleeper

abbrev pub woken : Sleeper → Sleeper
woken (asleep seen) = leaving
woken away = away
woken announced = announced
woken (deciding seen) = deciding seen
woken leaving = leaving

-- A step of the producer.
pub data Wake (s : Slotwise) : Slotwise → Type 0 where
  mark : s.waker ≡ resting → Wake s (record s { stamp = writing_seq; waker = marked })
  publish : (seq : ℕ) → s.waker ≡ resting → Wake s (record s { stamp = seq; waker = stamped })
  publish_marked : (seq : ℕ) → s.waker ≡ marked → Wake s (record s { stamp = seq; waker = stamped })
  nobody_waits : s.waker ≡ stamped → s.waiters ≡ 0 → Wake s (record s { waker = resting })
  somebody_waits : s.waker ≡ stamped → s.waiters ≢ 0 → Wake s (record s { waker = waking })
  wake_all :
      s.waker ≡ waking → Wake s (record s { waker = resting; sleepers = λ i. woken (s.sleepers i) })

-- A step of a reader that waits for `expected`: the count of waiters and where it stands after it.
pub data Sleep (stamp waiters expected : ℕ) : Sleeper → ℕ → Sleeper → Type 0 where
  announce : Sleep stamp waiters expected away (u32 (waiters + 1)) announced
  see_published : expected ≤ stamp → Sleep stamp waiters expected announced waiters leaving
  see_behind : stamp < expected → Sleep stamp waiters expected announced waiters (deciding stamp)
  fall_asleep :
      {seen : ℕ}
      → u32 stamp ≡ u32 seen
      → Sleep stamp waiters expected (deciding seen) waiters (asleep seen)
  word_moved :
      {seen : ℕ}
      → u32 stamp ≢ u32 seen
      → Sleep stamp waiters expected (deciding seen) waiters leaving
  wake_up : {seen : ℕ} → Sleep stamp waiters expected (asleep seen) waiters leaving
  leave : Sleep stamp waiters expected leaving (u32 (waiters + (2 ^ 32 - 1))) away

-- `n` readers, each of which waits for its number, and the producer.
pub data Turn (n : ℕ) (expected : ℕ → ℕ) (s : Slotwise) : Slotwise → Type 0 where
  producer : {t : Slotwise} → Wake s t → Turn n expected s t
  reader :
      (i : ℕ) {w : ℕ} {q : Sleeper}
      → i < n
      → Sleep s.stamp s.waiters (expected i) (s.sleepers i) w q
      → Turn n expected s (record s { waiters = w; sleepers = update s.sleepers i q })

-- After `init`, nobody waits.
abbrev pub quiet : Slotwise
quiet = record { stamp = empty_seq; waiters = 0; waker = resting; sleepers = λ _. away }

pub data Leads (n : ℕ) (expected : ℕ → ℕ) : Slotwise → Type 0 where
  begin : Leads n expected quiet
  later : {s t : Slotwise} → Leads n expected s → Turn n expected s t → Leads n expected t
