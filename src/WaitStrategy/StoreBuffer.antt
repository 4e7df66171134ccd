-- ===== src/WaitStrategy/StoreBuffer.antt =====
-- The protocol of `Futex` (include/shimmy/wait_strategy.hpp) on x86-64, where the producer's stores wait
-- in its store buffer: `publish` stores the stamp with release order, and the load of `waiters` in
-- `notify` may come before that store reaches memory. The readers' accesses are locked
-- read-modify-writes and loads. FUTEX_WAKE takes the kernel's lock by a locked instruction, before
-- which the buffer drains.
use shimmy.Common.{ℕ, ◌<◌, ◌≡◌, ◌≢◌, Bool, true, false, List, [], ◌∷◌, ◌++◌, update}
use shimmy.Ring.{writing_seq, empty_seq}
use shimmy.WaitStrategy.Eventcount.{
  Sleeper, away, woken, Sleep, Waker, resting, marked, stamped, waking,
}

-- `pending` are the stores to the stamp that have not reached memory, oldest first. `hasty` is not a
-- variable of the program: it notes whether the last `notify` found no waiter while a stamp was pending.
pub record Buffered : Type 0 where
  pub stamp : ℕ
  pub pending : List ℕ
  pub waiters : ℕ
  pub waker : Waker
  pub sleepers : ℕ → Sleeper
  pub hasty : Bool

abbrev pub is_pending : List ℕ → Bool
is_pending [] = false
is_pending (x ∷ pending) = true

-- A step of the producer, or of its store buffer.
pub data BufferedWake (s : Buffered) : Buffered → Type 0 where
  mark :
      s.waker ≡ resting
      → BufferedWake s (record s { pending = s.pending ++ (writing_seq ∷ []); waker = marked })
  publish :
      (seq : ℕ)
      → s.waker ≡ resting
      → BufferedWake s (record s { pending = s.pending ++ (seq ∷ []); waker = stamped })
  publish_marked :
      (seq : ℕ)
      → s.waker ≡ marked
      → BufferedWake s (record s { pending = s.pending ++ (seq ∷ []); waker = stamped })
  drain :
      {x : ℕ} {pending : List ℕ}
      → s.pending ≡ x ∷ pending
      → BufferedWake s (record s { stamp = x; pending = pending })
  nobody_waits :
      s.waker ≡ stamped
      → s.waiters ≡ 0
      → BufferedWake s (record s { waker = resting; hasty = is_pending s.pending })
  somebody_waits : s.waker ≡ stamped → s.waiters ≢ 0 → BufferedWake s (record s { waker = waking })
  wake_all :
      s.waker ≡ waking
      → s.pending ≡ []
      → BufferedWake s
          (record s { waker = resting; sleepers = λ i. woken (s.sleepers i); hasty = false })

pub data BufferedTurn (n : ℕ) (expected : ℕ → ℕ) (s : Buffered) : Buffered → Type 0 where
  producer : {t : Buffered} → BufferedWake s t → BufferedTurn n expected s t
  reader :
      (i : ℕ) {w : ℕ} {q : Sleeper}
      → i < n
      → Sleep s.stamp s.waiters (expected i) (s.sleepers i) w q
      → BufferedTurn n expected s (record s { waiters = w; sleepers = update s.sleepers i q })

-- After `init`, nobody waits.
abbrev pub at_first : Buffered
at_first = record {
  stamp = empty_seq;
  pending = [];
  waiters = 0;
  waker = resting;
  sleepers = λ _. away;
  hasty = false;
}

pub data BufferedLeads (n : ℕ) (expected : ℕ → ℕ) : Buffered → Type 0 where
  begin : BufferedLeads n expected at_first
  later :
      {s t : Buffered}
      → BufferedLeads n expected s
      → BufferedTurn n expected s t
      → BufferedLeads n expected t
