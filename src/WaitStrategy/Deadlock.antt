-- ===== src/WaitStrategy/Deadlock.antt =====
-- The producer of include/shimmy/ring.hpp that waits for a reader, and readers that block by `Futex`
-- (include/shimmy/wait_strategy.hpp).
use shimmy.Common.{
  ℕ, ◌-◌, ◌≤◌, ◌<◌, ◌≡◌, ◌≢◌, ◌^◌, sym, inl, inr, List, length, get_elem?-lt, u32, Bool, arith,
}
use mathlib.Core.Path.{subst}
use shimmy.Config.{Config, IsRingConfig, backpressure}
use shimmy.Ring.{Slot, slot_at, writing_seq}
use shimmy.Ring.Log.{Log}
use shimmy.Consumer.{ok, status_of}
use shimmy.System.{ReaderPc, comparing, polling, holding, viewing, accepted, lapsed}
use shimmy.System.Invariant.{ReaderOk, busy, next_of}
use shimmy.System.Reading.{ok_stamp}
use shimmy.System.Reached.{Reach-Inv}
use shimmy.System.Progress.{held_back-status_of}
use shimmy.WaitStrategy.Eventcount.{asleep}
use shimmy.WaitStrategy.Watched.{Watched-asleep}
use shimmy.WaitStrategy.Parking.{Parking, Parks, nothing_due}
use shimmy.WaitStrategy.Parked.{IsCalm}
use shimmy.WaitStrategy.Attentive.{Parks-Attentive}

next_of-le :
    (c : Config) (log : Log) (flux : Bool) (slots : ℕ → Slot) (q : ReaderPc)
    → ReaderOk c log flux slots q
    → next_of q ≤ length log
next_of-le c log flux slots (polling next) v = v
next_of-le c log flux slots (holding want) v = omega (arith, v)
next_of-le c log flux slots (viewing want len bytes) v = omega (arith, v.0)
next_of-le c log flux slots (accepted want bytes) v = omega (arith, get_elem?-lt log want v)
next_of-le c log flux slots (lapsed next) v = omega (arith, v)

below : (log : Log) → length log < 2 ^ 32 → length log < writing_seq
below log short = omega (arith, short)

-- Below 2^32 two numbers with the same low half are the same.
word-apart :
    (stamp next seen : ℕ) → next < 2 ^ 32 → seen < next → u32 stamp ≡ u32 seen → stamp ≢ next
word-apart stamp next seen short behind same e = omega (arith, short, behind, same, e)

module _ {c : Config} (v : IsRingConfig c) {n : ℕ} (sleepy : n < 2 ^ 31)
    (few : c.overflow ≡ backpressure → n ≤ c.max_consumers) {s : Parking} (parks : Parks c n s)
    (short : length s.system.log < 2 ^ 32) where
  -- In every state that a producer and fewer than 2^31 readers that block by `Futex`, attached
  -- before the first message and at most max_consumers under Backpressure, reach by any
  -- interleaving of the accesses of `publish`, `notify`, the readers' loop and `wait`, each seen
  -- at once by all (sequentially consistent), with fewer than 2^32 messages stamped: when a reader
  -- is asleep, and the producer is neither writing to the slot of its next message nor has a
  -- `notify` of a message in that slot still to finish, the slot does not carry the stamp of that
  -- message.
  pub asleep-unpublished :
      (i seen : ℕ)
      → i < n
      → s.sleepers i ≡ asleep seen
      → IsCalm c s.notice s.system.pc (next_of (s.system.readers i))
      → (slot_at c s.system.ring (next_of (s.system.readers i))).seq ≢ next_of (s.system.readers i)
  asleep-unpublished i seen lt at calm =
      let inv = Parks-Attentive sleepy parks in
      let (behind, same) = Watched-asleep inv.watched i seen lt at calm in
      let reader = (Reach-Inv v few inv.follows (below s.system.log short)).reader i in
      let old =
        next_of-le c s.system.log (busy s.system.pc) s.system.ring.slots (s.system.readers i)
          reader in
      word-apart _ (next_of (s.system.readers i)) seen (omega (arith, old, short)) behind same

  -- In every state that a producer and fewer than 2^31 readers that block by `Futex`, attached
  -- before the first message and at most max_consumers under Backpressure, reach by any
  -- interleaving of the accesses of `publish`, `notify`, the readers' loop and `wait`, each seen
  -- at once by all (sequentially consistent), with fewer than 2^32 messages stamped: when the
  -- producer waits and compares a cursor that is still at or below the message in the slot it
  -- wants, the cursor belongs to a reader, `do_read` finds the message that this reader is at ok,
  -- and the reader is not asleep, so that the two never wait for each other.
  pub held_back-awake :
      (seq i : ℕ) (m : List ℕ)
      → s.system.pc ≡ comparing seq m i
      → (s.system.ring.cursors i).value ≤ seq - c.capacity
      → (i < n)
        × (status_of
              (slot_at c s.system.ring (next_of (s.system.readers i))).seq
              (next_of (s.system.readers i))
            ≡ ok)
        × ((seen : ℕ) → s.sleepers i ≢ asleep seen)
  held_back-awake seq i m at behind =
      let inv = Parks-Attentive sleepy parks in
      let (lt, old, found) =
        held_back-status_of v few inv.follows (below s.system.log short) seq i m at behind in
      let still : IsCalm c s.notice s.system.pc (next_of (s.system.readers i)) = elim inv.prompt [
        | inl none_due ↦
            subst (λ t. IsCalm c t s.system.pc (next_of (s.system.readers i))) (sym none_due)
              (subst (λ p. IsCalm c nothing_due p (next_of (s.system.readers i))) (sym at)
                (λ seq' e. absurd (cc)))
        | inr rests ↦ absurd (cc (rests, at))
      ] in
      (lt, found, λ seen sleeps. asleep-unpublished i seen lt sleeps still (ok_stamp _ _ found))
