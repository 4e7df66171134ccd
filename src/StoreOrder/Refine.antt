-- ===== src/StoreOrder/Refine.antt =====
-- The ring of include/shimmy/ring.hpp on x86-64 beside the interleaved one, and what its readers can
-- rely on.
use shimmy.Common.{
  ℕ, ◌≤◌, ◌<◌, ◌≡◌, ◌≢◌, refl, some, List, arith, length, length-snoc, get_elem?, take,
}
use shimmy.Config.{Config, IsRingConfig, backpressure}
use shimmy.Ring.{slot_at, writing_seq}
use shimmy.Ring.Log.{Log}
use shimmy.System.{System, Reach, begin, viewing, lapsed}
use shimmy.System.Invariant.{next_of}
use shimmy.System.Safety.{
  messages, validated-message, lossless-messages, lossless-stamp, lossless-lapsed,
}
use shimmy.StoreOrder.{
  Store, mark_store, len_store, byte_store, stamp_store, count_store, log_after, Buffers, Move,
  look, emit, drain, consume, drain_cursor, empty_buffers, Flows, begin as begins, later as goes_on,
}
use shimmy.StoreOrder.Ahead.{done, resting}
use shimmy.StoreOrder.Drained.{in_step}
use shimmy.StoreOrder.Tied.{Tied}
use shimmy.StoreOrder.Producing.{Look-Tied, Emit-Tied, drain-Tied}
use shimmy.StoreOrder.Consuming.{Consume-Tied, drain_cursor-Tied}

log_after-grows : (st : Store) (log : Log) → length log ≤ length (log_after st log)
log_after-grows (mark_store seq) log = omega arith
log_after-grows (len_store seq len) log = omega arith
log_after-grows (byte_store seq i b) log = omega arith
log_after-grows (stamp_store seq m) log = omega (arith, length-snoc log m)
log_after-grows (count_store seq) log = omega arith

Move-grows : {c : Config} {n : ℕ} {s t : Buffers} → Move c n s t → length s.log ≤ length t.log
Move-grows (look step) = omega arith
Move-grows (emit step) = omega arith
Move-grows {s} (drain {st} e) = log_after-grows st s.log
Move-grows (consume i lt step) = omega arith
Move-grows (drain_cursor i lt e) = omega arith

module _ {c : Config} (v : IsRingConfig c) {n : ℕ}
    (few : c.overflow ≡ backpressure → n ≤ c.max_consumers) where
  Move-Tied : {s t : Buffers} → length s.log < writing_seq → Tied c n s → Move c n s t → Tied c n t
  Move-Tied short tied (look step) = Look-Tied tied step
  Move-Tied short tied (emit step) = Emit-Tied tied step
  Move-Tied short tied (drain e) = drain-Tied tied e
  Move-Tied short tied (consume i lt step) = Consume-Tied v few short tied i lt step
  Move-Tied short tied (drain_cursor i lt e) =
      drain_cursor-Tied tied i (λ o. omega (arith, lt, few o)) e

  Flows-Tied : {s : Buffers} → Flows c n s → length s.log < writing_seq → Tied c n s
  Flows-Tied (begins region) short = record {
    cursors = (empty_buffers c n region).memory.cursors;
    from = (empty_buffers c n region).pc;
    follows = begin region;
    used = λ j. refl;
    rising = λ o j. refl;
    ahead = done resting;
  }
  Flows-Tied (goes_on {s} {t} before step) short =
      let old : length s.log < writing_seq = omega (arith, Move-grows step) in
      Move-Tied old (Flows-Tied before old) step

  module _ {s : Buffers} (flows : Flows c n s) (short : length s.log < writing_seq) where
    -- In every state that a producer and `n` readers, attached before the first message, reach on
    -- x86-64, where each thread's stores wait in its store buffer, by any interleaving of their
    -- accesses and of the stores that reach memory, with fewer than writing_seq messages stamped
    -- and, under Backpressure, at most max_consumers readers: the interleaved ring without store
    -- buffers reaches a state with the same slots and count of messages in memory, the same
    -- readers, the same commits and the same log.
    pub flows-Reach :
        (t : System) × Reach c n t
        × (t.ring.slots ≡ s.memory.slots)
        × (t.ring.next_publish ≡ s.memory.next_publish)
        × (t.readers ≡ s.readers)
        × (t.got ≡ s.got)
        × (t.log ≡ s.log)
    flows-Reach =
        let tied = Flows-Tied flows short in
        (
          in_step s.memory tied.cursors tied.from s.readers s.got s.log,
          tied.follows,
          refl,
          refl,
          refl,
          refl,
          refl,
        )

    -- In every state that a producer and `n` readers, attached before the first message, reach on
    -- x86-64, where each thread's stores wait in its store buffer, by any interleaving of their
    -- accesses and of the stores that reach memory, with fewer than writing_seq messages stamped
    -- and, under Backpressure, at most max_consumers readers: when a reader has read all bytes of
    -- its view and the slot in memory still carries the stamp it wants, which is what `validate`
    -- tests, the bytes read are the message published under that number.
    pub flows-message :
        (i want len : ℕ) (bytes : List ℕ)
        → i < n
        → s.readers i ≡ viewing want len bytes
        → length bytes ≡ len
        → (slot_at c s.memory want).seq ≡ want
        → get_elem? s.log want ≡ some bytes
    flows-message = validated-message v few (Flows-Tied flows short).follows short

    -- In every state that a producer and `n` readers, attached before the first message, reach on
    -- x86-64, where each thread's stores wait in its store buffer, by any interleaving of their
    -- accesses and of the stores that reach memory, with fewer than writing_seq messages stamped
    -- and, under Backpressure, at most max_consumers readers: under Backpressure, what each reader
    -- has committed, oldest first, is exactly the beginning of the list of published messages up
    -- to its `next_`; the message it is at, once its stamp has reached memory, keeps that stamp
    -- there; and the reader has not been told lapped.
    pub flows-lossless :
        c.overflow ≡ backpressure
        → (i : ℕ) → i < n
        → (messages (s.got i) ≡ take (next_of (s.readers i)) s.log)
          × (next_of (s.readers i) < length s.log
              → (slot_at c s.memory (next_of (s.readers i))).seq ≡ next_of (s.readers i))
          × ((next : ℕ) → s.readers i ≢ lapsed next)
    flows-lossless o i lt =
        let reached = (Flows-Tied flows short).follows in
        (
          lossless-messages v few reached short o i lt,
          lossless-stamp v few reached short o i lt,
          lossless-lapsed v few reached short o i lt,
        )
