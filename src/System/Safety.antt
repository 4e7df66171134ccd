-- ===== src/System/Safety.antt =====
-- What the readers of include/shimmy/ring.hpp can rely on while the producer writes: for every
-- interleaving of the accesses of `publish` and of the readers.
use shimmy.Common.{
  ℕ, suc, ◌+◌, ◌≤◌, ◌<◌, ◌≡◌, ◌≢◌, inl, inr, sym, ap, ◌∙◌, refl, List, [], ◌∷◌, ◌++◌, some, arith,
  length, get_elem?, take, take-snoc,
}
use mathlib.Core.Path.{subst}
use shimmy.Config.{Config, IsRingConfig, backpressure}
use shimmy.Config.Index.{index-collide}
use shimmy.Ring.{slot_at, writing_seq}
use shimmy.Ring.Log.{Log}
use shimmy.System.{System, viewing, lapsed, Got, Reach}
use shimmy.System.Invariant.{InOrder, Gapless, busy, begun, next_of}
use shimmy.System.Reading.{validate-message}
use shimmy.System.Reader.{never-lapsed}
use shimmy.System.Reached.{Reach-Inv}

-- The bytes of what a reader has committed, oldest first.
abbrev pub messages : Got → List (List ℕ)
messages [] = []
messages ((s, m) ∷ got) = messages got ++ (m ∷ [])

-- Commits without a gap are the beginning of the log.
Gapless-take :
    (log : Log) (bound : ℕ) (got : Got) → Gapless log bound got → messages got ≡ take bound log
Gapless-take log bound [] v = subst (λ t. [] ≡ take t log) (sym v) refl
Gapless-take log bound ((s, m) ∷ got) v =
    ap (λ t. t ++ (m ∷ [])) (Gapless-take log s got v.2)
    ∙ sym (take-snoc log s v.1)
    ∙ ap (λ t. take t log) {x = suc s} (omega (arith, v.0))

module _ {c : Config} (v : IsRingConfig c) {n : ℕ}
    (few : c.overflow ≡ backpressure → n ≤ c.max_consumers) {s : System} (reached : Reach c n s)
    (short : length s.log < writing_seq) where
  -- Under either policy, in every state reached with fewer than writing_seq messages stamped and,
  -- under Backpressure, at most max_consumers readers: what a reader has committed are whole
  -- published messages, each with its own bytes, with strictly rising sequence numbers below its
  -- `next_`, whatever it missed in between.
  pub committed-InOrder : (i : ℕ) → InOrder s.log (next_of (s.readers i)) (s.got i)
  committed-InOrder i = (Reach-Inv v few reached short).ordered i

  -- In every state that a producer and `n` readers, attached before the first message, reach by
  -- any interleaving of their accesses, with at most max_consumers readers under Backpressure and
  -- fewer than writing_seq messages stamped: when a reader has read all bytes of its view and the
  -- slot still carries the stamp it wants, which is what `validate` tests, the bytes read are the
  -- message published under that number.
  pub validated-message :
      (i want len : ℕ) (bytes : List ℕ)
      → i < n
      → s.readers i ≡ viewing want len bytes
      → length bytes ≡ len
      → (slot_at c s.ring want).seq ≡ want
      → get_elem? s.log want ≡ some bytes
  validated-message i want len bytes lt =
      validate-message v short (Reach-Inv v few reached short) i want len bytes lt

  -- In every state reached with fewer than writing_seq messages stamped and, under Backpressure,
  -- at most max_consumers readers: a stamped message is still in its slot, with its own stamp, as
  -- long as the messages begun, the one being written included, are at most Capacity ahead of it.
  pub recent-stamp :
      (want : ℕ)
      → want < length s.log
      → begun (busy s.pc) s.log ≤ want + c.capacity
      → (slot_at c s.ring want).seq ≡ want
  recent-stamp want old recent =
      let inv = Reach-Inv v few reached short in
      elim (inv.slots.floor want old) [
        | inl at ↦
            ground
              (arith, inv.slots.home want at.1, index-collide v want (slot_at c s.ring want).seq)
        | inr flux ↦
            let ahead : length s.log + 1 ≤ want + c.capacity = rw flux.1.1 at recent in
            omega (arith, index-collide v want (length s.log) flux.1.0 old)
      ]

  module _ (o : c.overflow ≡ backpressure) (i : ℕ) (lt : i < n) where
    -- Under Backpressure with at most max_consumers readers, attached before the first message, in
    -- every state reached with fewer than writing_seq messages stamped: what each reader has
    -- committed, oldest first, is exactly the beginning of the list of published messages up to
    -- its `next_`.
    pub lossless-messages : messages (s.got i) ≡ take (next_of (s.readers i)) s.log
    lossless-messages =
        Gapless-take s.log _ (s.got i) ((Reach-Inv v few reached short).complete o i lt)

    -- Under Backpressure with at most max_consumers readers, attached before the first message, in
    -- every state reached with fewer than writing_seq messages stamped: the message a reader is
    -- at, once stamped, keeps its stamp until the reader commits it.
    pub lossless-stamp :
        next_of (s.readers i) < length s.log
        → (slot_at c s.ring (next_of (s.readers i))).seq ≡ next_of (s.readers i)
    lossless-stamp old =
        let k = (Reach-Inv v few reached short).held o i lt in
        recent-stamp (next_of (s.readers i)) old (omega (arith, k.here, k.near))

    -- Under Backpressure with at most max_consumers readers, attached before the first message, in
    -- every state reached with fewer than writing_seq messages stamped, no reader has been told
    -- lapped.
    pub lossless-lapsed : (next : ℕ) → s.readers i ≢ lapsed next
    lossless-lapsed next e = never-lapsed v short (Reach-Inv v few reached short) i lt next e o
