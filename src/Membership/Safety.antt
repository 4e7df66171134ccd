-- ===== src/Membership/Safety.antt =====
-- What consumers of include/shimmy/ring.hpp and include/shimmy/shm_segment.hpp that come and go while
-- the producer publishes can rely on, and what the producer can.
use shimmy.Common.{
  ℕ, suc, ◌-◌, ◌≤◌, ◌<◌, ◌≡◌, ◌≢◌, inl, inr, sym, ap, ◌∙◌, true, List, [], ◌∷◌, ◌++◌, some, arith,
  length, get_elem?, take, take-snoc, max_u64,
}
use mathlib.Core.Path.{subst}
use mathlib.Core.List.{append_assoc, append-nil}
use shimmy.Config.{Config, IsRingConfig, backpressure}
use shimmy.Config.Index.{index-collide}
use shimmy.Ring.{slot_at, writing_seq}
use shimmy.Ring.Log.{Log}
use shimmy.Consumer.{ok, status_of}
use shimmy.Consumer.Reads.{status_of-ok}
use shimmy.System.{ReaderPc, comparing, viewing, lapsed, Got}
use shimmy.System.Invariant.{next_of}
use shimmy.System.Safety.{messages}
use shimmy.Membership.{
  Member, outside, trying, starting, seated, seeking, reading, departing, Gathering, Unfolds,
}
use shimmy.Membership.Invariant.{holds, seat_of, MemberOk, PlaceOk, ReadingOk, GaplessFrom}
use shimmy.Membership.Reading.{accepted-message, unlapsed, reach-le, reach-busy}
use shimmy.Membership.Reached.{Unfolds-Members, GatheringInv}

-- Commits without a gap are what the log holds from where they begin.
GaplessFrom-take :
    (log : Log) (base bound : ℕ) (got : Got)
    → GaplessFrom log base bound got
    → (base ≤ bound) × (take base log ++ messages got ≡ take bound log)
GaplessFrom-take log base bound [] v =
    (omega (arith, v), append-nil (take base log) ∙ ap (λ t. take t log) {x = base} (sym v))
GaplessFrom-take log base bound ((s, m) ∷ got) v =
    let (le, is) = GaplessFrom-take log base s got v.2 in
    (
      omega (arith, le, v.0),
      sym (append_assoc (take base log) (messages got) (m ∷ []))
          ∙ ap (λ t. t ++ (m ∷ [])) is
          ∙ sym (take-snoc log s v.1)
          ∙ ap (λ t. take t log) {x = suc s} (omega (arith, v.0)),
    )

-- Under Backpressure the message that a consumer with a cursor is at keeps its stamp.
kept-stamp :
    {c : Config} {s : Gathering} {id base : ℕ} {q : ReaderPc} {g : Got}
    → IsRingConfig c
    → GatheringInv c s
    → c.overflow ≡ backpressure
    → id < c.max_consumers
    → ReadingOk c s.log s.ring s.pc id base q g
    → next_of q < length s.log
    → (slot_at c s.ring (next_of q)).seq ≡ next_of q
kept-stamp {c} {s} {id} {q = q} v inv o lt k old =
    let (here, near) = k.paced o lt in
    let next = next_of q in
    elim (inv.slots.floor next old) [
      | inl at ↦ ground (
        arith,
        inv.slots.home next at.1,
        index-collide v next (slot_at c s.ring next).seq,
        reach-le s.pc s.log id,
      )
      | inr flux ↦ omega (
        arith,
        index-collide v next (length s.log) flux.1.0 old,
        reach-busy s.pc s.log id flux.1.1,
      )
    ]

-- A consumer that is about to go on: it has its cursor still to set, or a message to read.
abbrev pub IsDue : Config → Gathering → ℕ → Member → Type 0
IsDue c s j outside = ⊥
IsDue c s j (trying i) = ⊥
IsDue c s j (starting id) = id ≡ j
IsDue c s j (seated id) = id ≡ j
IsDue c s j (seeking id cur) = id ≡ j
IsDue c s j (reading id base q) =
    (id ≡ j)
    × (next_of q < length s.log)
    × (status_of (slot_at c s.ring (next_of q)).seq (next_of q) ≡ ok)
IsDue c s j (departing id) = ⊥

seat_of-is : (c : Config) (id j : ℕ) → seat_of c id ≡ some j → (id ≡ j) × (j < c.max_consumers)
seat_of-is c id j e = ground (arith, e)

module _ {c : Config} (v : IsRingConfig c) {s : Gathering} (come_about : Unfolds c s)
    (short : length s.log < writing_seq) (i id base : ℕ) where
  -- In every state that the producer and consumers that attach, read and detach at any time bring
  -- about by any interleaving of their accesses, each seen at once by all (sequentially
  -- consistent), with fewer than writing_seq messages stamped: when a consumer, which under
  -- Backpressure has a cursor, has read all bytes of its view and the slot still carries the stamp
  -- it wants, which is what `validate` tests, the bytes read are the message published under that
  -- number. Under Backpressure a consumer that begins at 0 does so before Capacity messages are
  -- stamped.
  pub attached-message :
      (want len : ℕ) (bytes : List ℕ)
      → (c.overflow ≡ backpressure → id < c.max_consumers)
      → s.members i ≡ reading id base (viewing want len bytes)
      → length bytes ≡ len
      → (slot_at c s.ring want).seq ≡ want
      → get_elem? s.log want ≡ some bytes
  attached-message want len bytes heeded at all here =
      let inv = Unfolds-Members v come_about short in
      let k = subst (λ t. MemberOk c s.log s.ring s.pc t (s.got i)) at (inv.member i) in
      accepted-message v short inv.slots inv.producer heeded (k heeded) all here

  module _ (q : ReaderPc) (o : c.overflow ≡ backpressure) (lt : id < c.max_consumers)
      (at : s.members i ≡ reading id base q) where
    place : ReadingOk c s.log s.ring s.pc id base q (s.got i)
    place =
        let inv = Unfolds-Members v come_about short in
        subst (λ t. MemberOk c s.log s.ring s.pc t (s.got i)) at (inv.member i) (λ w. lt)

    -- Under Backpressure, in every state that consumers which come and go bring about by any
    -- interleaving of the accesses, each seen at once by all (sequentially consistent), with fewer
    -- than writing_seq messages stamped, where one that begins at 0 does so before Capacity
    -- messages are stamped: what a consumer with a cursor has committed, oldest first, are exactly
    -- the published messages from the one that it began at up to its `next_`, none missing.
    pub attached-lossless :
        (base ≤ next_of q) × (take base s.log ++ messages (s.got i) ≡ take (next_of q) s.log)
    attached-lossless = GaplessFrom-take s.log base (next_of q) (s.got i) (place.complete o)

    -- Under Backpressure, in every state that consumers which come and go bring about by any
    -- interleaving of the accesses, each seen at once by all (sequentially consistent), with fewer
    -- than writing_seq messages stamped, where one that begins at 0 does so before Capacity
    -- messages are stamped: a consumer with a cursor has not been told lapped, and the message
    -- that it is at, once stamped, keeps its stamp until the consumer commits it.
    pub attached-stamp :
        ((next : ℕ) → q ≢ lapsed next)
        × (next_of q < length s.log → (slot_at c s.ring (next_of q)).seq ≡ next_of q)
    attached-stamp = (
      λ next e.
          let inv = Unfolds-Members v come_about short in
          let k = subst (λ t. ReadingOk c s.log s.ring s.pc id base t (s.got i)) e place in
          omega (arith, k.reader, unlapsed v short inv.slots inv.producer (λ w. lt) k o),
      kept-stamp v (Unfolds-Members v come_about short) o lt place,
    )

-- A consumer that holds a cursor which is not far enough is due.
holder-IsDue :
    {c : Config} {s : Gathering} {j seq : ℕ} (m : Member) (g : Got)
    → IsRingConfig c
    → GatheringInv c s
    → c.overflow ≡ backpressure
    → length s.log < writing_seq
    → seq ≡ length s.log
    → c.capacity ≤ seq
    → (s.ring.cursors j).value ≤ seq - c.capacity
    → holds c m ≡ some j
    → MemberOk c s.log s.ring s.pc m g
    → IsDue c s j m
holder-IsDue outside g v inv o short cur late behind h k = absurd (cc)
holder-IsDue (trying i) g v inv o short cur late behind h k = absurd (cc)
holder-IsDue {c} {j = j} (starting id) g v inv o short cur late behind h k = (seat_of-is c id j h).0
holder-IsDue {c} {j = j} (seated id) g v inv o short cur late behind h k = (seat_of-is c id j h).0
holder-IsDue {c} {j = j} (seeking id at) g v inv o short cur late behind h k =
    (seat_of-is c id j h).0
holder-IsDue {c} {s} {j} {seq} (reading id base q) g v inv o short cur late behind h k =
    let (same, lt) = seat_of-is c id j h in
    let mine = subst (λ (t : ℕ). t < c.max_consumers) (sym same) lt in
    let r = k (λ w. mine) in
    let is = (r.paced o mine).0 in
    let low : (s.ring.cursors id).value ≤ seq - c.capacity =
      subst (λ t. (s.ring.cursors t).value ≤ seq - c.capacity) (sym same) behind in
    let old : next_of q < length s.log = omega (arith, is, low, cur, late, v.at_least_two) in
    (same, old, status_of-ok _ _ (kept-stamp v inv o mine r old))
holder-IsDue {c} {s} {j} (departing id) g v inv o short cur late behind h k =
    let same = (seat_of-is c id j h).0 in
    absurd
      (omega (arith, subst (λ t. (s.ring.cursors t).value ≡ max_u64) same k.1, behind, cur, short))

module _ {c : Config} (v : IsRingConfig c) {s : Gathering} (come_about : Unfolds c s)
    (short : length s.log < writing_seq) where
  -- In every state that the producer and consumers which come and go bring about by any
  -- interleaving of the accesses, each seen at once by all (sequentially consistent), with fewer
  -- than writing_seq messages stamped, where one that begins at 0 does so before Capacity messages
  -- are stamped: when the producer compares a cursor that is still at or below the message in the
  -- slot it wants, a consumer that is there holds that cursor, and it is attaching and has its
  -- cursor still to set, or the message that it is at is published and `do_read` finds it ok. A
  -- consumer that has left, or never came, holds nothing back.
  pub attached-holder :
      (seq j : ℕ) (m : List ℕ)
      → s.pc ≡ comparing seq m j
      → (s.ring.cursors j).value ≤ seq - c.capacity
      → (i : ℕ) × IsDue c s j (s.members i)
  attached-holder seq j m at behind =
      let inv = Unfolds-Members v come_about short in
      let (cur, (o, late), lt, claimed) = subst (PlaceOk c s.log s.ring) at inv.producer in
      let used : (s.ring.cursors j).in_use ≡ true = elim claimed [
        | inl u ↦ u
        | inr last ↦ absurd (omega (arith, last, behind, cur.0, short))
      ] in
      let (i, h) = inv.seats.occupied j lt used in
      (i, holder-IsDue (s.members i) (s.got i) v inv o short cur.0 late behind h (inv.member i))
