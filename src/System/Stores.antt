-- ===== src/System/Stores.antt =====
-- What a step of the producer does to the invariant, by what it does to the slot of the next message:
-- nothing, taking it, storing to it, stamping it (`publish` in include/shimmy/ring.hpp).
use shimmy.Common.{
  ℕ, ◌+◌, ◌≤◌, ◌<◌, ◌≡◌, ◌⊎◌, inl, inr, true, false, List, [], ◌∷◌, ◌++◌, length, length-snoc,
  update,
}
use shimmy.Config.{Config, overwrite, backpressure, index}
use shimmy.Ring.{Ring, Slot, writing_seq}
use shimmy.Ring.Log.{Log, Carries, Slots-touch, Slots-publish, Slots-busy}
use shimmy.System.{Pc, ReaderPc, Got}
use shimmy.System.Invariant.{Inv, PcOk, busy, next_of}
use shimmy.System.Growth.{
  ReaderOk-touch, ReaderOk-busy, ReaderOk-publish, InOrder-grow, Gapless-grow,
}

module _ {c : Config} {n : ℕ} {readers : ℕ → ReaderPc} {got : ℕ → Got} {log : Log} {r : Ring} where
  -- A step that stores nothing, and neither takes nor leaves the slot.
  pub Inv-pc :
      {p : Pc} (p' : Pc)
      → Inv c n r p readers got log
      → busy p' ≡ busy p
      → PcOk c log r p'
      → Inv c n r p' readers got log
  Inv-pc p' inv e ok = record {
    few = inv.few;
    owned = inv.owned;
    slots = rw e inv.slots;
    producer = ok;
    reader = λ i. rw e (inv.reader i);
    ordered = inv.ordered;
    held = λ o i h. rw e (inv.held o i h);
    complete = inv.complete;
  }

  -- The producer takes the slot, with nobody behind.
  pub Inv-enter :
      {p : Pc} (p' : Pc)
      → Inv c n r p readers got log
      → busy p ≡ false
      → busy p' ≡ true
      → PcOk c log r p'
      → (c.overflow ≡ backpressure
          → (i : ℕ) → i < n
          → length log + 1 ≤ (r.cursors i).value + c.capacity)
      → Inv c n r p' readers got log
  Inv-enter p' inv out in_ ok clear = record {
    few = inv.few;
    owned = inv.owned;
    slots = rw in_ (Slots-busy (rw out at inv.slots));
    producer = ok;
    reader = λ i. rw in_ (ReaderOk-busy c log r.slots (readers i) (rw out at (inv.reader i)));
    ordered = inv.ordered;
    held = λ o i h.
        let k = inv.held o i h in
        record { used = k.used; here = k.here; near = rw in_ (clear o i h) };
    complete = inv.complete;
  }

  -- A store to the slot of the next message.
  pub Inv-touch :
      {p : Pc} (p' : Pc) (new : Slot)
      → length log < writing_seq
      → Inv c n r p readers got log
      → busy p' ≡ true
      → (new.seq ≡ writing_seq) ⊎ (new.seq ≡ (r.slots (index c (length log))).seq)
      → (busy p ≡ true) ⊎ (c.overflow ≡ overwrite)
      → let r' = record r { slots = update r.slots (index c (length log)) new } in
        PcOk c log r' p' → Inv c n r' p' readers got log
  Inv-touch {p} p' new short inv in_ keep taken ok = record {
    few = inv.few;
    owned = inv.owned;
    slots = rw in_ (Slots-touch short (busy p) new inv.slots keep);
    producer = ok;
    reader = λ i. rw in_ (ReaderOk-touch c log r.slots (busy p) new (readers i) (inv.reader i));
    ordered = inv.ordered;
    held = λ o i h.
        let k = inv.held o i h in
        record {
          used = k.used;
          here = k.here;
          near = elim taken [ inl b ↦ rw in_ (rw b at k.near) | inr w ↦ absurd (cc) ];
        };
    complete = inv.complete;
  }

  -- The last store: the slot gets its stamp.
  pub Inv-stamp :
      {p : Pc} (p' : Pc) (new : Slot) (m : List ℕ)
      → length log < writing_seq
      → Inv c n r p readers got log
      → busy p ≡ true
      → busy p' ≡ false
      → new.seq ≡ length log
      → Carries new m
      → let r' = record r { slots = update r.slots (index c (length log)) new } in
        PcOk c (log ++ (m ∷ [])) r' p' → Inv c n r' p' readers got (log ++ (m ∷ []))
  Inv-stamp {p} p' new m short inv in_ out stamped carried ok = record {
    few = inv.few;
    owned = inv.owned;
    slots = rw out (Slots-publish short (rw in_ at inv.slots) new m stamped carried);
    producer = ok;
    reader = λ i.
        rw out
          (ReaderOk-publish c log r.slots new m (readers i) stamped (rw in_ at (inv.reader i)));
    ordered = λ i. InOrder-grow log m (next_of (readers i)) (got i) (inv.ordered i);
    held = λ o i h.
        let k = inv.held o i h in
        record {
          used = k.used;
          here = k.here;
          near = rw out (rw (length-snoc log m) (rw in_ at k.near));
        };
    complete = λ o i h. Gapless-grow log m (next_of (readers i)) (got i) (inv.complete o i h);
  }
