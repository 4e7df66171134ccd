-- ===== src/Membership/Touching.antt =====
-- The stores of the producer while consumers come and go (`publish` in include/shimmy/ring.hpp), by
-- what they leave of the slots.
use shimmy.Common.{
  ℕ, ◌+◌, ◌≤◌, ◌<◌, ◌≡◌, ◌⊎◌, refl, sym, true, false, List, [], ◌∷◌, ◌++◌, arith, length,
  length-snoc, get_elem?-append, update,
}
use mathlib.Core.Path.{subst}
use shimmy.Config.{Config, backpressure, index}
use shimmy.Ring.{Ring, Slot, writing_seq}
use shimmy.Ring.Log.{Log, Slots, Carries, Slots-touch, Slots-publish, Slots-busy}
use shimmy.Ring.Seats.{Seats}
use shimmy.System.{Pc, Got}
use shimmy.System.Invariant.{busy}
use shimmy.System.Growth.{ReaderOk-touch, ReaderOk-busy, ReaderOk-publish}
use shimmy.Membership.{Member}
use shimmy.Membership.Invariant.{MembersInv, PlaceOk, holds, reach}
use shimmy.Membership.Carry.{Carry, MemberOk-carry}

module _ {c : Config} {members : ℕ → Member} {got : ℕ → Got} {log : Log} {r : Ring} {p : Pc}
    (inv : MembersInv c r p members got log) where
  pub Members-Carry :
      {log' : Log} {r' : Ring} {p' : Pc}
      → Carry c log r p log' r' p'
      → Slots c log' (busy p') r'.slots
      → PlaceOk c log' r' p'
      → MembersInv c r' p' members got log'
  Members-Carry carry slots place = record {
    slots = slots;
    producer = place;
    seats =
        subst (λ t. Seats c.max_consumers t (λ i. holds c (members i))) (sym carry.cursors)
          inv.seats;
    member = λ i.
        MemberOk-carry carry (members i) (got i) (λ id e. (inv.seats.in_range i id e).1)
          (inv.member i);
  }

  -- What a step owes of the pace.
  abbrev Pace : Log → Pc → Type 0
  Pace log' p' =
      c.overflow ≡ backpressure
      → (id v : ℕ) → id < c.max_consumers
      → (r.cursors id).in_use ≡ true
      → ((r.cursors id).value ≡ v) ⊎ ((r.cursors id).value ≡ 0)
      → reach p log id ≤ v + c.capacity
      → reach p' log' id ≤ v + c.capacity

  -- A step that stores nothing, and neither takes nor leaves the slot.
  pub Members-pc :
      (p' : Pc)
      → busy p' ≡ busy p
      → PlaceOk c log r p'
      → Pace log p'
      → MembersInv c r p' members got log
  Members-pc p' e place pace =
      Members-Carry
        (record {
          cursors = refl;
          reader = λ q v. rw e v;
          keeps = λ s m h. h;
          grows = omega arith;
          pace = pace;
        })
        (rw e inv.slots) place

  -- The producer takes the slot.
  pub Members-enter :
      (p' : Pc)
      → busy p ≡ false
      → busy p' ≡ true
      → PlaceOk c log r p'
      → Pace log p'
      → MembersInv c r p' members got log
  Members-enter p' out in_ place pace =
      Members-Carry
        (record {
          cursors = refl;
          reader = λ q v. rw in_ (ReaderOk-busy c log r.slots q (rw out at v));
          keeps = λ s m h. h;
          grows = omega arith;
          pace = pace;
        })
        (rw in_ (Slots-busy (rw out at inv.slots))) place

  -- A store to the slot of the next message.
  pub Members-touch :
      (p' : Pc) (new : Slot)
      → length log < writing_seq
      → busy p' ≡ true
      → (new.seq ≡ writing_seq) ⊎ (new.seq ≡ (r.slots (index c (length log))).seq)
      → ((id : ℕ) → reach p' log id ≡ reach p log id)
      → let r' = record r { slots = update r.slots (index c (length log)) new } in
        PlaceOk c log r' p' → MembersInv c r' p' members got log
  Members-touch p' new short in_ keep same place =
      Members-Carry
        (record {
          cursors = refl;
          reader = λ q v. rw in_ (ReaderOk-touch c log r.slots (busy p) new q v);
          keeps = λ s m h. h;
          grows = omega arith;
          pace = λ o id v lt u k h. omega (arith, same id, h);
        })
        (rw in_ (Slots-touch short (busy p) new inv.slots keep)) place

  -- The last store: the slot gets its stamp.
  pub Members-stamp :
      (p' : Pc) (new : Slot) (m : List ℕ)
      → length log < writing_seq
      → busy p ≡ true
      → busy p' ≡ false
      → new.seq ≡ length log
      → Carries new m
      → ((id : ℕ) → reach p' (log ++ (m ∷ [])) id ≡ reach p log id)
      → let r' = record r { slots = update r.slots (index c (length log)) new } in
        PlaceOk c (log ++ (m ∷ [])) r' p' → MembersInv c r' p' members got (log ++ (m ∷ []))
  Members-stamp p' new m short in_ out stamped carried same place =
      Members-Carry
        (record {
          cursors = refl;
          reader = λ q v. rw out (ReaderOk-publish c log r.slots new m q stamped (rw in_ at v));
          keeps = λ s k h. get_elem?-append log (m ∷ []) s h;
          grows = omega (arith, length-snoc log m);
          pace = λ o id v lt u k h. omega (arith, same id, h);
        })
        (rw out (Slots-publish short (rw in_ at inv.slots) new m stamped carried)) place
