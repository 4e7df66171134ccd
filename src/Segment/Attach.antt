-- ===== src/Segment/Attach.antt =====
-- `attach_consumer_at_current` of include/shimmy/shm_segment.hpp, and why the producer does not
-- stall on a consumer that attaches by it.
use shimmy.Common.{
  ℕ, ◌-◌, ◌≤◌, ◌<◌, ◌≡◌, ◌⊎◌, inl, inr, refl, sym, ap, true, false, ◌==◌, ltb, update, arith,
  fun_ext,
}
use mathlib.Core.Path.{subst}
use native.Mathlib.Decide.{ℕ_discrete}
use shimmy.Config.{Config, IsRingConfig, Overflow, overwrite, backpressure}
use shimmy.Ring.{Ring, Cursor, produced, register_consumer}
use shimmy.Ring.Cursors.{IsClear}
use shimmy.Ring.Registration.{Registered, claimed, register_consumer-Registered}
use shimmy.Consumer.{Consumer, attach, attach_for, seek, fresh, publish_cursor_for}

-- A consumer is constructed, and then sought to the producer's count.
unfoldable pub attach_consumer_at_current : Config → Ring → Consumer × Ring
unfolding attach seek
attach_consumer_at_current c r = let (k, r') = attach c r in seek c r' k (produced r')

-- The ring with cursor `id` claimed at the producer's count.
abbrev pub attached : Ring → ℕ → Ring
attached r id = record r {
  cursors = update r.cursors id (record { value = r.next_publish; in_use = true });
}

-- What the attachment has done: it holds a cursor that was free, at the producer's count; or none
-- was free, and the ring knows nothing of the consumer.
pub record Attached (c : Config) (r : Ring) (k : Consumer) (r' : Ring) : Type 0 where
  pub starts : k.next ≡ r.next_publish
  pub outcome :
      ((k.cursor_id < c.max_consumers)
        × ((r.cursors k.cursor_id).in_use ≡ false)
        × (r' ≡ attached r k.cursor_id))
      ⊎ (k.cursor_id ≡ c.max_consumers)
        × ((j : ℕ) → j < c.max_consumers → (r.cursors j).in_use ≡ true)
        × (r' ≡ r)

-- The consumer at the producer's count, and the ring after its `seek`.
abbrev sought : Config → ℕ → Ring → Consumer × Ring
unfolding publish_cursor_for
sought c id r =
    let k = record (fresh id) { next = r.next_publish } in
    (k, publish_cursor_for backpressure c r k)

sought_full :
    (c : Config) (r : Ring) (id : ℕ)
    → id ≡ c.max_consumers
    → ((j : ℕ) → j < id → (r.cursors j).in_use ≡ true)
    → Attached c r (sought c id r).0 (sought c id r).1
unfolding publish_cursor_for
sought_full c r id e first =
    let none_left : (id == c.max_consumers) ≡ true = ground arith in
    rw none_left (record { starts = refl; outcome = inr (e, λ j h. first j (omega arith), refl) })

sought_new :
    (c : Config) (r : Ring) (id : ℕ)
    → id < c.max_consumers
    → (r.cursors id).in_use ≡ false
    → let r' = record r { cursors = update r.cursors id claimed } in
      Attached c r (sought c id r').0 (sought c id r').1
unfolding publish_cursor_for
sought_new c r id lt free =
    let claims : (id == c.max_consumers) ≡ false = ground arith in
    let within : ltb id c.max_consumers ≡ true = ground arith in
    rw (claims, within)
      (record {
        starts = refl;
        outcome = inl (
          lt,
          free,
          ap (λ (f : ℕ → Cursor). record r { cursors = f }) (fun_ext (λ j. ground arith)),
        );
      })

sought-Attached :
    (c : Config) (r : Ring) (id : ℕ) (r' : Ring)
    → Registered c.max_consumers r id r'
    → Attached c r (sought c id r').0 (sought c id r').1
sought-Attached c r id r' g = elim g.outcome [
  | inl full ↦
      subst (λ t. Attached c r (sought c id t).0 (sought c id t).1) (sym full.1)
        (sought_full c r id full.0 g.first)
  | inr new ↦
      subst (λ t. Attached c r (sought c id t).0 (sought c id t).1) (sym new.2)
        (sought_new c r id new.0 new.1)
]

attach_seek_is :
    (o : Overflow) (c : Config) (r : Ring)
    → o ≡ backpressure
    → Attached c r
        (record (attach_for o c r).0 { next = produced (attach_for o c r).1 })
        (publish_cursor_for o c
          (attach_for o c r).1
          (record (attach_for o c r).0 { next = produced (attach_for o c r).1 }))
unfolding attach_for sought publish_cursor_for
attach_seek_is overwrite c r e = absurd (cc)
attach_seek_is backpressure c r e =
    let reg = register_consumer c r in
    sought-Attached c r reg.0 reg.1 (register_consumer-Registered c r)

-- Under Backpressure, `attach_consumer_at_current` gives a consumer whose `next_` is the
-- producer's count. It either holds a cursor that was free, now in use at that count with the rest
-- of the ring unchanged, or all cursors are in use and it holds none, with the whole ring
-- unchanged.
pub attach_consumer_at_current-Attached :
    (c : Config) (r : Ring)
    → c.overflow ≡ backpressure
    → let (k, r') = attach_consumer_at_current c r in Attached c r k r'
unfolding attach_consumer_at_current
attach_consumer_at_current-Attached c r o = attach_seek_is c.overflow c r o

attached-IsClear :
    (c : Config) (r : Ring) (id : ℕ)
    → 1 ≤ c.capacity
    → c.capacity ≤ r.next_publish
    → IsClear c r.cursors (r.next_publish - c.capacity)
    → IsClear c (attached r id).cursors (r.next_publish - c.capacity)
attached-IsClear c r id pos full clear j lt used = elim (ℕ_discrete id j) [
  | yes same ↦ ground arith
  | no away ↦ ground (arith, clear j lt)
]

-- Under the static assertions of `Ring` and Backpressure, with Capacity messages or more published
-- and no cursor holding the producer back from its next slot, no cursor holds it back either after
-- a consumer has attached by `attach_consumer_at_current`.
pub attach_consumer_at_current-IsClear :
    (c : Config) (r : Ring)
    → IsRingConfig c
    → c.overflow ≡ backpressure
    → c.capacity ≤ r.next_publish
    → IsClear c r.cursors (r.next_publish - c.capacity)
    → IsClear c (attach_consumer_at_current c r).1.cursors (r.next_publish - c.capacity)
attach_consumer_at_current-IsClear c r v o full clear =
    elim (attach_consumer_at_current-Attached c r o).outcome [
      | inl new ↦
          subst (λ t. IsClear c t.cursors (r.next_publish - c.capacity)) (sym new.2)
            (attached-IsClear c r _ (omega (arith, v.at_least_two)) full clear)
      | inr none_left ↦
          subst (λ t. IsClear c t.cursors (r.next_publish - c.capacity)) (sym none_left.2) clear
    ]
