-- ===== src/Consumer/Lifetime.antt =====
-- The constructors and the destructor of `Consumer` in include/shimmy/ring.hpp: a cursor is claimed
-- once and given back once, also by a consumer that has been moved.
use shimmy.Common.{ℕ, ◌<◌, ◌≡◌, inl, inr, refl, sym, ap, true, false, ◌==◌, leb, update, arith}
use mathlib.Core.Path.{subst}
use shimmy.Config.{Config, Overflow, overwrite, backpressure}
use shimmy.Ring.{Ring, register_consumer, unregister_consumer}
use shimmy.Ring.Registration.{Registered, claimed, register_consumer-Registered}
use shimmy.Consumer.{Consumer, fresh, attach, attach_for, detach, detach_for, move}

-- The ring is as before, but for the value of cursors that are not in use.
pub record Restored (r r' : Ring) : Type 0 where
  pub count : r'.next_publish ≡ r.next_publish
  pub slots : r'.slots ≡ r.slots
  pub in_use : (j : ℕ) → (r'.cursors j).in_use ≡ (r.cursors j).in_use
  pub values : (j : ℕ) → (r.cursors j).in_use ≡ true → (r'.cursors j).value ≡ (r.cursors j).value

Restored-refl : {r r' : Ring} → r' ≡ r → Restored r r'
Restored-refl {r} e =
    subst (Restored r) (sym e)
      (record { count = refl; slots = refl; in_use = λ j. refl; values = λ j u. refl })

unregister-claimed :
    (c : Config) (r : Ring) (id : ℕ)
    → id < c.max_consumers
    → (r.cursors id).in_use ≡ false
    → Restored r (unregister_consumer c (record r { cursors = update r.cursors id claimed }) id)
unfolding unregister_consumer
unregister-claimed c r id lt free =
    let within : leb c.max_consumers id ≡ false = ground arith in
    rw within (record {
      count = refl;
      slots = refl;
      in_use = λ j. ground (arith, ap (λ (t : ℕ). (r.cursors t).in_use) {x = id} {y = j});
      values = λ j u. ground (arith, ap (λ (t : ℕ). (r.cursors t).in_use) {x = id} {y = j});
    })

detach_for-Registered :
    (c : Config) (r : Ring) (id : ℕ) (r' : Ring)
    → Registered c.max_consumers r id r'
    → Restored r (detach_for backpressure c r' (fresh id))
unfolding detach_for
detach_for-Registered c r id r' g = elim g.outcome [
  | inl full ↦
      let none_left : (id == c.max_consumers) ≡ true = ground (arith, full.0) in
      rw none_left (Restored-refl full.1)
  | inr new ↦
      let claims : (id == c.max_consumers) ≡ false = ground (arith, new.0) in
      rw claims (
        subst (λ t. Restored r (unregister_consumer c t id)) (sym new.2)
          (unregister-claimed c r id new.0 new.1))
]

detach_for-moved :
    (o : Overflow) (c : Config) (r : Ring) (k : Consumer)
    → detach_for o c r (record k { cursor_id = c.max_consumers }) ≡ r
unfolding detach_for
detach_for-moved overwrite c r k = refl
detach_for-moved backpressure c r k = ground arith

detach_for-attach_for :
    (o : Overflow) (c : Config) (r : Ring)
    → Restored r (detach_for o c (attach_for o c r).1 (attach_for o c r).0)
unfolding attach_for detach_for
detach_for-attach_for overwrite c r = Restored-refl refl
detach_for-attach_for backpressure c r =
    detach_for-Registered c r (register_consumer c r).0 (register_consumer c r).1
      (register_consumer-Registered c r)

-- When a consumer is constructed, moved, and both objects are destroyed with nothing in between,
-- under either policy: the destructor of the one moved from leaves the ring as it is, and after
-- both the ring has its count and slots from before, the same cursors in use, and the same values
-- in those.
pub detach-move :
    (c : Config) (r : Ring)
    → let (k, r') = attach c r in
      let (target, source) = move c k in
      (detach c r' source ≡ r') × Restored r (detach c (detach c r' source) target)
unfolding attach move detach
detach-move c r =
    let kept =
      detach_for-moved c.overflow c (attach_for c.overflow c r).1 (attach_for c.overflow c r).0 in
    (
      kept,
      subst (λ t. Restored r (detach_for c.overflow c t (attach_for c.overflow c r).0)) (sym kept)
          (detach_for-attach_for c.overflow c r),
    )
