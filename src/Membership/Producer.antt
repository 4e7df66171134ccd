-- ===== src/Membership/Producer.antt =====
-- The invariant along the steps of the producer while consumers come and go (`publish` and
-- `await_consumers_past` in include/shimmy/ring.hpp).
use shimmy.Common.{
  ℕ, ◌+◌, ◌<◌, ◌≡◌, inl, inr, refl, sym, ap, List, [], ◌∷◌, ◌++◌, some, arith, length, length-snoc,
  get_elem?, get_elem?-lt,
}
use mathlib.Core.Path.{subst}
use shimmy.Config.{Config}
use shimmy.Ring.{Ring, writing_seq, store_seq, store_len, store_byte}
use shimmy.Ring.Log.{Log}
use shimmy.System.{
  Pc, scanning, comparing, marking, sizing, copying, advancing, Got, Produce, call_overwrite,
  call_first, call_waiting, skip_free, see_claimed, see_behind, see_past, all_past, mark_slot,
  set_len, set_byte, stamp, count,
}
use shimmy.Membership.{Member}
use shimmy.Membership.Invariant.{MembersInv}
use shimmy.Membership.Touching.{
  Members-Carry, Members-pc, Members-enter, Members-touch, Members-stamp,
}

module _ {c : Config} {members : ℕ → Member} {got : ℕ → Got} {log : Log}
    (short : length log < writing_seq) where
  -- Each store of `publish`, at the sequence number of the next message.
  mark-Members :
      (r : Ring) (m : List ℕ)
      → MembersInv c r (marking (length log) m) members got log
      → MembersInv c
          (store_seq c r (length log) writing_seq)
          (sizing (length log) m)
          members
          got
          log
  mark-Members r m inv =
      Members-touch inv (sizing (length log) m) _ short refl (inl refl) (λ id. refl)
        (inv.producer.0, λ _. ground arith)

  set_len-Members :
      (r : Ring) (m : List ℕ)
      → MembersInv c r (sizing (length log) m) members got log
      → MembersInv c
          (store_len c r (length log) (length m))
          (copying (length log) m 0)
          members
          got
          log
  set_len-Members r m inv =
      let (cur, mark) = inv.producer in
      Members-touch inv (copying (length log) m 0) _ short refl (inr refl) (λ id. refl)
        (
          cur,
          λ o. ground (arith, mark o),
          (ground arith, omega arith, λ j b h. absurd (omega arith)),
        )

  set_byte-Members :
      (r : Ring) (m : List ℕ) (i b : ℕ)
      → get_elem? m i ≡ some b
      → MembersInv c r (copying (length log) m i) members got log
      → MembersInv c
          (store_byte c r (length log) i b)
          (copying (length log) m (i + 1))
          members
          got
          log
  set_byte-Members r m i b e inv =
      let (cur, mark, (len, le, fill)) = inv.producer in
      Members-touch inv (copying (length log) m (i + 1)) _ short refl (inr refl) (λ id. refl)
        (
          cur,
          λ o. ground (arith, mark o),
          (
            ground (arith, len),
            omega (arith, get_elem?-lt m i e),
            λ j b' h q. ground (arith, fill j b'),
          ),
        )

  stamp-Members :
      (r : Ring) (m : List ℕ) (i : ℕ)
      → i ≡ length m
      → MembersInv c r (copying (length log) m i) members got log
      → MembersInv c
          (store_seq c r (length log) (length log))
          (advancing (length log))
          members
          got
          (log ++ (m ∷ []))
  stamp-Members r m i e inv =
      let (cur, mark, (len, le, fill)) = inv.producer in
      Members-stamp inv (advancing (length log)) _ m short refl refl refl
        (record { sized = len; filled = λ j b q. fill j b (omega (arith, get_elem?-lt m j q)) q })
        (λ id. length-snoc log m) (length-snoc log m, cur.1)

  -- Every step of the producer keeps the invariant.
  pub Produce-Members :
      {r r' : Ring} {p p' : Pc} {log' : Log}
      → Produce c r log p r' p' log'
      → MembersInv c r p members got log
      → MembersInv c r' p' members got log'
  Produce-Members (call_overwrite m fits o) inv =
      Members-pc inv (marking _ m) refl ((inv.producer, inv.producer), o)
        (λ w id v lt u k h. absurd (cc))
  Produce-Members (call_first m fits o early) inv =
      Members-enter inv (sizing _ m) refl refl ((inv.producer, inv.producer), λ w. cc)
        (λ w id v lt u k h. omega (arith, inv.producer))
  Produce-Members (call_waiting m fits o late) inv =
      Members-pc inv (scanning _ m 0) refl ((inv.producer, inv.producer), (o, late))
        (λ w id v lt u k h. ground arith)
  Produce-Members {r} (skip_free {seq} {i} {m} lt free) inv =
      Members-pc inv (scanning seq m (i + 1)) refl inv.producer
        (λ w id v lt u k h. ground (arith, ap (λ (t : ℕ). (r.cursors t).in_use) {x = id} {y = i}))
  Produce-Members (see_claimed {seq} {i} {m} lt used) inv =
      Members-pc inv (comparing seq m i) refl (inv.producer.0, inv.producer.1, lt, inl used)
        (λ w id v lt u k h. h)
  Produce-Members (see_behind {seq} {i} {m} low) inv =
      Members-pc inv (scanning seq m 0) refl (inv.producer.0, inv.producer.1)
        (λ w id v lt u k h. ground arith)
  Produce-Members {r} (see_past {seq} {i} {m} above) inv =
      let (cur, wait, lt, claimed) = inv.producer in
      Members-pc inv (scanning seq m (i + 1)) refl (cur, wait)
        (λ w id v lt u k h.
          ground (arith, cur.0, wait.1, ap (λ (t : ℕ). (r.cursors t).value) {x = id} {y = i}))
  Produce-Members (all_past {seq} {i} {m} end) inv =
      let (cur, wait) = inv.producer in
      Members-enter inv (sizing seq m) refl refl (cur, λ w. cc) (λ w id v lt u k h. ground arith)
  Produce-Members {r} (mark_slot {seq} {m}) inv =
      let cur = sym inv.producer.0.0 in
      subst (λ t. MembersInv c (store_seq c r t writing_seq) (sizing t m) members got log) cur
        (mark-Members r m (subst (λ t. MembersInv c r (marking t m) members got log) (sym cur) inv))
  Produce-Members {r} (set_len {seq} {m}) inv =
      let cur = sym inv.producer.0.0 in
      subst (λ t. MembersInv c (store_len c r t (length m)) (copying t m 0) members got log) cur
        (set_len-Members r m
          (subst (λ t. MembersInv c r (sizing t m) members got log) (sym cur) inv))
  Produce-Members {r} (set_byte {seq} {i} {m} b e) inv =
      let cur = sym inv.producer.0.0 in
      subst (λ t. MembersInv c (store_byte c r t i b) (copying t m (i + 1)) members got log) cur
        (set_byte-Members r m i b e
          (subst (λ t. MembersInv c r (copying t m i) members got log) (sym cur) inv))
  Produce-Members {r} (stamp {seq} {i} {m} e) inv =
      let cur = sym inv.producer.0.0 in
      subst (λ t. MembersInv c (store_seq c r t t) (advancing t) members got (log ++ (m ∷ []))) cur
        (stamp-Members r m i e
          (subst (λ t. MembersInv c r (copying t m i) members got log) (sym cur) inv))
  Produce-Members (count {seq}) inv =
      Members-Carry inv
        (record {
          cursors = refl;
          reader = λ q k. k;
          keeps = λ s k h. h;
          grows = omega arith;
          pace = λ o id w lt u k h. h;
        })
        inv.slots (omega (arith, inv.producer, short))
