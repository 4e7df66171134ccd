-- ===== src/System/Producer.antt =====
-- The invariant along the steps of the producer (`publish` and `await_consumers_past` in
-- include/shimmy/ring.hpp).
use shimmy.Common.{
  ℕ, ◌+◌, ◌<◌, ◌≡◌, inl, inr, refl, sym, ap, List, [], ◌∷◌, ◌++◌, some, arith, length, length-snoc,
  get_elem?, get_elem?-lt,
}
use mathlib.Core.Path.{subst}
use native.Mathlib.Decide.{ℕ_discrete}
use shimmy.Config.{Config}
use shimmy.Ring.{Ring, writing_seq, store_seq, store_len, store_byte}
use shimmy.Ring.Log.{Log}
use shimmy.System.{
  Pc, scanning, comparing, marking, sizing, copying, advancing, ReaderPc, Got, Produce,
  call_overwrite, call_first, call_waiting, skip_free, see_claimed, see_behind, see_past, all_past,
  mark_slot, set_len, set_byte, stamp, count,
}
use shimmy.System.Invariant.{Inv}
use shimmy.System.Stores.{Inv-pc, Inv-enter, Inv-touch, Inv-stamp}

module _ {c : Config} {n : ℕ} {readers : ℕ → ReaderPc} {got : ℕ → Got} {log : Log}
    (short : length log < writing_seq) where
  -- Each store of `publish`, at the sequence number of the next message.
  mark-Inv :
      (r : Ring) (m : List ℕ)
      → Inv c n r (marking (length log) m) readers got log
      → Inv c n (store_seq c r (length log) writing_seq) (sizing (length log) m) readers got log
  mark-Inv r m inv =
      let (cur, o) = inv.producer in
      Inv-touch (sizing (length log) m) _ short inv refl (inl refl) (inr o) (cur, λ _. ground arith)

  set_len-Inv :
      (r : Ring) (m : List ℕ)
      → Inv c n r (sizing (length log) m) readers got log
      → Inv c n (store_len c r (length log) (length m)) (copying (length log) m 0) readers got log
  set_len-Inv r m inv =
      let (cur, mark) = inv.producer in
      Inv-touch (copying (length log) m 0) _ short inv refl (inr refl) (inl refl) (
        cur,
        λ o. ground (arith, mark o),
        (ground arith, omega arith, λ j b h. absurd (omega arith)),
      )

  set_byte-Inv :
      (r : Ring) (m : List ℕ) (i b : ℕ)
      → get_elem? m i ≡ some b
      → Inv c n r (copying (length log) m i) readers got log
      → Inv c n (store_byte c r (length log) i b) (copying (length log) m (i + 1)) readers got log
  set_byte-Inv r m i b e inv =
      let (cur, mark, (len, le, fill)) = inv.producer in
      Inv-touch (copying (length log) m (i + 1)) _ short inv refl (inr refl) (inl refl) (
        cur,
        λ o. ground (arith, mark o),
        (
          ground (arith, len),
          omega (arith, get_elem?-lt m i e),
          λ j b' h q. ground (arith, fill j b'),
        ),
      )

  stamp-Inv :
      (r : Ring) (m : List ℕ) (i : ℕ)
      → i ≡ length m
      → Inv c n r (copying (length log) m i) readers got log
      → Inv c n
          (store_seq c r (length log) (length log))
          (advancing (length log))
          readers
          got
          (log ++ (m ∷ []))
  stamp-Inv r m i e inv =
      let (cur, mark, (len, le, fill)) = inv.producer in
      Inv-stamp (advancing (length log)) _ m short inv refl refl refl
        (record { sized = len; filled = λ j b q. fill j b (omega (arith, get_elem?-lt m j q)) q })
        (length-snoc log m, cur.1)

  -- Every step of the producer keeps the invariant.
  pub Produce-Inv :
      {r r' : Ring} {p p' : Pc} {log' : Log}
      → Produce c r log p r' p' log'
      → Inv c n r p readers got log
      → Inv c n r' p' readers got log'
  Produce-Inv (call_overwrite m fits o) inv =
      Inv-pc (marking _ m) inv refl ((inv.producer, inv.producer), o)
  Produce-Inv (call_first m fits o early) inv =
      Inv-enter (sizing _ m) inv refl refl ((inv.producer, inv.producer), λ w. cc)
        (λ o' i h. omega (arith, inv.producer))
  Produce-Inv (call_waiting m fits o late) inv =
      Inv-pc (scanning _ m 0) inv refl
        ((inv.producer, inv.producer), (o, late, λ j h. absurd (omega arith)))
  Produce-Inv {r} (skip_free {seq} {i} {m} lt free) inv =
      let (cur, (o, late, seen)) = inv.producer in
      Inv-pc (scanning seq m (i + 1)) inv refl (
        cur,
        (
          o,
          late,
          λ j h u. elim (ℕ_discrete j i) [
            | yes same ↦ absurd (ground (arith, ap (λ (t : ℕ). (r.cursors t).in_use) same))
            | no other ↦ seen j (omega arith) u
          ],
        ),
      )
  Produce-Inv (see_claimed {seq} {i} {m} lt used) inv =
      Inv-pc (comparing seq m i) inv refl (inv.producer.0, inv.producer.1, used)
  Produce-Inv (see_behind {seq} {i} {m} low) inv =
      let (cur, (o, late, seen), used) = inv.producer in
      Inv-pc (scanning seq m 0) inv refl (cur, (o, late, λ j h. absurd (omega arith)))
  Produce-Inv {r} (see_past {seq} {i} {m} above) inv =
      let (cur, (o, late, seen), used) = inv.producer in
      Inv-pc (scanning seq m (i + 1)) inv refl (
        cur,
        (
          o,
          late,
          λ j h u. elim (ℕ_discrete j i) [
            | yes same ↦ rw same above
            | no other ↦ seen j (omega arith) u
          ],
        ),
      )
  Produce-Inv (all_past {seq} {i} {m} end) inv =
      let (cur, (o, late, seen)) = inv.producer in
      Inv-enter (sizing seq m) inv refl refl (cur, λ w. cc)
        (λ o' j h. omega (arith, seen j (omega (arith, inv.few o)) (inv.held o j h).used))
  Produce-Inv {r} (mark_slot {seq} {m}) inv =
      let cur = sym inv.producer.0.0 in
      subst (λ t. Inv c n (store_seq c r t writing_seq) (sizing t m) readers got log) cur
        (mark-Inv r m (subst (λ t. Inv c n r (marking t m) readers got log) (sym cur) inv))
  Produce-Inv {r} (set_len {seq} {m}) inv =
      let cur = sym inv.producer.0.0 in
      subst (λ t. Inv c n (store_len c r t (length m)) (copying t m 0) readers got log) cur
        (set_len-Inv r m (subst (λ t. Inv c n r (sizing t m) readers got log) (sym cur) inv))
  Produce-Inv {r} (set_byte {seq} {i} {m} b e) inv =
      let cur = sym inv.producer.0.0 in
      subst (λ t. Inv c n (store_byte c r t i b) (copying t m (i + 1)) readers got log) cur
        (set_byte-Inv r m i b e
          (subst (λ t. Inv c n r (copying t m i) readers got log) (sym cur) inv))
  Produce-Inv {r} (stamp {seq} {i} {m} e) inv =
      let cur = sym inv.producer.0.0 in
      subst (λ t. Inv c n (store_seq c r t t) (advancing t) readers got (log ++ (m ∷ []))) cur
        (stamp-Inv r m i e (subst (λ t. Inv c n r (copying t m i) readers got log) (sym cur) inv))
  Produce-Inv (count {seq}) inv = record {
    few = inv.few;
    owned = inv.owned;
    slots = inv.slots;
    producer = omega (arith, inv.producer);
    reader = inv.reader;
    ordered = inv.ordered;
    held = inv.held;
    complete = inv.complete;
  }
