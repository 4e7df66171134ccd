-- ===== src/System/Reading.antt =====
-- What the steps of a reader rest on: the statuses of `do_read`, the bytes of a view, and
-- `publish_cursor` (include/shimmy/ring.hpp), in a state that satisfies the invariant.
use shimmy.Common.{
  ℕ, suc, ◌+◌, ◌≤◌, ◌<◌, ◌≡◌, ◌≢◌, inl, inr, sym, ap, ◌∙◌, Bool, true, List, [], ◌∷◌, ◌++◌, some,
  arith, take, take_all, take-snoc, length, length-snoc, get_elem?, get_elem?-some,
}
use mathlib.Core.Path.{subst}
use shimmy.Config.{Config, IsRingConfig, Overflow-cases, overwrite, index}
use shimmy.Config.Index.{index-collide}
use shimmy.Ring.{Ring, Slot, slot_at, writing_seq, empty_seq}
use shimmy.Ring.Log.{Log, Carries, Slots, InFlux}
use shimmy.Consumer.{ok, lapped, status_of}
use shimmy.System.{
  Pc, idle, scanning, comparing, marking, sizing, copying, advancing, ReaderPc, viewing, Got,
}
use shimmy.System.Invariant.{Inv, PcOk, busy, next_of, Views, IsPrefix, ReaderOk}

pub ok_stamp : (stamp want : ℕ) → status_of stamp want ≡ ok → stamp ≡ want
unfolding status_of
ok_stamp stamp want h = ground arith

lapped_stamp :
    (stamp want : ℕ)
    → status_of stamp want ≡ lapped
    → (want < stamp) × (stamp ≢ writing_seq) × (stamp ≢ empty_seq)
unfolding status_of
lapped_stamp stamp want h = ground arith

module _ {c : Config} (v : IsRingConfig c) {log : Log} (short : length log < writing_seq)
    {flux : Bool} {slots : ℕ → Slot} (s : Slots c log flux slots) where
  -- A stamp that is the number wanted is that of a published message.
  pub find_ok-lt :
      (next : ℕ)
      → next ≤ length log
      → status_of (slots (index c next)).seq next ≡ ok
      → next < length log
  find_ok-lt next le e = ground (arith, ok_stamp _ next e, s.ceil next)

  -- A lap is noticed only when the message is gone.
  pub find_lapped-gone :
      (next : ℕ)
      → status_of (slots (index c next)).seq next ≡ lapped
      → next + c.capacity < length log
  find_lapped-gone next e = ground (
    arith,
    lapped_stamp _ next e,
    s.ceil next,
    s.home next,
    index-collide v next (slots (index c next)).seq,
  )

  -- The length that a reader loads, before any byte.
  pub Views-load_len :
      (want : ℕ) → want < length log → Views c log flux slots want (slots (index c want)).len []
  Views-load_len want old here =
      let (m, e) = get_elem?-some log want old in
      elim (s.content want m e here) [
        | inl f ↦ inl f
        | inr carried ↦ inr (λ k q. ground (arith, carried.sized))
      ]

  IsPrefix-snoc :
      (want len : ℕ) (bytes : List ℕ) (slot : Slot) (m : List ℕ)
      → get_elem? log want ≡ some m
      → Carries slot m
      → length bytes < len
      → IsPrefix log want len bytes
      → IsPrefix log want len (bytes ++ (slot.payload (length bytes) ∷ []))
  IsPrefix-snoc want len bytes slot m e carried more view k q =
      let same : m ≡ k = ground arith in
      let (len_is, le, prefix) = view k q in
      let (b, at_b) = get_elem?-some k (length bytes) (omega arith) in
      let grown : suc (length bytes) ≡ length (bytes ++ (slot.payload (length bytes) ∷ [])) =
        omega (arith, length-snoc bytes (slot.payload (length bytes))) in
      let b_is =
        carried.filled (length bytes) b
          (subst (λ t. get_elem? t (length bytes) ≡ some b) (sym same) at_b) in
      (
        len_is,
        omega (arith, length-snoc bytes (slot.payload (length bytes))),
        subst (λ t. bytes ++ (slot.payload (length bytes) ∷ []) ≡ take t k) grown
            (ap (λ t. t ++ (slot.payload (length bytes) ∷ [])) prefix
              ∙ ap (λ t. take (length bytes) k ++ (t ∷ [])) b_is
              ∙ sym (take-snoc k (length bytes) at_b)),
      )

  -- One more byte.
  pub Views-load_byte :
      (want len : ℕ) (bytes : List ℕ)
      → want < length log
      → length bytes < len
      → Views c log flux slots want len bytes
      → Views c log flux slots want len
          (bytes ++ ((slots (index c want)).payload (length bytes) ∷ []))
  Views-load_byte want len bytes old more view here =
      let (m, e) = get_elem?-some log want old in
      elim (s.content want m e here) [
        | inl f ↦ inl f
        | inr carried ↦ elim (view here) [
          | inl f ↦ inl f
          | inr prefix ↦
              inr (IsPrefix-snoc want len bytes (slots (index c want)) m e carried more prefix)
        ]
      ]

-- Under Overwrite the slot that the producer is writing carries the marker.
marked :
    (c : Config) (log : Log) (r : Ring) (p : Pc)
    → busy p ≡ true
    → PcOk c log r p
    → c.overflow ≡ overwrite
    → (slot_at c r (length log)).seq ≡ writing_seq
marked c log r idle b v o = absurd (ground arith)
marked c log r (scanning seq m i) b v o = absurd (ground arith)
marked c log r (comparing seq m i) b v o = absurd (ground arith)
marked c log r (marking seq m) b v o = absurd (ground arith)
marked c log r (sizing seq m) b v o = subst (λ t. (slot_at c r t).seq ≡ writing_seq) v.0.0 (v.1 o)
marked c log r (copying seq m i) b v o =
    subst (λ t. (slot_at c r t).seq ≡ writing_seq) v.0.0 (v.1 o)
marked c log r (advancing seq) b v o = absurd (ground arith)

-- So a slot that still has a reader's stamp is not being written: the marker is no such stamp, and
-- under Backpressure the producer is less than a lap ahead of every reader.
module _ {c : Config} (v : IsRingConfig c) {n : ℕ} {r : Ring} {p : Pc} {readers : ℕ → ReaderPc}
    {got : ℕ → Got} {log : Log} (short : length log < writing_seq)
    (inv : Inv c n r p readers got log) where
  pub stamp-steady :
      (i want : ℕ)
      → i < n
      → next_of (readers i) ≡ want
      → want < length log
      → (slot_at c r want).seq ≡ want
      → InFlux c log (busy p) want
      → ⊥
  stamp-steady i want few at old here (same, b) = elim (Overflow-cases c.overflow) [
    | inl o ↦ ground (arith, marked c log r p b inv.producer o)
    | inr o ↦
        let held = inv.held o i few in
        let near = rw b at held.near in
        omega (arith, held.here, index-collide v want (length log) same old)
  ]

  -- What `validate` accepts is the message.
  pub validate-message :
      (i want len : ℕ) (bytes : List ℕ)
      → i < n
      → readers i ≡ viewing want len bytes
      → length bytes ≡ len
      → (slot_at c r want).seq ≡ want
      → get_elem? log want ≡ some bytes
  validate-message i want len bytes few at all here =
      let ok = subst (λ q. ReaderOk c log (busy p) r.slots q) at (inv.reader i) in
      let (m, e) = get_elem?-some log want ok.0 in
      elim (ok.1 here) [
        | inl flux ↦ absurd (stamp-steady i want few (ap next_of at) ok.0 here flux)
        | inr prefix ↦
            let (len_is, le, is) = prefix m e in
            subst (λ t. get_elem? log want ≡ some t)
              (sym (is ∙ take_all (length bytes) m (omega arith))) e
      ]
