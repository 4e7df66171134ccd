-- ===== src/Consumer/Refine.antt =====
-- `read`, `validate`, `commit`, `resync` and `read_copy` of include/shimmy/ring.hpp against the
-- channel, on a ring at rest.
use shimmy.Common.{
  ℕ, ◌+◌, ◌≤◌, ◌<◌, ◌≡◌, inl, inr, refl, sym, ap, ==_iff, if◌then◌else◌, leb, arith, Bool-cases,
  take, take_all, length, [], ◌∙◌,
}
use shimmy.Config.{Config, IsRingConfig, Overflow, overwrite, backpressure}
use shimmy.Ring.{Ring, slot_at, produced, writing_seq}
use shimmy.Ring.Log.{Log}
use shimmy.Ring.Publish.{Logs}
use shimmy.Consumer.{
  Consumer, Status, ok, empty, lapped, status_of, settle, view_for, read, span, validate, read_copy,
  copy_for, resync, commit, publish_cursor, publish_cursor_for,
}
use shimmy.Consumer.Channel.{answer, answer-cases, IsThere}
use shimmy.Consumer.Reads.{
  status_of-answer, view-IsThere, stamp_resident, stamp_lapped, span-Carries, Carries-IsThere,
}

-- `read` by the status that `do_read` finds.
read_by_status :
    (c : Config) (r : Ring) (k : Consumer) (st : Status)
    → status_of (slot_at c r k.next).seq k.next ≡ st
    → read c r k ≡ (view_for st c r (settle k st), settle k st)
unfolding read
read_by_status c r k ok e =
    ap (λ s. (view_for (settle k s).last_status c r (settle k s), settle k s)) e
read_by_status c r k empty e =
    ap (λ s. (view_for (settle k s).last_status c r (settle k s), settle k s)) e
read_by_status c r k lapped e =
    ap (λ s. (view_for (settle k s).last_status c r (settle k s), settle k s)) e

copy_by_status :
    (c : Config) (r : Ring) (k : Consumer) (out_cap : ℕ) (st : Status)
    → status_of (slot_at c r k.next).seq k.next ≡ st
    → read_copy c r k out_cap ≡ copy_for st c r (settle k st) out_cap
unfolding read_copy
copy_by_status c r k out_cap ok e =
    ap (λ s. copy_for (settle k s).last_status c r (settle k s) out_cap) e
copy_by_status c r k out_cap empty e =
    ap (λ s. copy_for (settle k s).last_status c r (settle k s) out_cap) e
copy_by_status c r k out_cap lapped e =
    ap (λ s. copy_for (settle k s).last_status c r (settle k s) out_cap) e

copy_for_valid :
    (c : Config) (r : Ring) (k : Consumer) (out_cap : ℕ)
    → (slot_at c r k.read_seq).seq ≡ k.read_seq
    → copy_for ok c r k out_cap ≡ (
      span (slot_at c r k.read_seq).payload 0 (
          if leb (slot_at c r k.read_seq).len out_cap
          then (slot_at c r k.read_seq).len
          else out_cap),
      (commit c r k).0,
      (commit c r k).1,
    )
unfolding copy_for
copy_for_valid c r k out_cap e = rw ((==_iff _ _).1 e, copy_for)

slots-publish_cursor_for :
    (o : Overflow) (c : Config) (r : Ring) (k : Consumer)
    → (publish_cursor_for o c r k).slots ≡ r.slots
unfolding publish_cursor_for
slots-publish_cursor_for overwrite c r k = refl
slots-publish_cursor_for backpressure c r k = ground arith

-- The cursor of a consumer is no part of the slots.
pub slots-publish_cursor :
    (c : Config) (r : Ring) (k : Consumer) → (publish_cursor c r k).slots ≡ r.slots
unfolding publish_cursor
slots-publish_cursor c r k = slots-publish_cursor_for c.overflow c r k

module _ {c : Config} (v : IsRingConfig c) {log : Log} (short : length log < writing_seq) {r : Ring}
    (at_rest : Logs c log r) (k : Consumer) (sane : k.next < writing_seq) where
  found : status_of (slot_at c r k.next).seq k.next ≡ (answer c.capacity log k.next).0
  found = status_of-answer v short at_rest k.next sane

  -- On a ring at rest after the messages of `log`, fewer than writing_seq, with `next_` below
  -- writing_seq, `read` gives the status and the bytes that the abstract channel answers: ok with
  -- the whole message if it is published and at most Capacity behind, lapped if it is further
  -- behind, empty if it is not published. It leaves `next_` and the cursor's number alone.
  pub read-answer :
      let (view, k') = read c r k in
      ((k'.last_status, view) ≡ answer c.capacity log k.next)
      × (k'.next ≡ k.next)
      × (k'.cursor_id ≡ k.cursor_id)
  read-answer = elim (answer-cases c.capacity log k.next) [
    | inl t ↦
        let e = read_by_status c r k ok (found ∙ ap (λ p. p.0) t.answered) in
        rw (e, t.answered) (ap (λ b. (ok, b)) (view-IsThere v short at_rest k.next t), refl, refl)
    | inr (inl g) ↦
        let e = read_by_status c r k lapped (found ∙ ap (λ p. p.0) g.answered) in
        rw (e, g.answered) (refl, refl, refl)
    | inr (inr f) ↦
        let e = read_by_status c r k empty (found ∙ ap (λ p. p.0) f.answered) in
        rw (e, f.answered) (refl, refl, refl)
  ]

  -- On a ring at rest after the messages of `log`, fewer than writing_seq, with `next_` below
  -- writing_seq, and for a view of a published message, `validate` says true exactly when the
  -- message is at most Capacity behind the end of the log.
  pub validate-answer :
      k.read_seq < length log → validate c r k ≡ leb (length log) (k.read_seq + c.capacity)
  unfolding validate
  validate-answer old = elim (Bool-cases (leb (length log) (k.read_seq + c.capacity))) [
    | inl near ↦ ground (arith, stamp_resident v short at_rest.slots k.read_seq old)
    | inr far ↦ ground (arith, stamp_lapped v short at_rest.slots k.read_seq)
  ]

  -- The bytes that `read_copy` takes from the slot of a message that is there.
  copied-IsThere :
      (t : IsThere c.capacity log k.next) (out_cap : ℕ)
      → let slot = slot_at c r k.next in
        span slot.payload 0 (if leb slot.len out_cap then slot.len else out_cap)
        ≡ take out_cap t.message
  copied-IsThere t out_cap =
      let slot = slot_at c r k.next in
      let (stamp, carried) = Carries-IsThere v short at_rest k.next t in
      elim (Bool-cases (leb slot.len out_cap)) [
        | inl fits ↦ rw fits (
            view-IsThere v short at_rest k.next t
            ∙ sym (take_all out_cap t.message (ground (arith, carried.sized))))
        | inr cut ↦
            rw cut (span-Carries slot out_cap t.message (ground (arith, carried.sized)) carried)
      ]

  -- On a ring at rest after the messages of `log`, fewer than writing_seq, with `next_` below
  -- writing_seq, `read_copy` has the status that the channel answers, copies the first `out_cap`
  -- bytes of the answer, goes on to the next message if the status is ok and stays otherwise, and
  -- leaves the slots alone.
  pub read_copy-answer :
      (out_cap : ℕ)
      → let (out, k', r') = read_copy c r k out_cap in
        let (st, m) = answer c.capacity log k.next in
        (k'.last_status ≡ st)
        × (out ≡ take out_cap m)
        × (k'.next ≡ (elim st [ ok ↦ k.next + 1 | _ ↦ k.next ]))
        × (r'.slots ≡ r.slots)
  unfolding copy_for
  read_copy-answer out_cap = elim (answer-cases c.capacity log k.next) [
    | inl t ↦
        rw
          (
            copy_by_status c r k out_cap ok (found ∙ ap (λ p. p.0) t.answered),
            t.answered,
            copy_for_valid c r (settle k ok) out_cap
                (ground (arith, Carries-IsThere v short at_rest k.next t)),
          )
          (refl, copied-IsThere t out_cap, omega arith, slots-publish_cursor c r _)
    | inr (inl g) ↦
        rw (copy_by_status c r k out_cap lapped (found ∙ ap (λ p. p.0) g.answered), g.answered)
          (refl, sym (take_all out_cap [] (omega arith)), refl, refl)
    | inr (inr f) ↦
        rw (copy_by_status c r k out_cap empty (found ∙ ap (λ p. p.0) f.answered), f.answered)
          (refl, sym (take_all out_cap [] (omega arith)), refl, refl)
  ]

  -- On a ring at rest after the messages of `log`, fewer than writing_seq, with `next_` below
  -- writing_seq, `resync` with the ring's own count goes to the oldest message that the channel
  -- still answers: every published message from there on is answered ok, every one before it
  -- lapped.
  pub resync-oldest :
      let (k', r') = resync c r k (produced r) in
      (s : ℕ)
      → s < length log
      → (k'.next ≤ s → (answer c.capacity log s).0 ≡ ok)
        × (s < k'.next → (answer c.capacity log s).0 ≡ lapped)
  unfolding resync
  resync-oldest s old = elim (answer-cases c.capacity log s) [
    | inl t ↦ rw t.answered (λ h. refl, λ h. absurd (ground (arith, at_rest.counted)))
    | inr (inl g) ↦ rw g.answered (λ h. absurd (ground (arith, at_rest.counted)), λ h. refl)
    | inr (inr f) ↦ absurd (omega (arith, f.late))
  ]
