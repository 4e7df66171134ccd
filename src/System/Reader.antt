-- ===== src/System/Reader.antt =====
-- The invariant along the steps of a reader (`do_read`, `validate`, `commit`, `resync` and
-- `publish_cursor` in include/shimmy/ring.hpp).
use shimmy.Common.{
  ℕ, ◌+◌, ◌≤◌, ◌<◌, ◌≡◌, ◌≢◌, inl, inr, refl, ap, List, [], ◌∷◌, ◌++◌, Option, arith, length,
  get_elem?-lt, Bool-cases, update, u64,
}
use mathlib.Core.Path.{subst}
use shimmy.Config.{Config, IsRingConfig, backpressure}
use shimmy.Ring.{Ring, slot_at, writing_seq}
use shimmy.Ring.Log.{Log}
use shimmy.Consumer.{oldest, publish_cursor}
use shimmy.System.{
  Pc, at_next, ReaderPc, polling, holding, viewing, accepted, lapsed, Got, Consume, find_ok,
  find_empty, find_lapped, load_len, load_byte, validate_true, validate_false, commit, resync,
  add_got,
}
use shimmy.System.Invariant.{Inv, ReaderOk, InOrder, Gapless, busy, next_of}
use shimmy.System.Reading.{
  find_ok-lt, find_lapped-gone, Views-load_len, Views-load_byte, validate-message,
}
use shimmy.System.Moves.{InOrder-raise, counted, Inv-look, Inv-store}

module _ {c : Config} (v : IsRingConfig c) {n : ℕ} {r : Ring} {p : Pc} {readers : ℕ → ReaderPc}
    {got : ℕ → Got} {log : Log} (short : length log < writing_seq)
    (inv : Inv c n r p readers got log) (i : ℕ) (few : i < n) where
  -- The invariant of the reader that moves, at the place where it stands.
  at_place : {q : ReaderPc} → readers i ≡ q → ReaderOk c log (busy p) r.slots q
  at_place e = subst (λ t. ReaderOk c log (busy p) r.slots t) e (inv.reader i)

  commit-Inv :
      (want : ℕ) (bytes : List ℕ)
      → readers i ≡ accepted want bytes
      → Inv c n
          (publish_cursor c r (at_next i (u64 (want + 1))))
          p
          (update readers i (polling (u64 (want + 1))))
          (update got i ((want, bytes) ∷ got i))
          log
  commit-Inv want bytes e =
      let here = at_place e in
      let old = get_elem?-lt log want here in
      let stays : next_of (readers i) ≡ want = ap next_of e in
      let next : u64 (want + 1) ≡ want + 1 = omega arith in
      Inv-store inv i few (u64 (want + 1)) ((want, bytes) ∷ got i) (omega arith) (omega arith)
        (omega arith, here, subst (λ t. InOrder log t (got i)) stays (inv.ordered i))
        (λ o. (next, here, subst (λ t. Gapless log t (got i)) stays (inv.complete o i few)))

  -- Under Backpressure no reader is lapsed.
  pub never-lapsed : (next : ℕ) → readers i ≡ lapsed next → c.overflow ≢ backpressure
  never-lapsed next e o =
      let k = inv.held o i few in
      let behind = at_place e in
      elim (Bool-cases (busy p)) [
        | inl b ↦ omega (arith, k.here, rw b at k.near, ap next_of e)
        | inr b ↦ omega (arith, k.here, rw b at k.near, ap next_of e)
      ]

  resync-Inv :
      (next : ℕ)
      → readers i ≡ lapsed next
      → Inv c n
          (publish_cursor c r (at_next i (oldest c r.next_publish)))
          p
          (update readers i (polling (oldest c r.next_publish)))
          (update got i (got i))
          log
  resync-Inv next e =
      let (le, ge) = counted c log r p inv.producer in
      let behind = at_place e in
      let at = ap next_of e in
      let raised : next_of (readers i) ≤ oldest c r.next_publish = ground arith in
      Inv-store inv i few (oldest c r.next_publish) (got i) raised (ground arith)
        (InOrder-raise log (next_of (readers i)) (oldest c r.next_publish) (got i) raised
          (inv.ordered i))
        (λ o. absurd (never-lapsed next e o))

  Consume-Inv_at :
      {q q' : ReaderPc} {r' : Ring} {o : Option (ℕ × List ℕ)}
      → readers i ≡ q
      → Consume c i r q r' q' o
      → Inv c n r' p (update readers i q') (update got i (add_got o (got i))) log
  Consume-Inv_at e (find_ok {next} h) =
      Inv-look inv i few (holding next) (ap next_of e)
        (find_ok-lt v short inv.slots next (at_place e) h)
  Consume-Inv_at e (find_empty {next} h) =
      Inv-look inv i few (polling next) (ap next_of e) (at_place e)
  Consume-Inv_at e (find_lapped {next} h) =
      Inv-look inv i few (lapsed next) (ap next_of e) (find_lapped-gone v short inv.slots next h)
  Consume-Inv_at e (load_len {want}) =
      let old = at_place e in
      Inv-look inv i few (viewing want (slot_at c r want).len []) (ap next_of e)
        (old, Views-load_len v short inv.slots want old)
  Consume-Inv_at e (load_byte {want} {len} {bytes} more) =
      let (old, view) = at_place e in
      Inv-look inv i few
        (viewing want len (bytes ++ ((slot_at c r want).payload (length bytes) ∷ [])))
        (ap next_of e) (old, Views-load_byte v short inv.slots want len bytes old more view)
  Consume-Inv_at e (validate_true {want} {len} {bytes} all here) =
      Inv-look inv i few (accepted want bytes) (ap next_of e)
        (validate-message v short inv i want len bytes few e all here)
  Consume-Inv_at e (validate_false {want} {len} {bytes} gone) =
      let old = (at_place e).0 in Inv-look inv i few (polling want) (ap next_of e) (omega arith)
  Consume-Inv_at e (commit {want} {bytes}) = commit-Inv want bytes e
  Consume-Inv_at e (resync {next}) = resync-Inv next e

  -- Every step of a reader keeps the invariant.
  pub Consume-Inv :
      {q' : ReaderPc} {r' : Ring} {o : Option (ℕ × List ℕ)}
      → Consume c i r (readers i) r' q' o
      → Inv c n r' p (update readers i q') (update got i (add_got o (got i))) log
  Consume-Inv step = Consume-Inv_at refl step
