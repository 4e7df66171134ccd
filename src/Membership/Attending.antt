-- ===== src/Membership/Attending.antt =====
-- The invariant along the steps of a consumer that comes, reads and goes.
use shimmy.Common.{
  ℕ, ◌+◌, ◌≤◌, ◌<◌, ◌≡◌, ◌⊎◌, inl, inr, refl, sym, ap, ◌∙◌, true, false, [], none, some, arith,
  length, update, max_u64,
}
use mathlib.Core.Path.{subst}
use native.Mathlib.Decide.{ℕ_discrete, dec_lt}
use shimmy.Config.{Config, IsRingConfig, Overflow-cases, backpressure}
use shimmy.Ring.{Ring, writing_seq}
use shimmy.Ring.Log.{Log}
use shimmy.Ring.Seats.{Seats-claim, Seats-release, store_value, store_in_use, store_value-in_use}
use shimmy.System.{Pc, ReaderPc, polling, Got, add_got}
use shimmy.System.Invariant.{next_of, InOrder}
use shimmy.Membership.{
  Member, outside, trying, starting, seated, seeking, reading, departing, with_cursors, Attend,
  construct_free, construct, exchange, refused, turn_away, start, look, seek, begin_at_zero, read,
  dismiss_free, dismiss, destroy_free, destroy, release,
}
use shimmy.Membership.Invariant.{
  holds, seat_of, MemberOk, MembersInv, IsHeeded, ReadingOk, GaplessFrom,
}
use shimmy.Membership.Carry.{seat_of-some}
use shimmy.Membership.Reading.{Advanced, Consume-Advanced, count-le, reach-le}
use shimmy.Membership.Storing.{Members-move, Members-look, Members-store, others_hold, mine_holds}
use shimmy.Membership.Showing.{Shows, publish_cursor-Shows, Consume-Shows}

-- A consumer that the producer heeds, or a Backpressure one that was turned away.
dec-IsHeeded :
    (c : Config) (id : ℕ) → IsHeeded c id ⊎ (c.overflow ≡ backpressure) × (c.max_consumers ≤ id)
dec-IsHeeded c id = elim (Overflow-cases c.overflow) [
  | inl o ↦ inl (λ w. absurd (cc))
  | inr o ↦ elim (dec_lt id c.max_consumers) [
    | yes lt ↦ inl (λ w. lt)
    | no off ↦ inr (o, omega (arith, off))
  ]
]

module _ {c : Config} (v : IsRingConfig c) {r : Ring} {p : Pc} {members : ℕ → Member}
    {got : ℕ → Got} {log : Log} (short : length log < writing_seq)
    (inv : MembersInv c r p members got log) (i : ℕ) where
  seatless : seat_of c c.max_consumers ≡ none
  seatless = ground arith

  -- A consumer with no cursor yet claims a free one.
  claim :
      (id : ℕ) (g : Got)
      → holds c (members i) ≡ none
      → id < c.max_consumers
      → (r.cursors id).in_use ≡ false
      → g ≡ []
      → MembersInv c
          (with_cursors r (store_in_use r.cursors id true))
          p
          (update members i (starting id))
          (update got i g)
          log
  claim id g nothing lt free fresh =
      Members-move inv i (starting id) g (store_in_use r.cursors id true)
        (Seats-claim inv.seats i (λ j. holds c (update members i (starting id) j))
          (others_hold inv i (starting id)) id lt free nothing
          (mine_holds inv i (starting id) ∙ seat_of-some c id lt))
        (λ j away other h. ground arith)
        (λ j h k. elim k [ inl u ↦ inl (ground arith) | inr e ↦ inr (ground arith) ]) fresh

  -- A consumer that is about to gives its cursor back.
  give_back :
      (id : ℕ) (g : Got)
      → holds c (members i) ≡ some id
      → (r.cursors id).value ≡ max_u64
      → MembersInv c
          (with_cursors r (store_in_use r.cursors id false))
          p
          (update members i outside)
          (update got i g)
          log
  give_back id g mine last =
      Members-move inv i outside g (store_in_use r.cursors id false)
        (Seats-release inv.seats i (λ j. holds c (update members i outside j))
          (others_hold inv i outside) id mine (mine_holds inv i outside))
        (λ j away other h. ground arith)
        (λ j h k. elim (ℕ_discrete id j) [
          | yes same ↦ inr (
              subst (λ t. (store_in_use r.cursors id false t).value ≡ max_u64) same
                (ground (arith, last)))
          | no other ↦ elim k [ inl u ↦ inl (ground arith) | inr e ↦ inr (ground arith) ]
        ])
        tt

  -- The new place of a consumer that stores by `publish_cursor`.
  show :
      (id next : ℕ) (m : Member) (g : Got) {r' : Ring}
      → Shows c r id next r'
      → holds c (members i) ≡ seat_of c id
      → holds c m ≡ seat_of c id
      → MemberOk c log (with_cursors r r'.cursors) p m g
      → MembersInv c r' p (update members i m) (update got i g) log
  show id next m g {r'} shows before after mine =
      subst (λ t. MembersInv c t p (update members i m) (update got i g) log) (sym shows.ring)
        (Members-store inv i id m g r'.cursors before after shows.flags shows.others mine)

  -- What the step leaves of the consumer's part, with a heeded reader's cursor at its message.
  read_on :
      {id base : ℕ} {q q' : ReaderPc} {g g' : Got} {r' : Ring}
      → ReadingOk c log r p id base q g
      → Advanced c log r p base q q' g'
      → Shows c r id (next_of q') r'
      → ReadingOk c log (with_cursors r r'.cursors) p id base q' g'
  read_on {id} k moved shows = record {
    reader = moved.reader;
    ordered = moved.ordered;
    paced = λ o lt. (shows.mine o lt, omega (arith, (k.paced o lt).1, moved.up));
    complete = moved.complete;
  }

  -- What a step of consumer `i` from a known place leaves.
  from_place :
      {m m' : Member} {g g' : Got} {r' : Ring}
      → members i ≡ m
      → MemberOk c log r p m g
      → Attend c r log m g r' m' g'
      → MembersInv c r' p (update members i m') (update got i g') log
  from_place at k (construct_free o) =
      Members-look inv i (seated c.max_consumers) [] (ap (holds c) at ∙ sym seatless)
        (refl, λ o lt. absurd (omega (arith, lt)))
  from_place at k (construct o) = Members-look inv i (trying 0) [] (ap (holds c) at) refl
  from_place at k (exchange {i = id} {g = g} lt free) = claim id g (ap (holds c) at) lt free k
  from_place at k (refused {i = id} {g = g} lt used) =
      Members-look inv i (trying (id + 1)) g (ap (holds c) at) k
  from_place at k (turn_away {g = g} end) =
      Members-look inv i (seated c.max_consumers) g (ap (holds c) at ∙ sym seatless)
        (k, λ o lt. absurd (omega (arith, lt)))
  from_place at k (start {id} {g}) =
      Members-store inv i id (seated id) g (store_value r.cursors id 0) (ap (holds c) at) refl
        (store_value-in_use r.cursors id 0) (λ j away. ground arith) (k, λ o lt. ground arith)
  from_place at k (look {id} {g}) =
      let (le, ge) = count-le c log r p inv.producer in
      Members-look inv i (seeking id r.next_publish) g (ap (holds c) at)
        (k.0, le, λ o lt. (k.1 o lt, omega (arith, ge, (reach-le p log id).1, v.at_least_two)))
  from_place at k (seek {id} {cur} {g}) =
      let shows = publish_cursor-Shows c r id cur in
      show id cur (reading id cur (polling cur)) g shows (ap (holds c) at) refl (λ heeded. record {
        reader = k.1;
        ordered = subst (λ t. InOrder log cur t) (sym k.0) tt;
        paced = λ o lt. (shows.mine o lt, (k.2 o lt).1);
        complete = λ o. subst (λ t. GaplessFrom log cur cur t) (sym k.0) refl;
      })
  from_place at k (begin_at_zero {id} {g} early) =
      Members-look inv i (reading id 0 (polling 0)) g (ap (holds c) at) (λ heeded. record {
        reader = omega arith;
        ordered = subst (λ t. InOrder log 0 t) (sym k.0) tt;
        paced = λ o lt. (k.1 o lt, omega (arith, (reach-le p log id).1, early o));
        complete = λ o. subst (λ t. GaplessFrom log 0 0 t) (sym k.0) refl;
      })
  from_place at k (read {id} {base} {g} {q} {q'} {r'} {o} step) = elim (dec-IsHeeded c id) [
    | inl heeded ↦
        let old = k heeded in
        let shows = Consume-Shows (λ o lt. (old.paced o lt).0) step in
        show id (next_of q') (reading id base q') (add_got o g) shows (ap (holds c) at) refl
          (λ h. read_on old (Consume-Advanced v short inv.slots inv.producer heeded old step) shows)
    | inr (free, off) ↦
        let shows = Consume-Shows (λ o lt. absurd (omega (arith, off, lt))) step in
        show id (next_of q') (reading id base q') (add_got o g) shows (ap (holds c) at) refl
          (λ h. absurd (omega (arith, off, h free)))
  ]
  from_place at k (dismiss_free {id} {g = g} e) =
      Members-look inv i outside g (ap (holds c) at ∙ ground (arith, e)) tt
  from_place at k (dismiss {id} {g = g} lt) =
      Members-store inv i id (departing id) g (store_value r.cursors id max_u64) (ap (holds c) at)
        refl (store_value-in_use r.cursors id max_u64) (λ j away. ground arith) (lt, ground arith)
  from_place at k (destroy_free {id} {g = g} e) =
      Members-look inv i outside g (ap (holds c) at ∙ ground (arith, e)) tt
  from_place at k (destroy {id} {g = g} lt) =
      Members-store inv i id (departing id) g (store_value r.cursors id max_u64) (ap (holds c) at)
        refl (store_value-in_use r.cursors id max_u64) (λ j away. ground arith) (lt, ground arith)
  from_place at k (release {id} {g}) = give_back id g (ap (holds c) at ∙ seat_of-some c id k.0) k.1

  -- Every step of a consumer keeps the invariant.
  pub Attend-Members :
      {m : Member} {g : Got} {r' : Ring}
      → Attend c r log (members i) (got i) r' m g
      → MembersInv c r' p (update members i m) (update got i g) log
  Attend-Members step = from_place refl (inv.member i) step
