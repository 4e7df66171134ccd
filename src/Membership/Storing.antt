-- ===== src/Membership/Storing.antt =====
-- The stores of a consumer to its own cursor, and what they leave of the others' part of the
-- invariant (`register_consumer`, `set_cursor` and `unregister_consumer` in include/shimmy/ring.hpp).
use shimmy.Common.{
  ℕ, ◌<◌, ◌≡◌, ◌≢◌, inl, inr, refl, sym, ap, ◌∙◌, some, update, update_self, update_ne,
}
use mathlib.Core.Path.{subst}
use native.Mathlib.Decide.{ℕ_discrete}
use shimmy.Config.{Config}
use shimmy.Ring.{Ring, Cursor}
use shimmy.Ring.Log.{Log}
use shimmy.Ring.Seats.{Seats, Seats-same}
use shimmy.System.{Pc, idle, scanning, comparing, marking, sizing, copying, advancing, Got}
use shimmy.System.Invariant.{next_of}
use shimmy.Membership.{
  Member, outside, trying, starting, seated, seeking, reading, departing, with_cursors,
}
use shimmy.Membership.Invariant.{holds, seat_of, MemberOk, MembersInv, PlaceOk, IsPaced, IsClaimed}
use shimmy.Membership.Carry.{seat_of-some}

PlaceOk-cursors :
    (c : Config) (log : Log) (r : Ring) (p : Pc) (cursors : ℕ → Cursor)
    → ((j : ℕ) → j < c.max_consumers → IsClaimed r.cursors j → IsClaimed cursors j)
    → PlaceOk c log r p
    → PlaceOk c log (with_cursors r cursors) p
PlaceOk-cursors c log r idle cursors stays v = v
PlaceOk-cursors c log r (scanning seq m i) cursors stays v = v
PlaceOk-cursors c log r (comparing seq m i) cursors stays v = (v.0, v.1, v.2, stays i v.2 v.3)
PlaceOk-cursors c log r (marking seq m) cursors stays v = v
PlaceOk-cursors c log r (sizing seq m) cursors stays v = v
PlaceOk-cursors c log r (copying seq m i) cursors stays v = v
PlaceOk-cursors c log r (advancing seq) cursors stays v = v

module _ (c : Config) (log : Log) (r : Ring) (p : Pc) (cursors : ℕ → Cursor) where
  IsPaced-cursors :
      (id shown next : ℕ)
      → (id < c.max_consumers → (cursors id).value ≡ (r.cursors id).value)
      → IsPaced c log r p id shown next
      → IsPaced c log (with_cursors r cursors) p id shown next
  IsPaced-cursors id shown next same v o lt = (same lt ∙ (v o lt).0, (v o lt).1)

  -- A consumer whose cursor stays.
  MemberOk-cursors :
      (m : Member) (g : Got)
      → ((id : ℕ) → holds c m ≡ some id → (cursors id).value ≡ (r.cursors id).value)
      → MemberOk c log r p m g
      → MemberOk c log (with_cursors r cursors) p m g
  MemberOk-cursors outside g same v = tt
  MemberOk-cursors (trying i) g same v = v
  MemberOk-cursors (starting id) g same v = v
  MemberOk-cursors (seated id) g same v = (v.0, λ o lt. same id (seat_of-some c id lt) ∙ v.1 o lt)
  MemberOk-cursors (seeking id cur) g same v =
      (v.0, v.1, IsPaced-cursors id 0 cur (λ lt. same id (seat_of-some c id lt)) v.2)
  MemberOk-cursors (reading id base q) g same v = λ heeded.
      let k = v heeded in
      record {
        reader = k.reader;
        ordered = k.ordered;
        paced =
            IsPaced-cursors id (next_of q) (next_of q) (λ lt. same id (seat_of-some c id lt))
              k.paced;
        complete = k.complete;
      }
  MemberOk-cursors (departing id) g same v = (v.0, same id (seat_of-some c id v.0) ∙ v.1)

-- What holds of the consumer that moves and of each of the others holds after the move.
update-each :
    (P : ℕ → Member → Got → Type 0) (members : ℕ → Member) (got : ℕ → Got) (i : ℕ) (m : Member)
    (g : Got)
    → P i m g
    → ((j : ℕ) → j ≢ i → P j (members j) (got j))
    → (j : ℕ) → P j (update members i m j) (update got i g j)
update-each P members got i m g new old j = elim (ℕ_discrete i j) [
  | yes same ↦
      subst (λ t. P t (update members i m t) (update got i g t)) same
        (rw (update_self members i m, update_self got i g) new)
  | no away ↦
      rw (update_ne members i m j away, update_ne got i g j away) (old j (λ e. away (sym e)))
]

module _ {c : Config} {r : Ring} {p : Pc} {members : ℕ → Member} {got : ℕ → Got} {log : Log}
    (inv : MembersInv c r p members got log) (i : ℕ) where
  pub others_hold :
      (m : Member) (j : ℕ) → j ≢ i → holds c (update members i m j) ≡ holds c (members j)
  others_hold m j away = ap (holds c) (update_ne members i m j (λ e. away (sym e)))

  pub mine_holds : (m : Member) → holds c (update members i m i) ≡ holds c m
  mine_holds m = ap (holds c) (update_self members i m)

  -- The account of the cursors when consumer `i` keeps its own.
  Seats-keep :
      (m : Member) (cursors : ℕ → Cursor)
      → ((id : ℕ) → (cursors id).in_use ≡ (r.cursors id).in_use)
      → holds c (members i) ≡ holds c m
      → Seats c.max_consumers cursors (λ j. holds c (update members i m j))
  Seats-keep m cursors flags e =
      Seats-same inv.seats i _ (others_hold m) cursors flags (mine_holds m ∙ sym e)

  -- Consumer `i` goes to `m`, and the cursors to `cursors`.
  pub Members-move :
      (m : Member) (g : Got) (cursors : ℕ → Cursor)
      → Seats c.max_consumers cursors (λ j. holds c (update members i m j))
      → ((j : ℕ)
          → j ≢ i
          → (id : ℕ) → holds c (members j) ≡ some id
          → (cursors id).value ≡ (r.cursors id).value)
      → ((j : ℕ) → j < c.max_consumers → IsClaimed r.cursors j → IsClaimed cursors j)
      → MemberOk c log (with_cursors r cursors) p m g
      → MembersInv c (with_cursors r cursors) p (update members i m) (update got i g) log
  Members-move m g cursors seats apart stays mine = record {
    slots = inv.slots;
    producer = PlaceOk-cursors c log r p cursors stays inv.producer;
    seats = seats;
    member =
        update-each (λ j m g. MemberOk c log (with_cursors r cursors) p m g) members got i m g mine
          (λ j away.
            MemberOk-cursors c log r p cursors (members j) (got j) (apart j away) (inv.member j));
  }

  -- Consumer `i` goes to `m` with no store.
  pub Members-look :
      (m : Member) (g : Got)
      → holds c (members i) ≡ holds c m
      → MemberOk c log r p m g
      → MembersInv c r p (update members i m) (update got i g) log
  Members-look m g e mine =
      Members-move m g r.cursors (Seats-keep m r.cursors (λ id. refl) e) (λ j away id h. refl)
        (λ j lt k. k) mine

  -- A cursor that consumer `i` may hold is nobody else's.
  apart_from :
      (id : ℕ)
      → holds c (members i) ≡ seat_of c id
      → (j : ℕ) → j ≢ i
      → (other : ℕ) → holds c (members j) ≡ some other
      → other ≢ id
  apart_from id mine j away other h same =
      let lt = (inv.seats.in_range j other h).0 in
      let is : holds c (members i) ≡ some other =
        mine
        ∙ seat_of-some c id (subst (λ (t : ℕ). t < c.max_consumers) same lt)
        ∙ ap some (sym same) in
      away (inv.seats.single j i other h is)

  -- Consumer `i` stores to the value of its own cursor.
  pub Members-store :
      (id : ℕ) (m : Member) (g : Got) (cursors : ℕ → Cursor)
      → holds c (members i) ≡ seat_of c id
      → holds c m ≡ seat_of c id
      → ((j : ℕ) → (cursors j).in_use ≡ (r.cursors j).in_use)
      → ((j : ℕ) → j ≢ id → (cursors j).value ≡ (r.cursors j).value)
      → MemberOk c log (with_cursors r cursors) p m g
      → MembersInv c (with_cursors r cursors) p (update members i m) (update got i g) log
  Members-store id m g cursors before after flags values mine =
      Members-move m g cursors (Seats-keep m cursors flags (before ∙ sym after))
        (λ j away other h. values other (apart_from id before j away other h))
        (λ j lt k. elim (ℕ_discrete j id) [
          | yes same ↦
              let held : holds c (members i) ≡ some j =
                before ∙ ap (seat_of c) (sym same) ∙ seat_of-some c j lt in
              inl (flags j ∙ (inv.seats.in_range i j held).1)
          | no other ↦ elim k [ inl u ↦ inl (flags j ∙ u) | inr e ↦ inr (values j other ∙ e) ]
        ])
        mine
