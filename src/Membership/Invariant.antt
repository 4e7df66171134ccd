-- ===== src/Membership/Invariant.antt =====
-- The invariant of the ring whose consumers come and go: what the place of the producer and of each
-- consumer says of the slots, the cursors and the messages.
use shimmy.Common.{
  ℕ, ◌+◌, ◌≤◌, ◌<◌, ◌≡◌, ◌⊎◌, true, [], ◌∷◌, Option, none, some, length, get_elem?, ltb,
  if◌then◌else◌, max_u64,
}
use shimmy.Config.{Config, overwrite, backpressure}
use shimmy.Ring.{Ring, Cursor}
use shimmy.Ring.Log.{Log, Slots}
use shimmy.Ring.Seats.{Seats}
use shimmy.System.{
  Pc, idle, scanning, comparing, marking, sizing, copying, advancing, ReaderPc, Got,
}
use shimmy.System.Invariant.{IsCurrent, IsMarked, IsFilled, ReaderOk, InOrder, busy, next_of}
use shimmy.Membership.{Member, outside, trying, starting, seated, seeking, reading, departing}

-- The cursor that a consumer holds, if its number is one of a cursor.
abbrev pub seat_of : Config → ℕ → Option ℕ
seat_of c id = if ltb id c.max_consumers then some id else none

abbrev pub holds : Config → Member → Option ℕ
holds c outside = none
holds c (trying i) = none
holds c (starting id) = seat_of c id
holds c (seated id) = seat_of c id
holds c (seeking id cur) = seat_of c id
holds c (reading id base q) = seat_of c id
holds c (departing id) = seat_of c id

-- The messages that will have been begun before the producer looks at cursor `id` again.
abbrev pub reach : Pc → Log → ℕ → ℕ
reach idle log id = length log
reach (scanning seq m i) log id = if ltb id i then length log + 1 else length log
reach (comparing seq m i) log id = if ltb id i then length log + 1 else length log
reach (marking seq m) log id = length log + 1
reach (sizing seq m) log id = length log + 1
reach (copying seq m i) log id = length log + 1
reach (advancing seq) log id = length log

-- A cursor that is claimed, or was given back.
abbrev pub IsClaimed : (ℕ → Cursor) → ℕ → Type 0
IsClaimed cursors i = ((cursors i).in_use ≡ true) ⊎ ((cursors i).value ≡ max_u64)

-- The producer waits, for a slot that has been used before.
abbrev pub IsWaiting : Config → ℕ → Type 0
IsWaiting c seq = (c.overflow ≡ backpressure) × (c.capacity ≤ seq)

abbrev pub PlaceOk : Config → Log → Ring → Pc → Type 0
PlaceOk c log r idle = r.next_publish ≡ length log
PlaceOk c log r (scanning seq m i) = IsCurrent log r seq × IsWaiting c seq
PlaceOk c log r (comparing seq m i) =
    IsCurrent log r seq × IsWaiting c seq × (i < c.max_consumers) × IsClaimed r.cursors i
PlaceOk c log r (marking seq m) = IsCurrent log r seq × (c.overflow ≡ overwrite)
PlaceOk c log r (sizing seq m) = IsCurrent log r seq × IsMarked c r seq
PlaceOk c log r (copying seq m i) = IsCurrent log r seq × IsMarked c r seq × IsFilled c r seq m i
PlaceOk c log r (advancing seq) = (length log ≡ seq + 1) × (r.next_publish ≡ seq)

-- What is committed, newest first, without a gap from `base` up to `bound`.
abbrev pub GaplessFrom : Log → ℕ → ℕ → Got → Type 0
GaplessFrom log base bound [] = bound ≡ base
GaplessFrom log base bound ((s, m) ∷ got) =
    (bound ≡ s + 1) × (get_elem? log s ≡ some m) × GaplessFrom log base s got

-- A consumer that the producer has to heed, or need not.
abbrev pub IsHeeded : Config → ℕ → Type 0
IsHeeded c id = c.overflow ≡ backpressure → id < c.max_consumers

-- Under Backpressure the cursor shows `shown`, and the producer is at most a lap ahead of `next`.
abbrev pub IsPaced : Config → Log → Ring → Pc → ℕ → ℕ → ℕ → Type 0
IsPaced c log r p id shown next =
    c.overflow ≡ backpressure
    → id < c.max_consumers
    → ((r.cursors id).value ≡ shown) × (reach p log id ≤ next + c.capacity)

pub record ReadingOk (c : Config) (log : Log) (r : Ring) (p : Pc) (id base : ℕ) (q : ReaderPc)
    (got : Got) : Type 0 where
  pub reader : ReaderOk c log (busy p) r.slots q
  pub ordered : InOrder log (next_of q) got
  pub paced : IsPaced c log r p id (next_of q) (next_of q)
  pub complete : c.overflow ≡ backpressure → GaplessFrom log base (next_of q) got

abbrev pub MemberOk : Config → Log → Ring → Pc → Member → Got → Type 0
MemberOk c log r p outside got = Unit {0}
MemberOk c log r p (trying i) got = got ≡ []
MemberOk c log r p (starting id) got = got ≡ []
MemberOk c log r p (seated id) got =
    (got ≡ []) × (c.overflow ≡ backpressure → id < c.max_consumers → (r.cursors id).value ≡ 0)
MemberOk c log r p (seeking id cur) got =
    (got ≡ []) × (cur ≤ length log) × IsPaced c log r p id 0 cur
MemberOk c log r p (reading id base q) got = IsHeeded c id → ReadingOk c log r p id base q got
MemberOk c log r p (departing id) got = (id < c.max_consumers) × ((r.cursors id).value ≡ max_u64)

pub record MembersInv (c : Config) (r : Ring) (p : Pc) (members : ℕ → Member) (got : ℕ → Got)
    (log : Log) : Type 0 where
  pub slots : Slots c log (busy p) r.slots
  pub producer : PlaceOk c log r p
  pub seats : Seats c.max_consumers r.cursors (λ i. holds c (members i))
  pub member : (i : ℕ) → MemberOk c log r p (members i) (got i)
