-- ===== src/Membership/Carry.antt =====
-- What a step of the producer leaves of each consumer's part of the invariant.
use shimmy.Common.{
  ℕ, ◌+◌, ◌≤◌, ◌<◌, ◌≡◌, ◌⊎◌, inl, inr, refl, ap, ◌∙◌, true, List, [], ◌∷◌, some, arith, length,
  get_elem?,
}
use shimmy.Config.{Config, backpressure}
use shimmy.Ring.{Ring, Cursor}
use shimmy.Ring.Log.{Log}
use shimmy.System.{Pc, ReaderPc, Got}
use shimmy.System.Invariant.{ReaderOk, InOrder, busy, next_of}
use shimmy.Membership.{Member, outside, trying, starting, seated, seeking, reading, departing}
use shimmy.Membership.Invariant.{holds, seat_of, reach, GaplessFrom, MemberOk, IsPaced}

-- A step of the producer that stores to no cursor, loses no message, and goes no further than a lap
-- ahead of a claimed cursor.
pub record Carry (c : Config) (log : Log) (r : Ring) (p : Pc) (log' : Log) (r' : Ring) (p' : Pc)
    : Type 0 where
  pub cursors : r'.cursors ≡ r.cursors
  pub reader :
      (q : ReaderPc) → ReaderOk c log (busy p) r.slots q → ReaderOk c log' (busy p') r'.slots q
  pub keeps : (s : ℕ) (m : List ℕ) → get_elem? log s ≡ some m → get_elem? log' s ≡ some m
  pub grows : length log ≤ length log'
  pub pace :
      c.overflow ≡ backpressure
      → (id v : ℕ) → id < c.max_consumers
      → (r.cursors id).in_use ≡ true
      → ((r.cursors id).value ≡ v) ⊎ ((r.cursors id).value ≡ 0)
      → reach p log id ≤ v + c.capacity
      → reach p' log' id ≤ v + c.capacity

module _ (log log' : Log)
    (keeps : (s : ℕ) (m : List ℕ) → get_elem? log s ≡ some m → get_elem? log' s ≡ some m) where
  InOrder-keeps : (bound : ℕ) (got : Got) → InOrder log bound got → InOrder log' bound got
  InOrder-keeps bound [] v = tt
  InOrder-keeps bound ((s, m) ∷ got) v = (v.0, keeps s m v.1, InOrder-keeps s got v.2)

  GaplessFrom-keeps :
      (base bound : ℕ) (got : Got)
      → GaplessFrom log base bound got
      → GaplessFrom log' base bound got
  GaplessFrom-keeps base bound [] v = v
  GaplessFrom-keeps base bound ((s, m) ∷ got) v =
      (v.0, keeps s m v.1, GaplessFrom-keeps base s got v.2)

pub seat_of-some : (c : Config) (id : ℕ) → id < c.max_consumers → seat_of c id ≡ some id
seat_of-some c id lt = ground arith

module _ {c : Config} {log : Log} {r : Ring} {p : Pc} {log' : Log} {r' : Ring} {p' : Pc}
    (carry : Carry c log r p log' r' p') where
  value_kept : (id v : ℕ) → (r.cursors id).value ≡ v → (r'.cursors id).value ≡ v
  value_kept id v e = ap (λ (f : ℕ → Cursor). (f id).value) carry.cursors ∙ e

  IsPaced-carry :
      (id shown next : ℕ)
      → (shown ≡ next) ⊎ (shown ≡ 0)
      → (id < c.max_consumers → (r.cursors id).in_use ≡ true)
      → IsPaced c log r p id shown next
      → IsPaced c log' r' p' id shown next
  IsPaced-carry id shown next kind used v o lt =
      let (here, near) = v o lt in
      let either : ((r.cursors id).value ≡ next) ⊎ ((r.cursors id).value ≡ 0) = elim kind [
        | inl e ↦ inl (here ∙ e)
        | inr e ↦ inr (here ∙ e)
      ] in
      (value_kept id shown here, carry.pace o id next lt (used lt) either near)

  pub MemberOk-carry :
      (m : Member) (g : Got)
      → ((id : ℕ) → holds c m ≡ some id → (r.cursors id).in_use ≡ true)
      → MemberOk c log r p m g
      → MemberOk c log' r' p' m g
  MemberOk-carry outside g used v = tt
  MemberOk-carry (trying i) g used v = v
  MemberOk-carry (starting id) g used v = v
  MemberOk-carry (seated id) g used v = (v.0, λ o lt. value_kept id 0 (v.1 o lt))
  MemberOk-carry (seeking id cur) g used v = (
    v.0,
    omega (arith, v.1, carry.grows),
    IsPaced-carry id 0 cur (inr refl) (λ lt. used id (seat_of-some c id lt)) v.2,
  )
  MemberOk-carry (reading id base q) g used v = λ heeded.
      let k = v heeded in
      record {
        reader = carry.reader q k.reader;
        ordered = InOrder-keeps log log' carry.keeps (next_of q) g k.ordered;
        paced =
            IsPaced-carry id (next_of q) (next_of q) (inl refl)
              (λ lt. used id (seat_of-some c id lt)) k.paced;
        complete = λ o. GaplessFrom-keeps log log' carry.keeps base (next_of q) g (k.complete o);
      }
  MemberOk-carry (departing id) g used v = (v.0, value_kept id _ v.1)
