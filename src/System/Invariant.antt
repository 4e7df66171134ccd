-- ===== src/System/Invariant.antt =====
-- The invariant of the interleaved ring: what the producer's place in `publish` and a reader's
-- place in its read say of the slots, the cursors and the messages.
use shimmy.Common.{
  ℕ, ◌+◌, ◌-◌, ◌≤◌, ◌<◌, ◌≡◌, ◌⊎◌, Bool, true, false, List, [], ◌∷◌, some, take, length, get_elem?,
}
use shimmy.Config.{Config, overwrite, backpressure, index}
use shimmy.Ring.{Ring, Slot, Cursor, slot_at, writing_seq}
use shimmy.Ring.Log.{Log, Slots, InFlux}
use shimmy.System.{
  Pc, idle, scanning, comparing, marking, sizing, copying, advancing, ReaderPc, polling, holding,
  viewing, accepted, lapsed, Got,
}

-- The producer may be changing the slot of the next message.
abbrev pub busy : Pc → Bool
busy (sizing _ _) = true
busy (copying _ _ _) = true
busy _ = false

-- Messages begun, those in their slot included.
abbrev pub begun : Bool → Log → ℕ
begun true log = length log + 1
begun false log = length log

-- The next message is the one that `publish` is at.
abbrev pub IsCurrent : Log → Ring → ℕ → Type 0
IsCurrent log r seq = (seq ≡ length log) × (r.next_publish ≡ length log)

-- The cursors that the scan has seen do not hold the producer back.
abbrev IsScanned : Config → Ring → ℕ → ℕ → Type 0
IsScanned c r seq i =
    (c.overflow ≡ backpressure)
    × (c.capacity ≤ seq)
    × ((j : ℕ) → j < i → (r.cursors j).in_use ≡ true → seq - c.capacity < (r.cursors j).value)

-- Under Overwrite the slot that is being written carries the marker.
abbrev pub IsMarked : Config → Ring → ℕ → Type 0
IsMarked c r seq = c.overflow ≡ overwrite → (slot_at c r seq).seq ≡ writing_seq

-- The slot holds the first `i` bytes of the message.
abbrev pub IsFilled : Config → Ring → ℕ → List ℕ → ℕ → Type 0
IsFilled c r seq m i =
    ((slot_at c r seq).len ≡ length m)
    × (i ≤ length m)
    × ((j b : ℕ) → j < i → get_elem? m j ≡ some b → (slot_at c r seq).payload j ≡ b)

abbrev pub PcOk : Config → Log → Ring → Pc → Type 0
PcOk c log r idle = r.next_publish ≡ length log
PcOk c log r (scanning seq m i) = IsCurrent log r seq × IsScanned c r seq i
PcOk c log r (comparing seq m i) =
    IsCurrent log r seq × IsScanned c r seq i × ((r.cursors i).in_use ≡ true)
PcOk c log r (marking seq m) = IsCurrent log r seq × (c.overflow ≡ overwrite)
PcOk c log r (sizing seq m) = IsCurrent log r seq × IsMarked c r seq
PcOk c log r (copying seq m i) = IsCurrent log r seq × IsMarked c r seq × IsFilled c r seq m i
PcOk c log r (advancing seq) = (length log ≡ seq + 1) × (r.next_publish ≡ seq)

-- What has been read of a message that is still in its slot is the message's beginning.
abbrev pub IsPrefix : Log → ℕ → ℕ → List ℕ → Type 0
IsPrefix log want len bytes =
    (m : List ℕ)
    → get_elem? log want ≡ some m
    → (len ≡ length m) × (length bytes ≤ len) × (bytes ≡ take (length bytes) m)

-- A view of a slot that is still stamped with the message wanted, and is not being written.
abbrev pub Views : Config → Log → Bool → (ℕ → Slot) → ℕ → ℕ → List ℕ → Type 0
Views c log flux slots want len bytes =
    (slots (index c want)).seq ≡ want → InFlux c log flux want ⊎ IsPrefix log want len bytes

abbrev pub ReaderOk : Config → Log → Bool → (ℕ → Slot) → ReaderPc → Type 0
ReaderOk c log flux slots (polling next) = next ≤ length log
ReaderOk c log flux slots (holding want) = want < length log
ReaderOk c log flux slots (viewing want len bytes) =
    (want < length log) × Views c log flux slots want len bytes
ReaderOk c log flux slots (accepted want bytes) = get_elem? log want ≡ some bytes
ReaderOk c log flux slots (lapsed next) = next + c.capacity < length log

-- `next_`, the message that a reader is at.
abbrev pub next_of : ReaderPc → ℕ
next_of (polling next) = next
next_of (holding want) = want
next_of (viewing want len bytes) = want
next_of (accepted want bytes) = want
next_of (lapsed next) = next

-- What a reader has committed, newest first: published messages below `bound`, in falling order.
abbrev pub InOrder : Log → ℕ → Got → Type 0
InOrder log bound [] = Unit {0}
InOrder log bound ((s, m) ∷ got) = (s < bound) × (get_elem? log s ≡ some m) × InOrder log s got

-- The same without a gap: every published message below `bound`.
abbrev pub Gapless : Log → ℕ → Got → Type 0
Gapless log bound [] = bound ≡ 0
Gapless log bound ((s, m) ∷ got) = (bound ≡ s + 1) × (get_elem? log s ≡ some m) × Gapless log s got

-- The cursor of a reader under Backpressure: claimed, at `next_`, and at most a lap behind.
pub record Held (c : Config) (begun : ℕ) (cursor : Cursor) (q : ReaderPc) : Type 0 where
  pub used : cursor.in_use ≡ true
  pub here : cursor.value ≡ next_of q
  pub near : begun ≤ cursor.value + c.capacity

pub record Inv (c : Config) (n : ℕ) (r : Ring) (p : Pc) (readers : ℕ → ReaderPc) (got : ℕ → Got)
    (log : Log) : Type 0 where
  pub few : c.overflow ≡ backpressure → n ≤ c.max_consumers
  pub slots : Slots c log (busy p) r.slots
  pub producer : PcOk c log r p
  pub reader : (i : ℕ) → ReaderOk c log (busy p) r.slots (readers i)
  pub ordered : (i : ℕ) → InOrder log (next_of (readers i)) (got i)
  pub owned : (i : ℕ) → (r.cursors i).in_use ≡ true → i < n
  pub held :
      c.overflow ≡ backpressure
      → (i : ℕ) → i < n
      → Held c (begun (busy p) log) (r.cursors i) (readers i)
  pub complete :
      c.overflow ≡ backpressure → (i : ℕ) → i < n → Gapless log (next_of (readers i)) (got i)
