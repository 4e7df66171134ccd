-- ===== src/Ring.antt =====
-- `Slot`, `Ring` and the operations of `Ring` in include/shimmy/ring.hpp. An array is a function
-- from its indices; `Config.Index.index-lt` shows that a slot's index is within the array.
-- The stores of `publish` are functions of their own, which the interleaved model shares.
pub mod Cursors
pub mod Log
pub mod Publish
pub mod Registration
pub mod Outcomes
pub mod Seats
pub mod Claiming
pub mod Tests
use shimmy.Common.{
  ℕ, zero, suc, ◌+◌, ◌-◌, Bool, true, false, not, ◌&&◌, ◌||◌, Option, none, some, List, [], ◌∷◌,
  ltb, leb, ◌==◌, if◌then◌else◌, update, length, u64, max_u64,
}
use shimmy.Config.{Config, Overflow, overwrite, backpressure, blocks, index}

abbrev pub empty_seq : ℕ
empty_seq = max_u64

abbrev pub writing_seq : ℕ
writing_seq = max_u64 - 1

pub record Slot : Type 0 where
  pub seq : ℕ  -- std::atomic<std::uint64_t>
  pub len : ℕ  -- std::uint32_t
  pub payload : ℕ → ℕ  -- std::array<std::byte, BlockSize>

pub record Cursor : Type 0 where
  pub value : ℕ  -- std::atomic<std::uint64_t>
  pub in_use : Bool  -- std::atomic<bool>

pub record Ring : Type 0 where
  pub next_publish : ℕ  -- std::atomic<std::uint64_t>
  pub cursors : ℕ → Cursor  -- std::array<Cursor, MaxConsumers>
  pub slots : ℕ → Slot  -- std::array<slot_type, Capacity>
  pub waiters : ℕ  -- std::atomic<std::int32_t>, as its bit pattern

-- `init` on whatever the region held; it leaves the payload bytes alone.
unfoldable pub init : Config → Ring → Ring
init c r = record {
  next_publish = 0;
  cursors =
      λ i. if ltb i c.max_consumers then record { value = 0; in_use = false } else r.cursors i;
  slots = λ i.
      if ltb i c.capacity
      then record { seq = empty_seq; len = 0; payload = (r.slots i).payload }
      else r.slots i;
  waiters = 0;
}

abbrev pub slot_at : Config → Ring → ℕ → Slot
slot_at c r seq = r.slots (index c seq)

abbrev pub produced : Ring → ℕ
produced r = r.next_publish

-- The stores of `publish` to the slot of `seq`, one by one.
abbrev pub store_seq : Config → Ring → ℕ → ℕ → Ring
store_seq c r seq stamp = record r {
  slots = update r.slots (index c seq) (record (slot_at c r seq) { seq = stamp });
}

-- The marker is stored under Overwrite alone.
abbrev pub mark_for : Overflow → Config → Ring → ℕ → Ring
mark_for overwrite c r seq = store_seq c r seq writing_seq
mark_for backpressure c r seq = r

abbrev pub mark : Config → Ring → ℕ → Ring
mark c r seq = mark_for c.overflow c r seq

abbrev pub store_len : Config → Ring → ℕ → ℕ → Ring
store_len c r seq n = record r {
  slots = update r.slots (index c seq) (record (slot_at c r seq) { len = n });
}

abbrev pub store_byte : Config → Ring → ℕ → ℕ → ℕ → Ring
store_byte c r seq i b = record r {
  slots =
      update r.slots (index c seq)
        (record (slot_at c r seq) { payload = update (slot_at c r seq).payload i b });
}

abbrev pub advance : Ring → ℕ → Ring
advance r seq = record r { next_publish = u64 (seq + 1) }

-- `std::memcpy(slot.payload.data(), data, len)`, from byte `i` on.
unfoldable pub copy_in : Config → Ring → ℕ → ℕ → List ℕ → ℕ → Ring
copy_in c r seq i bytes zero = r
copy_in c r seq i [] (suc n) = r
copy_in c r seq i (b ∷ bytes) (suc n) = copy_in c (store_byte c r seq i b) seq (i + 1) bytes n

-- One round of `await_consumers_past` from cursor `i` on, with `n` cursors to go.
unfoldable pub all_clear : (ℕ → Cursor) → ℕ → ℕ → ℕ → Bool
all_clear cursors seq i zero = true
all_clear cursors seq i (suc n) =
    let rest = all_clear cursors seq (i + 1) n in
    if not (cursors i).in_use then rest else if leb (cursors i).value seq then false else rest

-- The loop of `await_consumers_past`. In its `k`-th round the consumers have brought the cursors to
-- `seen k`. The result is the round that lets the producer pass, `none` if it still spins when the
-- fuel is used up.
unfoldable pub await_consumers_past : Config → ℕ → (ℕ → ℕ → Cursor) → ℕ → ℕ → Option ℕ
unfolding all_clear
await_consumers_past c zero seen k seq = none
await_consumers_past c (suc fuel) seen k seq =
    let again = await_consumers_past c fuel seen (k + 1) seq in
    if all_clear (seen k) seq 0 c.max_consumers then some k else again

-- Before `publish` may reuse a slot under Backpressure.
unfoldable pub await_for : Overflow → Config → ℕ → (ℕ → ℕ → Cursor) → Ring → Option Ring
unfolding await_consumers_past
await_for overwrite c fuel seen r = some r
await_for backpressure c fuel seen r =
    if leb c.capacity r.next_publish
    then elim (await_consumers_past c fuel seen 0 (r.next_publish - c.capacity)) [
      | none ↦ none
      | some k ↦ some (record r { cursors = seen k })
    ]
    else some r

unfoldable pub await_slot : Config → ℕ → (ℕ → ℕ → Cursor) → Ring → Option Ring
unfolding await_for
await_slot c fuel seen r = await_for c.overflow c fuel seen r

-- The stores of `publish` for the message `seq`, from the marker to the new `next_publish_`.
unfoldable pub write_slot : Config → Ring → ℕ → List ℕ → ℕ → Ring
unfolding copy_in
write_slot c r seq bytes len =
    let sized = store_len c (mark c r seq) seq len in
    let filled = if ltb 0 len then copy_in c sized seq 0 bytes len else sized in
    advance (store_seq c filled seq seq) seq

-- `Futex::notify`: whether the producer makes the FUTEX_WAKE call.
unfoldable pub notify : ℕ → Bool
notify waiters = if waiters == 0 then false else true

pub data Outcome : Type 0 where
  stalled : Outcome  -- it still spins in `await_consumers_past`
  out_of_bounds : Outcome  -- `memcpy` beyond the payload or beyond the data
  published : ℕ → Bool → Ring → Outcome  -- the sequence number, whether it woke, the ring

-- `publish(data, len)`, with `bytes` at `data`. `seen` is how the cursors go on while it waits.
unfoldable pub publish : Config → ℕ → (ℕ → ℕ → Cursor) → Ring → List ℕ → ℕ → Outcome
unfolding await_slot write_slot notify
publish c fuel seen r bytes len = elim (await_slot c fuel seen r) [
  | none ↦ stalled
  | some r' ↦
      if ltb c.block_size len || ltb (length bytes) len
      then out_of_bounds
      else published r.next_publish (blocks c.wait && notify r'.waiters)
          (write_slot c r' r.next_publish bytes len)
]

-- `register_consumer`: the first cursor whose compare-exchange finds it free, or MaxConsumers.
unfoldable pub register_from : Ring → ℕ → ℕ → ℕ × Ring
register_from r i zero = (i, r)
register_from r i (suc n) =
    let rest = register_from r (i + 1) n in
    if not (r.cursors i).in_use
    then (i, record r { cursors = update r.cursors i (record { value = 0; in_use = true }) })
    else rest

unfoldable pub register_consumer : Config → Ring → ℕ × Ring
unfolding register_from
register_consumer c r = register_from r 0 c.max_consumers

unfoldable pub unregister_consumer : Config → Ring → ℕ → Ring
unregister_consumer c r id =
    if leb c.max_consumers id
    then r
    else record r { cursors = update r.cursors id (record { value = max_u64; in_use = false }) }

abbrev pub set_cursor : Config → Ring → ℕ → ℕ → Ring
set_cursor c r id v =
    if ltb id c.max_consumers
    then record r { cursors = update r.cursors id (record (r.cursors id) { value = v }) }
    else r
