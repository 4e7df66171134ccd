-- ===== src/Consumer.antt =====
-- `Consumer` in include/shimmy/ring.hpp: a reader over a ring. A method that writes to the ring
-- returns the new ring beside the consumer.
pub mod Channel
pub mod Reads
pub mod Refine
pub mod Lifetime
pub mod Tests
use shimmy.Common.{
  ℕ, zero, suc, ◌+◌, ◌-◌, Bool, ◌||◌, List, [], ◌∷◌, ltb, leb, ◌==◌, if◌then◌else◌, u64,
}
use shimmy.Config.{Config, Overflow, overwrite, backpressure}
use shimmy.Ring.{
  Ring, slot_at, empty_seq, writing_seq, set_cursor, register_consumer, unregister_consumer,
}

-- `read_status`
pub data Status : Type 0 where
  ok empty lapped : Status

pub record Consumer : Type 0 where
  pub next : ℕ
  pub read_seq : ℕ
  pub cursor_id : ℕ
  pub last_status : Status

-- `do_read`, on the stamp of the slot that it loads.
unfoldable pub status_of : ℕ → ℕ → Status
status_of stamp want =
    if stamp == want
    then ok
    else if stamp == writing_seq
    then empty
    else if stamp == empty_seq || ltb stamp want
    then empty
    else lapped

-- The assignments to `read_seq_` and `last_status_` that go with the result of `do_read(next_)`.
abbrev pub settle : Consumer → Status → Consumer
settle k ok = record k { read_seq = k.next; last_status = ok }
settle k empty = record k { last_status = empty }
settle k lapped = record k { last_status = lapped }

unfoldable pub do_read : Config → Ring → Consumer → Consumer
do_read c r k = settle k (status_of (slot_at c r k.next).seq k.next)

-- The first `n` bytes of a payload, from byte `i` on: what a span over them shows.
unfoldable pub span : (ℕ → ℕ) → ℕ → ℕ → List ℕ
span payload i zero = []
span payload i (suc n) = payload i ∷ span payload (i + 1) n

abbrev pub current_view : Config → Ring → Consumer → List ℕ
current_view c r k = let slot = slot_at c r k.read_seq in span slot.payload 0 slot.len

-- What `read` returns, by `last_status_`.
abbrev pub view_for : Status → Config → Ring → Consumer → List ℕ
view_for ok c r k = current_view c r k
view_for empty c r k = []
view_for lapped c r k = []

-- `read`
unfoldable pub read : Config → Ring → Consumer → List ℕ × Consumer
unfolding do_read span
read c r k = let k' = do_read c r k in (view_for k'.last_status c r k', k')

unfoldable pub validate : Config → Ring → Consumer → Bool
validate c r k = (slot_at c r k.read_seq).seq == k.read_seq

unfoldable pub publish_cursor_for : Overflow → Config → Ring → Consumer → Ring
publish_cursor_for overwrite c r k = r
publish_cursor_for backpressure c r k =
    if k.cursor_id == c.max_consumers then r else set_cursor c r k.cursor_id k.next

unfoldable pub publish_cursor : Config → Ring → Consumer → Ring
unfolding publish_cursor_for
publish_cursor c r k = publish_cursor_for c.overflow c r k

abbrev pub fresh : ℕ → Consumer
fresh id = record { next = 0; read_seq = 0; cursor_id = id; last_status = Status.empty }

-- The constructor and the destructor.
unfoldable pub attach_for : Overflow → Config → Ring → Consumer × Ring
unfolding register_consumer
attach_for overwrite c r = (fresh c.max_consumers, r)
attach_for backpressure c r = let (id, r') = register_consumer c r in (fresh id, r')

unfoldable pub attach : Config → Ring → Consumer × Ring
unfolding attach_for
attach c r = attach_for c.overflow c r

unfoldable pub detach_for : Overflow → Config → Ring → Consumer → Ring
unfolding unregister_consumer
detach_for overwrite c r k = r
detach_for backpressure c r k =
    if k.cursor_id == c.max_consumers then r else unregister_consumer c r k.cursor_id

unfoldable pub detach : Config → Ring → Consumer → Ring
unfolding detach_for
detach c r k = detach_for c.overflow c r k

-- The move constructor: the new consumer, and what is left of the old one.
unfoldable pub move : Config → Consumer → Consumer × Consumer
move c k = (k, record k { cursor_id = c.max_consumers })

unfoldable pub commit : Config → Ring → Consumer → Consumer × Ring
unfolding publish_cursor
commit c r k = let k' = record k { next = u64 (k.read_seq + 1) } in (k', publish_cursor c r k')

unfoldable pub seek : Config → Ring → Consumer → ℕ → Consumer × Ring
unfolding publish_cursor
seek c r k seq = let k' = record k { next = seq } in (k', publish_cursor c r k')

-- The oldest sequence number in the ring when `count` messages have been published.
abbrev pub oldest : Config → ℕ → ℕ
oldest c count = if ltb c.capacity count then count - c.capacity else 0

unfoldable pub resync : Config → Ring → Consumer → ℕ → Consumer × Ring
unfolding publish_cursor
resync c r k count = let k' = record k { next = oldest c count } in (k', publish_cursor c r k')

-- `read_copy(out, out_cap)` behind its `do_read`, by `last_status_`, where nothing else runs between
-- its loads: the bytes copied, the consumer and the ring.
unfoldable pub copy_for : Status → Config → Ring → Consumer → ℕ → List ℕ × Consumer × Ring
unfolding span validate commit
copy_for ok c r k out_cap =
    let slot = slot_at c r k.read_seq in
    let n = if leb slot.len out_cap then slot.len else out_cap in
    let committed = commit c r k in
    if validate c r k
    then (span slot.payload 0 n, committed.0, committed.1)
    else ([], record k { last_status = lapped }, r)
copy_for empty c r k out_cap = ([], k, r)
copy_for lapped c r k out_cap = ([], k, r)

-- The number that `read_copy` returns is the number of bytes.
unfoldable pub read_copy : Config → Ring → Consumer → ℕ → List ℕ × Consumer × Ring
unfolding do_read copy_for
read_copy c r k out_cap = let k' = do_read c r k in copy_for k'.last_status c r k' out_cap
