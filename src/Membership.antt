-- ===== src/Membership.antt =====
-- One producer and any number of consumers of include/shimmy/ring.hpp that come and go while it
-- publishes: the accesses of `register_consumer`, of `attach_consumer_at_current` in
-- include/shimmy/shm_segment.hpp and of `unregister_consumer`, interleaved with those of `publish` and
-- of the readers' loops. Every access is seen at once by all (sequentially consistent);
-- Membership/Buffers has the same accesses with the store buffers of x86-64.
pub mod Invariant
pub mod Carry
pub mod Touching
pub mod Producer
pub mod Reading
pub mod Storing
pub mod Showing
pub mod Attending
pub mod Reached
pub mod Safety
mod Tests
mod TurnedAway
pub mod Buffers
mod Overtaken
use shimmy.Common.{
  ℕ, ◌+◌, ◌≤◌, ◌<◌, ◌≡◌, ◌≢◌, Bool, true, false, List, [], ◌∷◌, Option, none, some, update, length,
  max_u64,
}
use shimmy.Config.{Config, overwrite, backpressure}
use shimmy.Ring.{Ring, Cursor, init}
use shimmy.Ring.Log.{Log}
use shimmy.Ring.Seats.{store_in_use, store_value}
use shimmy.Consumer.{publish_cursor}
use shimmy.System.{Pc, idle, Produce, ReaderPc, polling, Consume, at_next, Got, add_got}

-- Where a consumer stands in its life. `id` is its `cursor_id_`, MaxConsumers if it has no cursor.
pub data Member : Type 0 where
  outside : Member
  trying : (i : ℕ) → Member  -- before the compare-exchange on `cursors_[i].in_use`
  starting : (id : ℕ) → Member  -- before the store of 0 to the cursor that it has claimed
  seated : (id : ℕ) → Member  -- constructed
  seeking : (id cur : ℕ) → Member  -- `produced()` said `cur`; before the store of `seek`
  reading : (id base : ℕ) (q : ReaderPc) → Member  -- `base` is the message that it began at
  departing : (id : ℕ) → Member  -- between the two stores of `unregister_consumer`

-- The ring with other cursors.
abbrev pub with_cursors : Ring → (ℕ → Cursor) → Ring
with_cursors r cursors = record r { cursors = cursors }

-- What a step of one consumer does: to the ring, to where it stands, and to what it has committed.
pub data Attend (c : Config) (r : Ring) (log : Log)
    : Member → Got → Ring → Member → Got → Type 0 where
  construct_free :
      {g : Got} → c.overflow ≡ overwrite → Attend c r log outside g r (seated c.max_consumers) []
  construct : {g : Got} → c.overflow ≡ backpressure → Attend c r log outside g r (trying 0) []
  exchange :
      {i : ℕ} {g : Got}
      → i < c.max_consumers
      → (r.cursors i).in_use ≡ false
      → Attend c r log (trying i) g (with_cursors r (store_in_use r.cursors i true)) (starting i) g
  refused :
      {i : ℕ} {g : Got}
      → i < c.max_consumers
      → (r.cursors i).in_use ≡ true
      → Attend c r log (trying i) g r (trying (i + 1)) g
  turn_away :
      {i : ℕ} {g : Got}
      → c.max_consumers ≤ i
      → Attend c r log (trying i) g r (seated c.max_consumers) g
  start :
      {id : ℕ} {g : Got}
      → Attend c r log (starting id) g (with_cursors r (store_value r.cursors id 0)) (seated id) g
  look : {id : ℕ} {g : Got} → Attend c r log (seated id) g r (seeking id r.next_publish) g
  seek :
      {id cur : ℕ} {g : Got}
      → Attend c r log
          (seeking id cur)
          g
          (publish_cursor c r (at_next id cur))
          (reading id cur (polling cur))
          g
  -- A consumer that reads from message 0 on: no access, so it stands directly after the constructor.
  -- Under Backpressure the contract of `register_consumer` is that this is before the Capacity-th
  -- message.
  begin_at_zero :
      {id : ℕ} {g : Got}
      → (c.overflow ≡ backpressure → length log < c.capacity)
      → Attend c r log (seated id) g r (reading id 0 (polling 0)) g
  read :
      {id base : ℕ} {g : Got} {q q' : ReaderPc} {r' : Ring} {o : Option (ℕ × List ℕ)}
      → Consume c id r q r' q' o
      → Attend c r log (reading id base q) g r' (reading id base q') (add_got o g)
  -- A consumer may be destroyed before it has read anything.
  dismiss_free :
      {id : ℕ} {g : Got} → id ≡ c.max_consumers → Attend c r log (seated id) g r outside g
  dismiss :
      {id : ℕ} {g : Got}
      → id < c.max_consumers
      → Attend c r log
          (seated id)
          g
          (with_cursors r (store_value r.cursors id max_u64))
          (departing id)
          g
  destroy_free :
      {id base : ℕ} {g : Got} {q : ReaderPc}
      → id ≡ c.max_consumers
      → Attend c r log (reading id base q) g r outside g
  destroy :
      {id base : ℕ} {g : Got} {q : ReaderPc}
      → id < c.max_consumers
      → Attend c r log
          (reading id base q)
          g
          (with_cursors r (store_value r.cursors id max_u64))
          (departing id)
          g
  release :
      {id : ℕ} {g : Got}
      → Attend c r log (departing id) g (with_cursors r (store_in_use r.cursors id false)) outside g

pub record Gathering : Type 0 where
  pub ring : Ring
  pub pc : Pc
  pub members : ℕ → Member
  pub got : ℕ → Got
  pub log : Log

pub data Happen (c : Config) (s : Gathering) : Gathering → Type 0 where
  produce :
      {r : Ring} {p : Pc} {log : Log}
      → Produce c s.ring s.log s.pc r p log
      → Happen c s (record s { ring = r; pc = p; log = log })
  attend :
      (i : ℕ) {r : Ring} {m : Member} {g : Got}
      → Attend c s.ring s.log (s.members i) (s.got i) r m g
      → Happen c s (record s { ring = r; members = update s.members i m; got = update s.got i g })

-- After `init`, with nobody there.
abbrev pub opening : Config → Ring → Gathering
opening c region = record {
  ring = init c region;
  pc = idle;
  members = λ _. outside;
  got = λ _. [];
  log = [];
}

-- What can come about, from any content of the region.
pub data Unfolds (c : Config) : Gathering → Type 0 where
  begin : (region : Ring) → Unfolds c (opening c region)
  later : {s t : Gathering} → Unfolds c s → Happen c s t → Unfolds c t
