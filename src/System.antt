-- ===== src/System.antt =====
-- One producer and `n` readers of include/shimmy/ring.hpp at work on one ring, one shared access at
-- a time: the stores of `publish`, the loads of `await_consumers_past`, of `do_read`, of a view's
-- bytes and of `validate`, and the stores of `commit` and `resync`, in any order.
pub mod Invariant
pub mod Growth
pub mod Stores
pub mod Producer
pub mod Reading
pub mod Moves
pub mod Reader
pub mod Reached
pub mod Safety
pub mod Progress
mod Tests
use shimmy.Common.{
  ℕ, zero, suc, ◌+◌, ◌-◌, ◌≤◌, ◌<◌, ◌≡◌, ◌≢◌, Bool, true, false, List, [], ◌∷◌, ◌++◌, Option, none,
  some, if◌then◌else◌, update, length, get_elem?, u64, ltb,
}
use shimmy.Config.{Config, overwrite, backpressure}
use shimmy.Ring.{
  Ring, Cursor, init, slot_at, store_seq, store_len, store_byte, advance, writing_seq,
}
use shimmy.Ring.Log.{Log}
use shimmy.Consumer.{Consumer, Status, ok, empty, lapped, status_of, publish_cursor, oldest}

-- Where `publish` stands, with its local `seq` and the message that it is given.
pub data Pc : Type 0 where
  idle : Pc
  scanning : (seq : ℕ) (m : List ℕ) (i : ℕ) → Pc  -- before the load of `cursors_[i].in_use`
  comparing : (seq : ℕ) (m : List ℕ) (i : ℕ) → Pc  -- before the load of `cursors_[i].value`
  marking : (seq : ℕ) (m : List ℕ) → Pc
  sizing : (seq : ℕ) (m : List ℕ) → Pc  -- before the store of `len`
  copying : (seq : ℕ) (m : List ℕ) (i : ℕ) → Pc  -- inside `memcpy`, at byte `i`
  advancing : (seq : ℕ) → Pc  -- before the store of `next_publish_`

-- Where a reader stands, with `next_` or `read_seq_` and what it has read.
pub data ReaderPc : Type 0 where
  polling : (next : ℕ) → ReaderPc
  holding : (want : ℕ) → ReaderPc  -- `do_read` said ok; before the load of `len`
  viewing : (want len : ℕ) (bytes : List ℕ) → ReaderPc  -- reading the view, or done with it
  accepted : (want : ℕ) (bytes : List ℕ) → ReaderPc  -- `validate` said true
  lapsed : (next : ℕ) → ReaderPc  -- `do_read` said lapped

-- What a reader has committed, newest first: sequence numbers and bytes.
abbrev pub Got : Type 0
Got = List (ℕ × List ℕ)

-- A step of the producer; `log` is the list of the messages stamped so far. The marker exists under
-- Overwrite alone, the scan under Backpressure alone.
pub data Produce (c : Config) (r : Ring) (log : Log) : Pc → Ring → Pc → Log → Type 0 where
  call_overwrite :
      (m : List ℕ)
      → length m ≤ c.block_size
      → c.overflow ≡ overwrite
      → Produce c r log idle r (marking r.next_publish m) log
  call_first :
      (m : List ℕ)
      → length m ≤ c.block_size
      → c.overflow ≡ backpressure
      → r.next_publish < c.capacity
      → Produce c r log idle r (sizing r.next_publish m) log
  call_waiting :
      (m : List ℕ)
      → length m ≤ c.block_size
      → c.overflow ≡ backpressure
      → c.capacity ≤ r.next_publish
      → Produce c r log idle r (scanning r.next_publish m 0) log
  skip_free :
      {seq i : ℕ} {m : List ℕ}
      → i < c.max_consumers
      → (r.cursors i).in_use ≡ false
      → Produce c r log (scanning seq m i) r (scanning seq m (i + 1)) log
  see_claimed :
      {seq i : ℕ} {m : List ℕ}
      → i < c.max_consumers
      → (r.cursors i).in_use ≡ true
      → Produce c r log (scanning seq m i) r (comparing seq m i) log
  see_behind :
      {seq i : ℕ} {m : List ℕ}
      → (r.cursors i).value ≤ seq - c.capacity
      → Produce c r log (comparing seq m i) r (scanning seq m 0) log
  see_past :
      {seq i : ℕ} {m : List ℕ}
      → seq - c.capacity < (r.cursors i).value
      → Produce c r log (comparing seq m i) r (scanning seq m (i + 1)) log
  all_past :
      {seq i : ℕ} {m : List ℕ}
      → i ≡ c.max_consumers
      → Produce c r log (scanning seq m i) r (sizing seq m) log
  mark_slot :
      {seq : ℕ} {m : List ℕ}
      → Produce c r log (marking seq m) (store_seq c r seq writing_seq) (sizing seq m) log
  set_len :
      {seq : ℕ} {m : List ℕ}
      → Produce c r log (sizing seq m) (store_len c r seq (length m)) (copying seq m 0) log
  set_byte :
      {seq i : ℕ} {m : List ℕ} (b : ℕ)
      → get_elem? m i ≡ some b
      → Produce c r log (copying seq m i) (store_byte c r seq i b) (copying seq m (i + 1)) log
  stamp :
      {seq i : ℕ} {m : List ℕ}
      → i ≡ length m
      → Produce c r log (copying seq m i) (store_seq c r seq seq) (advancing seq) (log ++ (m ∷ []))
  count : {seq : ℕ} → Produce c r log (advancing seq) (advance r seq) idle log

-- The consumer that `commit` and `resync` leave, as far as `publish_cursor` reads it.
abbrev pub at_next : ℕ → ℕ → Consumer
at_next i next = record { next = next; read_seq = 0; cursor_id = i; last_status = ok }

-- A step of reader `i`, whose cursor is number `i`, and what it commits by it.
pub data Consume (c : Config) (i : ℕ) (r : Ring)
    : ReaderPc → Ring → ReaderPc → Option (ℕ × List ℕ) → Type 0 where
  find_ok :
      {next : ℕ}
      → status_of (slot_at c r next).seq next ≡ ok
      → Consume c i r (polling next) r (holding next) none
  find_empty :
      {next : ℕ}
      → status_of (slot_at c r next).seq next ≡ empty
      → Consume c i r (polling next) r (polling next) none
  find_lapped :
      {next : ℕ}
      → status_of (slot_at c r next).seq next ≡ lapped
      → Consume c i r (polling next) r (lapsed next) none
  load_len :
      {want : ℕ} → Consume c i r (holding want) r (viewing want (slot_at c r want).len []) none
  load_byte :
      {want len : ℕ} {bytes : List ℕ}
      → length bytes < len
      → Consume c i r
          (viewing want len bytes)
          r
          (viewing want len (bytes ++ ((slot_at c r want).payload (length bytes) ∷ [])))
          none
  validate_true :
      {want len : ℕ} {bytes : List ℕ}
      → length bytes ≡ len
      → (slot_at c r want).seq ≡ want
      → Consume c i r (viewing want len bytes) r (accepted want bytes) none
  validate_false :
      {want len : ℕ} {bytes : List ℕ}
      → (slot_at c r want).seq ≢ want
      → Consume c i r (viewing want len bytes) r (polling want) none
  commit :
      {want : ℕ} {bytes : List ℕ}
      → Consume c i r
          (accepted want bytes)
          (publish_cursor c r (at_next i (u64 (want + 1))))
          (polling (u64 (want + 1)))
          (some (want, bytes))
  resync :
      {next : ℕ}
      → Consume c i r
          (lapsed next)
          (publish_cursor c r (at_next i (oldest c r.next_publish)))
          (polling (oldest c r.next_publish))
          none

pub record System : Type 0 where
  pub ring : Ring
  pub pc : Pc
  pub readers : ℕ → ReaderPc
  pub got : ℕ → Got
  pub log : Log

abbrev pub add_got : Option (ℕ × List ℕ) → Got → Got
add_got none g = g
add_got (some e) g = e ∷ g

pub data Step (c : Config) (n : ℕ) (s : System) : System → Type 0 where
  produce :
      {r : Ring} {p : Pc} {log : Log}
      → Produce c s.ring s.log s.pc r p log
      → Step c n s (record s { ring = r; pc = p; log = log })
  consume :
      (i : ℕ) {r : Ring} {q : ReaderPc} {o : Option (ℕ × List ℕ)}
      → i < n
      → Consume c i s.ring (s.readers i) r q o
      → Step c n s (record s {
        ring = r;
        readers = update s.readers i q;
        got = update s.got i (add_got o (s.got i));
      })

-- Every reader has attached before the first message, and none leaves: under Backpressure reader
-- `i` has claimed cursor `i`.
abbrev pub start_cursor : Config → ℕ → ℕ → Cursor
start_cursor c n i = record {
  value = 0;
  in_use = elim c.overflow [ overwrite ↦ false | backpressure ↦ if ltb i n then true else false ];
}

abbrev pub start : Config → ℕ → Ring → System
start c n region = record {
  ring = record (init c region) { cursors = start_cursor c n };
  pc = idle;
  readers = λ _. polling 0;
  got = λ _. [];
  log = [];
}

-- What the producer and the readers can bring about, from any content of the region.
pub data Reach (c : Config) (n : ℕ) : System → Type 0 where
  begin : (region : Ring) → Reach c n (start c n region)
  later : {s t : System} → Reach c n s → Step c n s t → Reach c n t
