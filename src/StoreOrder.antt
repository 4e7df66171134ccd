-- ===== src/StoreOrder.antt =====
-- One producer and `n` readers of include/shimmy/ring.hpp on x86-64: every thread's stores wait in its
-- store buffer and reach memory in their order, at any time; a load sees the thread's own buffer first
-- and memory otherwise. The acquire loads, release stores and fences of `publish`, of
-- `await_consumers_past`, of the readers' loop and of `set_cursor` compile to plain loads and stores
-- there.
pub mod Ahead
pub mod Drained
pub mod Tied
pub mod Producing
pub mod Consuming
pub mod Refine
mod Tests
use shimmy.Common.{
  ℕ, ◌+◌, ◌-◌, ◌≤◌, ◌<◌, ◌≡◌, Bool, true, false, List, [], ◌∷◌, ◌++◌, Option, none, some, update,
  length, get_elem?, u64,
}
use shimmy.Config.{Config, overwrite, backpressure}
use shimmy.Ring.{Ring, store_seq, store_len, store_byte, advance, writing_seq}
use shimmy.Ring.Log.{Log}
use shimmy.Consumer.{publish_cursor, oldest}
use shimmy.System.{
  Pc, idle, scanning, comparing, marking, sizing, copying, advancing, ReaderPc, polling, Consume,
  find_ok, find_empty, find_lapped, load_len, load_byte, validate_true, validate_false, commit,
  resync, at_next, Got, add_got, start,
}

-- A store of `publish`; that of a stamp names the message that it completes.
pub data Store : Type 0 where
  mark_store : (seq : ℕ) → Store
  len_store : (seq len : ℕ) → Store
  byte_store : (seq i b : ℕ) → Store
  stamp_store : (seq : ℕ) (m : List ℕ) → Store
  count_store : (seq : ℕ) → Store

abbrev pub apply : Config → Store → Ring → Ring
apply c (mark_store seq) r = store_seq c r seq writing_seq
apply c (len_store seq len) r = store_len c r seq len
apply c (byte_store seq i b) r = store_byte c r seq i b
apply c (stamp_store seq m) r = store_seq c r seq seq
apply c (count_store seq) r = advance r seq

abbrev pub log_after : Store → Log → Log
log_after (mark_store seq) log = log
log_after (len_store seq len) log = log
log_after (byte_store seq i b) log = log
log_after (stamp_store seq m) log = log ++ (m ∷ [])
log_after (count_store seq) log = log

-- The ring as the producer sees it, through its buffer.
abbrev pub view : Config → List Store → Ring → Ring
view c [] r = r
view c (st ∷ pending) r = view c pending (apply c st r)

-- A step of the producer that loads at most, on the ring that it sees.
pub data Look (c : Config) (r : Ring) : Pc → Pc → Type 0 where
  call_overwrite :
      (m : List ℕ)
      → length m ≤ c.block_size
      → c.overflow ≡ overwrite
      → Look c r idle (marking r.next_publish m)
  call_first :
      (m : List ℕ)
      → length m ≤ c.block_size
      → c.overflow ≡ backpressure
      → r.next_publish < c.capacity
      → Look c r idle (sizing r.next_publish m)
  call_waiting :
      (m : List ℕ)
      → length m ≤ c.block_size
      → c.overflow ≡ backpressure
      → c.capacity ≤ r.next_publish
      → Look c r idle (scanning r.next_publish m 0)
  skip_free :
      {seq i : ℕ} {m : List ℕ}
      → i < c.max_consumers
      → (r.cursors i).in_use ≡ false
      → Look c r (scanning seq m i) (scanning seq m (i + 1))
  see_claimed :
      {seq i : ℕ} {m : List ℕ}
      → i < c.max_consumers
      → (r.cursors i).in_use ≡ true
      → Look c r (scanning seq m i) (comparing seq m i)
  see_behind :
      {seq i : ℕ} {m : List ℕ}
      → (r.cursors i).value ≤ seq - c.capacity
      → Look c r (comparing seq m i) (scanning seq m 0)
  see_past :
      {seq i : ℕ} {m : List ℕ}
      → seq - c.capacity < (r.cursors i).value
      → Look c r (comparing seq m i) (scanning seq m (i + 1))
  all_past :
      {seq i : ℕ} {m : List ℕ} → i ≡ c.max_consumers → Look c r (scanning seq m i) (sizing seq m)

-- A step that stores.
pub data Emit : Pc → Store → Pc → Type 0 where
  mark_slot : {seq : ℕ} {m : List ℕ} → Emit (marking seq m) (mark_store seq) (sizing seq m)
  set_len :
      {seq : ℕ} {m : List ℕ} → Emit (sizing seq m) (len_store seq (length m)) (copying seq m 0)
  set_byte :
      {seq i : ℕ} {m : List ℕ} (b : ℕ)
      → get_elem? m i ≡ some b
      → Emit (copying seq m i) (byte_store seq i b) (copying seq m (i + 1))
  stamp :
      {seq i : ℕ} {m : List ℕ}
      → i ≡ length m
      → Emit (copying seq m i) (stamp_store seq m) (advancing seq)
  count : {seq : ℕ} → Emit (advancing seq) (count_store seq) idle

-- What a reader's step stores to its cursor: `publish_cursor` in `commit` and `resync`.
abbrev pub shows :
    {c : Config} {i : ℕ} {r r' : Ring} {q q' : ReaderPc} {o : Option (ℕ × List ℕ)}
    → Consume c i r q r' q' o
    → List ℕ
shows (find_ok h) = []
shows (find_empty h) = []
shows (find_lapped h) = []
shows load_len = []
shows (load_byte h) = []
shows (validate_true h k) = []
shows (validate_false h) = []
shows (commit {want}) = u64 (want + 1) ∷ []
shows {c} {r = r} resync = oldest c r.next_publish ∷ []

-- `memory` is what has reached memory, `log` the messages whose stamp has; `pending` and `shown i` are
-- the store buffers of the producer and of reader `i`, oldest first.
pub record Buffers : Type 0 where
  pub memory : Ring
  pub pending : List Store
  pub pc : Pc
  pub readers : ℕ → ReaderPc
  pub shown : ℕ → List ℕ
  pub got : ℕ → Got
  pub log : Log

pub data Move (c : Config) (n : ℕ) (s : Buffers) : Buffers → Type 0 where
  look : {p : Pc} → Look c (view c s.pending s.memory) s.pc p → Move c n s (record s { pc = p })
  emit :
      {st : Store} {p : Pc}
      → Emit s.pc st p
      → Move c n s (record s { pending = s.pending ++ (st ∷ []); pc = p })
  drain :
      {st : Store} {rest : List Store}
      → s.pending ≡ st ∷ rest
      → Move c n s
          (record s { memory = apply c st s.memory; pending = rest; log = log_after st s.log })
  consume :
      (i : ℕ) {r : Ring} {q : ReaderPc} {o : Option (ℕ × List ℕ)}
      → i < n
      → (step : Consume c i s.memory (s.readers i) r q o)
      → Move c n s (record s {
        readers = update s.readers i q;
        shown = update s.shown i (s.shown i ++ shows step);
        got = update s.got i (add_got o (s.got i));
      })
  drain_cursor :
      (i : ℕ) {v : ℕ} {rest : List ℕ}
      → i < n
      → s.shown i ≡ v ∷ rest
      → Move c n s (record s {
        memory = publish_cursor c s.memory (at_next i v);
        shown = update s.shown i rest;
      })

-- The start of System, with empty buffers.
abbrev pub empty_buffers : Config → ℕ → Ring → Buffers
empty_buffers c n region = record {
  memory = (start c n region).ring;
  pending = [];
  pc = idle;
  readers = λ _. polling 0;
  shown = λ _. [];
  got = λ _. [];
  log = [];
}

pub data Flows (c : Config) (n : ℕ) : Buffers → Type 0 where
  begin : (region : Ring) → Flows c n (empty_buffers c n region)
  later : {s t : Buffers} → Flows c n s → Move c n s t → Flows c n t
