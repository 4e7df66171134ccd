-- ===== src/Membership/Overtaken.antt =====
-- A run of include/shimmy/ring.hpp and include/shimmy/shm_segment.hpp on x86-64 under Backpressure, with two
-- slots and one cursor, in which a consumer takes over a cursor that another one has given back.
use shimmy.Common.{
  ℕ, ◌-◌, ◌≤◌, ◌<◌, ◌≡◌, refl, true, false, List, [], ◌∷◌, ◌++◌, arith, update, max_u64,
}
use shimmy.Config.{Config}
use shimmy.Ring.{Ring, init}
use shimmy.Ring.Log.{Log}
use shimmy.Ring.Tests.{zeroed, lossless}
use shimmy.Ring.Seats.{store_in_use}
use shimmy.Consumer.{status_of}
use shimmy.System.{idle, sizing, polling, lapsed, find_lapped, Got}
use shimmy.StoreOrder.{
  len_store, stamp_store, count_store, view, call_first, call_waiting, see_claimed, see_past,
  all_past, set_len, stamp, count,
}
use shimmy.Membership.{
  Member, outside, reading, construct, exchange, start, look, seek, trying, starting, seated,
  seeking, departing, with_cursors, dismiss, read, release,
}
use shimmy.Membership.Buffers.{
  CursorStore, value_store, in_use_store, apply_cursor, deserted, Assembly, look_at, emit, drain,
  attend, drain_cursor, Occurs, begin, later,
}

-- Two slots, one cursor.
abbrev single : Config
single = record lossless { capacity = 2; max_consumers = 1 }

-- The producer rests, and its buffer is empty.
abbrev at_rest : Ring → (ℕ → Member) → (ℕ → List CursorStore) → (ℕ → Got) → Log → Assembly
at_rest r members shown got log = record {
  memory = r;
  pending = [];
  pc = idle;
  members = members;
  shown = shown;
  got = got;
  log = log;
}

abbrev called : Assembly → Assembly
called s = record s { pc = sizing s.memory.next_publish [] }

-- The ring after the stores of an empty message.
abbrev stored : Ring → Ring
stored r =
    let seq = r.next_publish in
    view single (len_store seq 0 ∷ stamp_store seq [] ∷ count_store seq ∷ []) r

module _ {r : Ring} {members : ℕ → Member} {shown : ℕ → List CursorStore} {got : ℕ → Got}
    {log : Log} where
  send_rest :
      Occurs single (called (at_rest r members shown got log))
      → Occurs single (at_rest (stored r) members shown got (log ++ ([] ∷ [])))
  send_rest before =
      let emitted = later (later (later before (emit set_len)) (emit (stamp refl))) (emit count) in
      later (later (later emitted (drain refl)) (drain refl)) (drain refl)

  -- One of the first messages.
  send_early :
      r.next_publish < 2
      → Occurs single (at_rest r members shown got log)
      → Occurs single (at_rest (stored r) members shown got (log ++ ([] ∷ [])))
  send_early lt before = send_rest (later before (look_at (call_first [] (omega arith) refl lt)))

  -- A later one, when memory has the cursor past the message in the slot.
  send_late :
      2 ≤ r.next_publish
      → (r.cursors 0).in_use ≡ true
      → r.next_publish - 2 < (r.cursors 0).value
      → Occurs single (at_rest r members shown got log)
      → Occurs single (at_rest (stored r) members shown got (log ++ ([] ∷ [])))
  send_late le used past before =
      let waits = later before (look_at (call_waiting [] (omega arith) refl le)) in
      let passes =
        later (later waits (look_at (see_claimed (omega arith) used))) (look_at (see_past past)) in
      send_rest (later passes (look_at (all_past refl)))

-- A step that is no compare-exchange.
plain : {stores : List CursorStore} → false ≡ true → stores ≡ []
plain e = absurd (cc)

-- A consumer's step, to this ring and this place, with these stores.
abbrev stepped : Assembly → ℕ → Ring → Member → List CursorStore → Assembly
stepped s i r m stores = record s {
  memory = r;
  members = update s.members i m;
  shown = update s.shown i (s.shown i ++ stores);
  got = update s.got i [];
}

abbrev cursor_drained : Assembly → ℕ → CursorStore → List CursorStore → Assembly
cursor_drained s i st rest = record s {
  memory = apply_cursor st s.memory;
  shown = update s.shown i rest;
}

abbrev taken_ring : Ring → Ring
taken_ring r = with_cursors r (store_in_use r.cursors 0 true)

-- Consumer `i` tries for the cursor, claims it, and is constructed.
abbrev tries_for : Assembly → ℕ → Assembly
tries_for s i = stepped s i s.memory (trying 0) []

abbrev claims : Assembly → ℕ → Assembly
claims s i = stepped s i (taken_ring s.memory) (starting 0) []

abbrev starts : Assembly → ℕ → Assembly
starts s i = stepped s i s.memory (seated 0) (value_store 0 0 ∷ [])

abbrev first_taken : Assembly
first_taken = claims (tries_for (deserted single zeroed) 0) 0

first_taken-Occurs : Occurs single first_taken
unfolding init
first_taken-Occurs =
    later (later (begin zeroed) (attend 0 (construct refl) plain))
      (attend 0 (exchange (omega arith) refl) (λ e. refl))

abbrev first_seated : Assembly
first_seated = cursor_drained (starts first_taken 0) 0 (value_store 0 0) []

first_seated-Occurs : Occurs single first_seated
unfolding init
first_seated-Occurs = later (later first_taken-Occurs (attend 0 start plain)) (drain_cursor 0 refl)

-- Two messages.
abbrev sent : Assembly → Assembly
sent s = record s { memory = stored s.memory; log = s.log ++ ([] ∷ []) }

abbrev full : Assembly
full = sent (sent first_seated)

full-Occurs : Occurs single full
unfolding init
full-Occurs = send_early (omega arith) (send_early (omega arith) first_seated-Occurs)

-- Consumer 0 has left.
abbrev left_behind : Assembly
left_behind =
    let leaves = stepped full 0 full.memory (departing 0) (value_store 0 max_u64 ∷ []) in
    let gone = stepped leaves 0 full.memory outside (in_use_store 0 false ∷ []) in
    cursor_drained (cursor_drained gone 0 (value_store 0 max_u64) (in_use_store 0 false ∷ [])) 0
      (in_use_store 0 false) []

left_behind-Occurs : Occurs single left_behind
unfolding init
left_behind-Occurs =
    let leaves = later full-Occurs (attend 0 (dismiss (omega arith)) plain) in
    later (later (later leaves (attend 0 release plain)) (drain_cursor 0 refl))
      (drain_cursor 0 refl)

abbrev second_taken : Assembly
second_taken = claims (tries_for left_behind 1) 1

second_taken-Occurs : Occurs single second_taken
unfolding init
second_taken-Occurs =
    later (later left_behind-Occurs (attend 1 (construct refl) plain))
      (attend 1 (exchange (omega arith) refl) (λ e. refl))

-- Consumer 1 has attached at message 2, and both its stores wait.
abbrev second_seeks : Assembly
second_seeks =
    let s = starts second_taken 1 in
    let looks = stepped s 1 s.memory (seeking 0 2) [] in
    stepped looks 1 s.memory (reading 0 2 (polling 2)) (value_store 0 2 ∷ [])

second_seeks-Occurs : Occurs single second_seeks
unfolding init
second_seeks-Occurs =
    later (later (later second_taken-Occurs (attend 1 start plain)) (attend 1 look plain))
      (attend 1 seek plain)

-- Three messages more.
abbrev overtaken : Assembly
overtaken = sent (sent (sent second_seeks))

overtaken-Occurs : Occurs single overtaken
unfolding init
overtaken-Occurs = send_late (omega arith) refl (omega arith) (
    send_late (omega arith) refl (omega arith)
      (send_late (omega arith) refl (omega arith) second_seeks-Occurs))

-- Consumer 0 has left its cursor at max_u64. Consumer 1 has claimed it, and its store of 0 waits in
-- its buffer when it loads the count 2 and seeks to it. The producer sees the cursor claimed and at
-- max_u64, and publishes three more messages, of which the last takes the slot of message 2: the
-- consumer is told lapped, under Backpressure.
attached-lapsed : (s : Assembly) × Occurs single s × (s.members 1 ≡ reading 0 2 (lapsed 2))
unfolding init status_of
attached-lapsed = (_, later overtaken-Occurs (attend 1 (read (find_lapped refl)) plain), refl)
