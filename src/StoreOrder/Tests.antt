-- ===== src/StoreOrder/Tests.antt =====
-- A run of one message through the lossless ring of tests/ring_basic_test.cpp on x86-64: the reader
-- finds the message while the count of messages waits in the producer's buffer, and commits it while
-- its cursor waits in its own.
use shimmy.Common.{ℕ, ◌≡◌, ◌≢◌, ◌<◌, refl, some, ◌∷◌, [], List, arith, get_elem?, take, update}
use shimmy.Ring.{init, slot_at}
use shimmy.Ring.Tests.{zeroed, lossless, lossless-IsRingConfig}
use shimmy.Consumer.{status_of}
use shimmy.System.{
  System, Reach, ReaderPc, idle, polling, holding, viewing, accepted, lapsed, find_ok, load_len,
  load_byte, validate_true, commit,
}
use shimmy.System.Safety.{messages}
use shimmy.StoreOrder.{
  Store, len_store, byte_store, stamp_store, count_store, view, call_first, set_len, set_byte,
  stamp, count, Buffers, look, emit, drain, consume, empty_buffers, Flows, begin, later,
}
use shimmy.StoreOrder.Refine.{flows-Reach, flows-message, flows-lossless}

abbrev seven : List ℕ
seven = 7 ∷ []

abbrev stores : List Store
stores = len_store 0 1 ∷ byte_store 0 0 7 ∷ stamp_store 0 seven ∷ count_store 0 ∷ []

abbrev fresh : Buffers
fresh = empty_buffers lossless 1 zeroed

-- All stores of `publish` wait.
abbrev waiting : Buffers
waiting = record fresh { pending = stores; pc = idle }

waiting-Flows : Flows lossless 1 waiting
unfolding init
waiting-Flows =
    let called = later (begin zeroed) (look (call_first seven (omega arith) refl (omega arith))) in
    later (later (later (later called (emit set_len)) (emit (set_byte 7 refl))) (emit (stamp refl)))
      (emit count)

-- The stamp has reached memory, the count has not.
abbrev stamped : Buffers
stamped = record fresh {
  memory = view lossless (len_store 0 1 ∷ byte_store 0 0 7 ∷ stamp_store 0 seven ∷ []) fresh.memory;
  pending = count_store 0 ∷ [];
  log = seven ∷ [];
}

stamped-Flows : Flows lossless 1 stamped
stamped-Flows = later (later (later waiting-Flows (drain refl)) (drain refl)) (drain refl)

abbrev reads : Buffers → ReaderPc → Buffers
reads s q = record s {
  readers = update s.readers 0 q;
  shown = update s.shown 0 (s.shown 0);
  got = update s.got 0 (s.got 0);
}

abbrev opened : Buffers
opened = reads (reads (reads stamped (holding 0)) (viewing 0 1 [])) (viewing 0 1 seven)

opened-Flows : Flows lossless 1 opened
unfolding init status_of
opened-Flows =
    later
      (later (later stamped-Flows (consume 0 (omega arith) (find_ok refl)))
        (consume 0 (omega arith) load_len))
      (consume 0 (omega arith) (load_byte (omega arith)))

abbrev committed : Buffers
committed =
    let checked = reads opened (accepted 0 seven) in
    record checked {
      readers = update checked.readers 0 (polling 1);
      shown = update checked.shown 0 (1 ∷ []);
      got = update checked.got 0 ((0, seven) ∷ checked.got 0);
    }

committed-Flows : Flows lossless 1 committed
unfolding init status_of
committed-Flows =
    later
      (later opened-Flows
        (consume 0 (omega arith) (validate_true {want = 0} {len = 1} {bytes = seven} refl refl)))
      (consume 0 (omega arith) commit)

flows-Reach_example :
    (t : System) × Reach lossless 1 t
    × (t.ring.slots ≡ committed.memory.slots)
    × (t.ring.next_publish ≡ committed.memory.next_publish)
    × (t.readers ≡ committed.readers)
    × (t.got ≡ committed.got)
    × (t.log ≡ committed.log)
flows-Reach_example =
    flows-Reach lossless-IsRingConfig (λ o. omega arith) committed-Flows (omega arith)

flows-message_example : get_elem? (seven ∷ []) 0 ≡ some seven
unfolding init
flows-message_example =
    flows-message lossless-IsRingConfig (λ o. omega arith) opened-Flows (omega arith) 0 0 1 seven
      (omega arith) refl refl refl

flows-lossless_example :
    (messages ((0, seven) ∷ []) ≡ take 1 (seven ∷ []))
    × (1 < 1 → (slot_at lossless committed.memory 1).seq ≡ 1)
    × ((next : ℕ) → committed.readers 0 ≢ lapsed next)
flows-lossless_example =
    flows-lossless lossless-IsRingConfig (λ o. omega arith) committed-Flows (omega arith) refl 0
      (omega arith)
