-- ===== src/System/Tests.antt =====
-- A run of one message through one reader, access by access, as tests/ring_basic_test.cpp does it
-- call by call, on a ring of each overflow policy.
use shimmy.Common.{ℕ, ◌≡◌, refl, List, [], ◌∷◌, some, arith, get_elem?, take, update}
use shimmy.Config.{Config}
use shimmy.Ring.{Ring, init, slot_at, store_seq, store_len, store_byte, writing_seq}
use shimmy.Ring.Tests.{zeroed, lossy, lossless, lossy-IsRingConfig, lossless-IsRingConfig}
use shimmy.Consumer.{publish_cursor, status_of}
use shimmy.System.{
  System, sizing, advancing, ReaderPc, polling, holding, viewing, accepted, at_next, start,
  call_overwrite, call_first, mark_slot, set_len, set_byte, stamp, find_ok, load_len, load_byte,
  validate_true, commit, produce, consume, Reach, begin, later,
}
use shimmy.System.Invariant.{InOrder}
use shimmy.System.Reached.{SystemInv, Reach-Inv}
use shimmy.System.Safety.{
  messages, committed-InOrder, validated-message, recent-stamp, lossless-messages,
}

abbrev seven : List ℕ
seven = 7 ∷ []

-- The ring when `seven` has been written to its first slot, before the count goes up.
abbrev written : Config → Ring → Ring
written c r = store_seq c (store_byte c (store_len c r 0 1) 0 0 7) 0 0

abbrev sized : Config → Ring → System
sized c r = record (start c 1 zeroed) { ring = r; pc = sizing 0 seven }

abbrev stamped_at : Config → Ring → System
stamped_at c r = record (start c 1 zeroed) {
  ring = written c r;
  pc = advancing 0;
  log = seven ∷ [];
}

written-Reach : (c : Config) (r : Ring) → Reach c 1 (sized c r) → Reach c 1 (stamped_at c r)
written-Reach c r before =
    later (later (later before (produce set_len)) (produce (set_byte 7 refl)))
      (produce (stamp refl))

-- Where reader 0 stands, and what it has committed.
abbrev reads : System → ReaderPc → System
reads s q = record s { readers = update s.readers 0 q; got = update s.got 0 (s.got 0) }

abbrev marked_ring : Ring
marked_ring = store_seq lossy (start lossy 1 zeroed).ring 0 writing_seq

lossy-Reach : Reach lossy 1 (stamped_at lossy marked_ring)
unfolding init
lossy-Reach = written-Reach lossy marked_ring (
    later (later (begin zeroed) (produce (call_overwrite seven (omega arith) refl)))
      (produce mark_slot))

lossless-Reach : Reach lossless 1 (stamped_at lossless (start lossless 1 zeroed).ring)
unfolding init
lossless-Reach =
    written-Reach lossless _
      (later (begin zeroed) (produce (call_first seven (omega arith) refl (omega arith))))

-- The reader has read the message.
abbrev opened : Config → Ring → System
opened c r = reads (reads (reads (stamped_at c r) (holding 0)) (viewing 0 1 [])) (viewing 0 1 seven)

abbrev lossy_read : System
lossy_read = opened lossy marked_ring

lossy_read-Reach : Reach lossy 1 lossy_read
unfolding init status_of
lossy_read-Reach =
    later
      (later (later lossy-Reach (consume 0 (omega arith) (find_ok refl)))
        (consume 0 (omega arith) load_len))
      (consume 0 (omega arith) (load_byte (omega arith)))

-- It has committed it.
abbrev committed : Config → System → System
committed c s =
    let checked = reads s (accepted 0 seven) in
    record checked {
      ring = publish_cursor c checked.ring (at_next 0 1);
      readers = update checked.readers 0 (polling 1);
      got = update checked.got 0 ((0, seven) ∷ checked.got 0);
    }

lossy_end-Reach : Reach lossy 1 (committed lossy lossy_read)
unfolding init status_of publish_cursor
lossy_end-Reach =
    later
      (later lossy_read-Reach
        (consume 0 (omega arith) (validate_true {want = 0} {len = 1} {bytes = seven} refl refl)))
      (consume 0 (omega arith) commit)

abbrev lossless_read : System
lossless_read = opened lossless (start lossless 1 zeroed).ring

lossless_end-Reach : Reach lossless 1 (committed lossless lossless_read)
unfolding init status_of publish_cursor
lossless_end-Reach =
    let found = later lossless-Reach (consume 0 (omega arith) (find_ok refl)) in
    let read : Reach lossless 1 lossless_read =
      later (later found (consume 0 (omega arith) load_len))
        (consume 0 (omega arith) (load_byte (omega arith))) in
    later
      (later read
        (consume 0 (omega arith) (validate_true {want = 0} {len = 1} {bytes = seven} refl refl)))
      (consume 0 (omega arith) commit)

Reach-Inv_example : SystemInv lossy 1 lossy_read
Reach-Inv_example =
    Reach-Inv lossy-IsRingConfig (λ o. absurd (ground arith)) lossy_read-Reach (omega arith)

committed-InOrder_example : InOrder (seven ∷ []) 1 ((0, seven) ∷ [])
committed-InOrder_example =
    committed-InOrder lossy-IsRingConfig (λ o. absurd (ground arith)) lossy_end-Reach (omega arith)
      0

validated-message_example : get_elem? (seven ∷ []) 0 ≡ some seven
unfolding init
validated-message_example =
    validated-message lossy-IsRingConfig (λ o. absurd (ground arith)) lossy_read-Reach (omega arith)
      0 0 1 seven (omega arith) refl refl refl

recent-stamp_example : (slot_at lossy (written lossy marked_ring) 0).seq ≡ 0
recent-stamp_example =
    recent-stamp lossy-IsRingConfig (λ o. absurd (ground arith)) lossy-Reach (omega arith) 0
      (omega arith) (omega arith)

lossless-messages_example : messages ((0, seven) ∷ []) ≡ take 1 (seven ∷ [])
lossless-messages_example =
    lossless-messages lossless-IsRingConfig (λ o. omega arith) lossless_end-Reach (omega arith) refl
      0 (omega arith)
