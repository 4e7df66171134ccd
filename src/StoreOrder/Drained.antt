-- ===== src/StoreOrder/Drained.antt =====
-- What the producer has done by the time that its oldest store reaches memory, as a run of the
-- interleaved ring (`publish` and `await_consumers_past` of include/shimmy/ring.hpp): its loads, with
-- the whole scan of the cursors, and then that store.
use shimmy.Common.{zero, suc, ℕ, ◌+◌, ◌≡◌, inl, inr, List, arith, Bool-cases}
use shimmy.Config.{Config}
use shimmy.Ring.{Ring, Cursor}
use shimmy.Ring.Log.{Log}
use shimmy.System.{
  Pc, scanning, sizing, ReaderPc, Got, System, call_overwrite, call_first, call_waiting, skip_free,
  see_claimed, see_past, all_past, mark_slot, set_len, set_byte, stamp, count, produce, Reach,
  later,
}
use shimmy.StoreOrder.{
  Store, apply, log_after, Emit, mark_slot as marks, set_len as sizes, set_byte as copies,
  stamp as stamps, count as counts,
}
use shimmy.StoreOrder.Ahead.{
  IsPast, Loads, resting, at_mark, at_size, at_copy, at_count, begun_overwrite, begun_first,
  begun_scan, begun_compare, begun_past,
}

-- The state of the interleaved ring with these cursors.
abbrev pub in_step : Ring → (ℕ → Cursor) → Pc → (ℕ → ReaderPc) → (ℕ → Got) → Log → System
in_step memory cursors p readers got log = record {
  ring = record memory { cursors = cursors };
  pc = p;
  readers = readers;
  got = got;
  log = log;
}

module _ {c : Config} {n : ℕ} (memory : Ring) {cursors : ℕ → Cursor} {readers : ℕ → ReaderPc}
    {got : ℕ → Got} {log : Log} where
  -- The rest of a scan that every claimed cursor lets pass.
  scan-run :
      (seq : ℕ) (m : List ℕ)
      → IsPast c cursors seq c.max_consumers
      → (left i : ℕ) → left + i ≡ c.max_consumers
      → Reach c n (in_step memory cursors (scanning seq m i) readers got log)
      → Reach c n (in_step memory cursors (sizing seq m) readers got log)
  scan-run seq m past zero i e before = later before (produce (all_past {i = i} (omega (arith, e))))
  scan-run seq m past (suc left) i e before = elim (Bool-cases (cursors i).in_use) [
    | inr free ↦
        scan-run seq m past left (i + 1) (omega (arith, e))
          (later before (produce (skip_free (omega (arith, e)) free)))
    | inl used ↦ scan-run seq m past left (i + 1) (omega (arith, e)) (
        later (later before (produce (see_claimed (omega (arith, e)) used)))
          (produce (see_past (past i (omega (arith, e)) used))))
  ]

  -- Where the producer can store, it has passed all the cursors.
  Loads-run :
      {p p' p'' : Pc} {st : Store}
      → Loads c cursors memory.next_publish p p'
      → Emit p' st p''
      → Reach c n (in_step memory cursors p readers got log)
      → Reach c n (in_step memory cursors p' readers got log)
  Loads-run resting e before = before
  Loads-run at_mark e before = before
  Loads-run at_size e before = before
  Loads-run at_copy e before = before
  Loads-run at_count e before = before
  Loads-run (begun_overwrite {m} fits o) e before = later before (produce (call_overwrite m fits o))
  Loads-run (begun_first {m} fits o early) e before =
      later before (produce (call_first m fits o early))
  Loads-run (begun_past {m} waits past) e before =
      scan-run memory.next_publish m past c.max_consumers 0 (omega arith)
        (later before (produce (call_waiting m waits.0 waits.1 waits.2)))
  Loads-run (begun_scan waits lt past) e before = elim e [ ]
  Loads-run (begun_compare waits lt past) e before = elim e [ ]

  Emit-run :
      {p p' : Pc} {st : Store}
      → Emit p st p'
      → Reach c n (in_step memory cursors p readers got log)
      → Reach c n (in_step (apply c st memory) cursors p' readers got (log_after st log))
  Emit-run marks before = later before (produce mark_slot)
  Emit-run sizes before = later before (produce set_len)
  Emit-run (copies b e) before = later before (produce (set_byte b e))
  Emit-run (stamps e) before = later before (produce (stamp e))
  Emit-run counts before = later before (produce count)

  pub drain-run :
      {p p' p'' : Pc} {st : Store}
      → Loads c cursors memory.next_publish p p'
      → Emit p' st p''
      → Reach c n (in_step memory cursors p readers got log)
      → Reach c n (in_step (apply c st memory) cursors p'' readers got (log_after st log))
  drain-run l e before = Emit-run e (Loads-run l e before)
