-- ===== src/System/Progress.antt =====
-- The wait of `publish` under Backpressure (`await_consumers_past` in include/shimmy/ring.hpp) in the
-- interleaved ring.
use shimmy.Common.{ℕ, ◌-◌, ◌≤◌, ◌<◌, ◌≡◌, List, length, arith}
use mathlib.Core.Path.{subst}
use shimmy.Config.{Config, IsRingConfig, backpressure}
use shimmy.Ring.{slot_at, writing_seq}
use shimmy.Consumer.{ok, status_of}
use shimmy.Consumer.Reads.{status_of-ok}
use shimmy.System.{System, comparing, Reach}
use shimmy.System.Invariant.{PcOk, next_of}
use shimmy.System.Reached.{Reach-Inv}
use shimmy.System.Safety.{lossless-stamp}

module _ {c : Config} (v : IsRingConfig c) {n : ℕ}
    (few : c.overflow ≡ backpressure → n ≤ c.max_consumers) {s : System} (reached : Reach c n s)
    (short : length s.log < writing_seq) where
  -- In every state reached with fewer than writing_seq messages stamped, with at most
  -- max_consumers readers, attached before the first message: when the producer compares a cursor
  -- that is still at or below the message in the slot it wants, that cursor belongs to one of the
  -- readers, the message that this reader is at has been published, and `do_read` finds it ok.
  pub held_back-status_of :
      (seq i : ℕ) (m : List ℕ)
      → s.pc ≡ comparing seq m i
      → (s.ring.cursors i).value ≤ seq - c.capacity
      → (i < n)
        × (next_of (s.readers i) < length s.log)
        × (status_of (slot_at c s.ring (next_of (s.readers i))).seq (next_of (s.readers i)) ≡ ok)
  held_back-status_of seq i m at behind =
      let inv = Reach-Inv v few reached short in
      let (cur, (o, late, seen), used) = subst (PcOk c s.log s.ring) at inv.producer in
      let lt = inv.owned i used in
      let held = inv.held o i lt in
      let old : next_of (s.readers i) < length s.log =
        omega (arith, held.here, cur.0, v.at_least_two) in
      (lt, old, status_of-ok _ _ (lossless-stamp v few reached short o i lt old))
