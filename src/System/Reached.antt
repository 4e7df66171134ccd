-- ===== src/System/Reached.antt =====
-- The invariant in every state that the producer and the readers of include/shimmy/ring.hpp reach
-- from a ring after `init`, in which under Backpressure each reader has claimed its cursor.
use shimmy.Common.{inl, inr, ℕ, ◌≤◌, ◌<◌, ◌≡◌, refl, true, arith, length, length-snoc}
use shimmy.Config.{Config, Overflow-cases, IsRingConfig, backpressure}
use shimmy.Ring.{Ring, writing_seq}
use shimmy.Ring.Log.{Log}
use shimmy.Ring.Publish.{init-Logs}
use shimmy.System.{
  Pc, System, Produce, call_overwrite, call_first, call_waiting, skip_free, see_claimed, see_behind,
  see_past, all_past, mark_slot, set_len, set_byte, stamp, count, Step, produce, consume, Reach,
  begin, later, start, start_cursor,
}
use shimmy.System.Invariant.{Inv}
use shimmy.System.Producer.{Produce-Inv}
use shimmy.System.Reader.{Consume-Inv}

start-owned : (c : Config) (n i : ℕ) → (start_cursor c n i).in_use ≡ true → i < n
start-owned c n i u = elim (Overflow-cases c.overflow) [
  | inl o ↦ let v = rw o at u in absurd (ground (arith, v))
  | inr o ↦ let v = rw o at u in ground (arith, v)
]

-- The invariant of a state of the whole.
abbrev pub SystemInv : Config → ℕ → System → Type 0
SystemInv c n s = Inv c n s.ring s.pc s.readers s.got s.log

module _ {c : Config} where
  -- A step of the producer adds to the log, if anything.
  pub log-grows :
      {r r' : Ring} {p p' : Pc} {log log' : Log}
      → Produce c r log p r' p' log'
      → length log ≤ length log'
  log-grows (call_overwrite m fits o) = omega arith
  log-grows (call_first m fits o early) = omega arith
  log-grows (call_waiting m fits o late) = omega arith
  log-grows (skip_free lt free) = omega arith
  log-grows (see_claimed lt used) = omega arith
  log-grows (see_behind low) = omega arith
  log-grows (see_past above) = omega arith
  log-grows (all_past end) = omega arith
  log-grows mark_slot = omega arith
  log-grows set_len = omega arith
  log-grows (set_byte b e) = omega arith
  log-grows {log = log} (stamp {m = m} e) = omega (arith, length-snoc log m)
  log-grows count = omega arith

module _ {c : Config} (v : IsRingConfig c) {n : ℕ}
    (few : c.overflow ≡ backpressure → n ≤ c.max_consumers) where
  start-used : (i : ℕ) → i < n → c.overflow ≡ backpressure → (start_cursor c n i).in_use ≡ true
  start-used i lt o = rw (o) (ground arith)

  start-Inv : (region : Ring) → SystemInv c n (start c n region)
  start-Inv region = record {
    few = few;
    owned = start-owned c n;
    slots = (init-Logs region v).slots;
    producer = (init-Logs region v).counted;
    reader = λ i. omega arith;
    ordered = λ i. tt;
    held = λ o i lt. record { used = start-used i lt o; here = refl; near = omega arith };
    complete = λ o i lt. refl;
  }

  Step-Inv :
      {s t : System} → length s.log < writing_seq → SystemInv c n s → Step c n s t → SystemInv c n t
  Step-Inv short inv (produce step) = Produce-Inv short step inv
  Step-Inv short inv (consume i lt step) = Consume-Inv v short inv i lt step

  Step-log : {s t : System} → Step c n s t → length s.log ≤ length t.log
  Step-log (produce step) = log-grows step
  Step-log (consume i lt step) = omega arith

  -- Every reachable state with fewer than writing_seq messages stamped and, under Backpressure, at
  -- most max_consumers readers satisfies the invariant: what the slots hold, where the producer
  -- and the readers stand, the order of what was committed and, under Backpressure, each cursor
  -- claimed, at its reader's `next_` and at most a lap behind.
  pub Reach-Inv : {s : System} → Reach c n s → length s.log < writing_seq → SystemInv c n s
  Reach-Inv (begin region) short = start-Inv region
  Reach-Inv (later {s} {t} before step) short =
      let old : length s.log < writing_seq = omega (arith, Step-log step) in
      Step-Inv old (Reach-Inv before old) step
