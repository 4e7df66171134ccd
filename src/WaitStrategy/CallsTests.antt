-- ===== src/WaitStrategy/CallsTests.antt =====
-- A reader by `Futex` of include/shimmy/wait_strategy.hpp that waits for message 2 on a ring of two slots.
use shimmy.Common.{
  ℕ, ◌+◌, ◌≤◌, ◌<◌, [], ◌∷◌, inl, inr, arith, length, ltb, if◌then◌else◌, Bool-cases, refl,
}
use shimmy.Config.{Config, IsRingConfig, futex}
use shimmy.Ring.{Ring, init, write_slot, writing_seq}
use shimmy.Ring.Log.{Log}
use shimmy.Ring.Publish.{Logs, init-Logs, write_slot-Logs}
use shimmy.Ring.Tests.{zeroed, lossy}
use shimmy.Consumer.{Consumer, fresh}
use shimmy.WaitStrategy.{read_blocking}
use shimmy.WaitStrategy.Calls.{Returned, read_blocking-Returned}

abbrev tiny : Config
tiny = record lossy { capacity = 2; wait = futex }

tiny-IsRingConfig : IsRingConfig tiny
tiny-IsRingConfig = record {
  at_least_two = omega arith;
  power_of_two = refl;
  aligned_blocks = refl;
  has_cursor = omega arith;
  fits = omega arith;
}

abbrev two : Ring
two = write_slot tiny (write_slot tiny (init tiny zeroed) 0 (7 ∷ []) 1) 1 [] 0

abbrev three : Ring
three = write_slot tiny two 2 (8 ∷ []) 1

two-Logs : Logs tiny ((7 ∷ []) ∷ [] ∷ []) two
two-Logs =
    let one =
      write_slot-Logs {log = []} (omega arith) (init tiny zeroed) (7 ∷ []) 1
        (init-Logs zeroed tiny-IsRingConfig).slots (omega arith) in
    write_slot-Logs {log = (7 ∷ []) ∷ []} (omega arith) _ [] 0 one.slots (omega arith)

three-Logs : Logs tiny ((7 ∷ []) ∷ [] ∷ (8 ∷ []) ∷ []) three
three-Logs =
    write_slot-Logs {log = (7 ∷ []) ∷ [] ∷ []} (omega arith) two (8 ∷ []) 1 two-Logs.slots
      (omega arith)

-- Message 2 is published after 65 rounds.
abbrev logs : ℕ → Log
logs q = if ltb q 65 then (7 ∷ []) ∷ [] ∷ [] else (7 ∷ []) ∷ [] ∷ (8 ∷ []) ∷ []

abbrev rings : ℕ → Ring
rings q = if ltb q 65 then two else three

rings-Logs : (q : ℕ) → Logs tiny (logs q) (rings q)
rings-Logs q = elim (Bool-cases (ltb q 65)) [
  | inl early ↦ rw early two-Logs
  | inr late ↦ rw late three-Logs
]

logs-short : (q : ℕ) → length (logs q) < writing_seq
logs-short q = elim (Bool-cases (ltb q 65)) [
  | inl early ↦ rw early (omega arith)
  | inr late ↦ rw late (omega arith)
]

logs-there : (q : ℕ) → 2 ≤ length (logs q)
logs-there q = elim (Bool-cases (ltb q 65)) [
  | inl early ↦ rw early (omega arith)
  | inr late ↦ rw late (omega arith)
]

logs-early : (q : ℕ) → q < 64 + 1 → length (logs q) ≤ 2
logs-early q lt = elim (Bool-cases (ltb q 65)) [
  | inl early ↦ rw early (omega arith)
  | inr late ↦ absurd (ground (arith, late, lt))
]

abbrev waiting : Consumer
waiting = record (fresh 2) { next = 2 }

read_blocking-Returned_example : Returned tiny logs 2 64 1 (read_blocking tiny 66 rings waiting)
read_blocking-Returned_example =
    read_blocking-Returned tiny-IsRingConfig logs rings rings-Logs logs-short 64 1 66 waiting
      (omega arith) logs-there (omega arith) (λ h. refl) (omega arith) logs-early (omega arith)
