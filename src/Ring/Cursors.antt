-- ===== src/Ring/Cursors.antt =====
-- The consumer cursors of include/shimmy/ring.hpp: the scan and the wait loop of
-- `await_consumers_past`, `register_consumer` and `unregister_consumer`.
use shimmy.Common.{
  ℕ, zero, suc, ◌+◌, ◌≤◌, ◌<◌, ◌≡◌, inl, inr, ap, true, false, leb, none, some, arith, Option,
  Bool-cases,
}
use native.Mathlib.Decide.{ℕ_discrete}
use shimmy.Config.{Config}
use shimmy.Ring.{Cursor, all_clear, await_consumers_past}

-- A cursor that holds the producer back at `seq`: claimed, and not past it.
abbrev pub IsBehind : Cursor → ℕ → Type 0
IsBehind k seq = (k.in_use ≡ true) × (k.value ≤ seq)

-- Every claimed cursor is past `seq`.
abbrev pub IsClear : Config → (ℕ → Cursor) → ℕ → Type 0
IsClear c cursors seq =
    (j : ℕ) → j < c.max_consumers → (cursors j).in_use ≡ true → seq < (cursors j).value

-- Some claimed cursor is not.
abbrev pub IsHeld : Config → (ℕ → Cursor) → ℕ → Type 0
IsHeld c cursors seq = (j : ℕ) × (j < c.max_consumers) × IsBehind (cursors j) seq

module _ (cursors : ℕ → Cursor) (seq : ℕ) where
  all_clear-true :
      (i n : ℕ)
      → all_clear cursors seq i n ≡ true
      → (j : ℕ) → i ≤ j
      → j < i + n
      → (cursors j).in_use ≡ true
      → seq < (cursors j).value
  unfolding all_clear
  all_clear-true i zero h j lo hi u = absurd (omega arith)
  all_clear-true i (suc n) h j lo hi u = elim (ℕ_discrete i j) [
    | yes e ↦ rw (← e) (ground (arith, ap (λ (t : ℕ). (cursors t).in_use) e))
    | no ne ↦ ground (arith, all_clear-true (i + 1) n _ j)
  ]

  all_clear-false :
      (i n : ℕ)
      → all_clear cursors seq i n ≡ false
      → (j : ℕ) × (j < i + n) × IsBehind (cursors j) seq
  unfolding all_clear
  all_clear-false i zero h = absurd (cc)
  all_clear-false i (suc n) h = elim (Bool-cases (cursors i).in_use) [
    | inl used ↦ elim (Bool-cases (leb (cursors i).value seq)) [
      | inl low ↦ (i, omega arith, (used, ground arith))
      | inr past ↦ let (j, lt, b) = all_clear-false (i + 1) n (ground arith) in (j, omega arith, b)
    ]
    | inr free ↦ let (j, lt, b) = all_clear-false (i + 1) n (ground arith) in (j, omega arith, b)
  ]

-- One round of `await_consumers_past` finds nobody behind, or somebody.
pub all_clear-IsClear :
    (c : Config) (cursors : ℕ → Cursor) (seq : ℕ)
    → all_clear cursors seq 0 c.max_consumers ≡ true
    → IsClear c cursors seq
all_clear-IsClear c cursors seq h j lt u =
    all_clear-true cursors seq 0 c.max_consumers h j (omega arith) (omega arith) u

pub all_clear-IsHeld :
    (c : Config) (cursors : ℕ → Cursor) (seq : ℕ)
    → all_clear cursors seq 0 c.max_consumers ≡ false
    → IsHeld c cursors seq
all_clear-IsHeld c cursors seq h =
    let (j, lt, b) = all_clear-false cursors seq 0 c.max_consumers h in (j, omega arith, b)

-- How the wait loop ends, from round `k` on with `fuel` rounds.
abbrev pub Awaited : Config → ℕ → (ℕ → ℕ → Cursor) → ℕ → ℕ → Option ℕ → Type 0
Awaited c fuel seen k seq none = (q : ℕ) → k ≤ q → q < k + fuel → IsHeld c (seen q) seq
Awaited c fuel seen k seq (some end) =
    (k ≤ end)
    × (end < k + fuel)
    × IsClear c (seen end) seq
    × ((q : ℕ) → k ≤ q → q < end → IsHeld c (seen q) seq)

module _ (c : Config) (seen : ℕ → ℕ → Cursor) (seq : ℕ) where
  Awaited-step :
      (fuel k : ℕ) (o : Option ℕ)
      → IsHeld c (seen k) seq
      → Awaited c fuel seen (k + 1) seq o
      → Awaited c (suc fuel) seen k seq o
  Awaited-step fuel k none held rest = λ q lo hi. elim (ℕ_discrete k q) [
    | yes e ↦ rw (← e) held
    | no ne ↦ rest q (omega arith) (omega arith)
  ]
  Awaited-step fuel k (some end) held rest = (
    omega arith,
    omega arith,
    rest.2,
    λ q lo hi. elim (ℕ_discrete k q) [
      | yes e ↦ rw (← e) held
      | no ne ↦ rest.3 q (omega arith) (omega arith)
    ],
  )

  -- For every course of the cursors, round by round, the wait loop of Backpressure returns in the
  -- first round in which every claimed cursor is past `seq`. If it has not returned after `fuel`
  -- rounds, some claimed cursor was at or below `seq` in each of them.
  pub await_consumers_past_lem :
      (fuel k : ℕ) → Awaited c fuel seen k seq (await_consumers_past c fuel seen k seq)
  unfolding await_consumers_past
  await_consumers_past_lem zero k = λ q lo hi. absurd (omega arith)
  await_consumers_past_lem (suc fuel) k =
      elim (Bool-cases (all_clear (seen k) seq 0 c.max_consumers)) [
        | inl clear ↦ rw clear (
          omega arith,
          omega arith,
          all_clear-IsClear c (seen k) seq clear,
          λ q lo hi. absurd (omega arith),
        )
        | inr held ↦ rw held (
            Awaited-step fuel k _ (all_clear-IsHeld c (seen k) seq held)
              (await_consumers_past_lem fuel (k + 1)))
      ]
