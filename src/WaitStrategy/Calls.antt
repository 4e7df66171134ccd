-- ===== src/WaitStrategy/Calls.antt =====
-- Which calls of `wait` of include/shimmy/wait_strategy.hpp the loop of `read_blocking` makes.
use shimmy.Common.{
  ℕ, zero, suc, ◌+◌, ◌-◌, ◌≤◌, ◌<◌, ◌≡◌, inl, inr, refl, sym, ap, ◌∙◌, List, [], ◌∷◌, ◌++◌, none,
  some, length, arith, u32, ltb, if◌then◌else◌, Bool-cases,
}
use mathlib.Core.Path.{subst}
use shimmy.Config.{Config, index, IsRingConfig, Wait, spin, spin_then_yield, futex}
use shimmy.Config.Index.{index-collide, index-lap}
use shimmy.Ring.{Ring, slot_at, writing_seq, empty_seq}
use shimmy.Ring.Log.{Log}
use shimmy.Ring.Publish.{Logs}
use shimmy.Consumer.{Consumer, ok, empty, lapped, settle}
use shimmy.Consumer.Channel.{answer, answer-cases}
use shimmy.Consumer.Reads.{stamp_resident, status_of-answer}
use shimmy.WaitStrategy.{
  Pause, pause, yield_cpu, caught_up, futex_wait, wait, Blocked, after_wait, read_blocking_from,
  read_blocking,
}
use shimmy.WaitStrategy.Blocking.{round_by_status, Awaits, read_blocking-Awaits}

-- `n` times the same call.
abbrev pub repeated : ℕ → Pause → List Pause
repeated zero p = []
repeated (suc n) p = p ∷ repeated n p

-- How many rounds a strategy pauses first.
abbrev pub patience : Wait → ℕ
patience spin = 0
patience (spin_then_yield limit) = limit
patience futex = 64

-- What it is expected to do after that while message `next` is the next to be published: by Futex,
-- to wait on the number of the message a lap before, if there is one.
abbrev pub slow_call : Config → ℕ → Wait → Pause
slow_call c next spin = pause
slow_call c next (spin_then_yield limit) = yield_cpu
slow_call c next futex =
    if ltb next c.capacity then caught_up else futex_wait (u32 (next - c.capacity))

-- The calls of `n` rounds, from round `iter` on.
abbrev calls : ℕ → Pause → ℕ → ℕ → List Pause
calls limit slow iter zero = []
calls limit slow iter (suc n) =
    (if ltb iter limit then pause else slow) ∷ calls limit slow (iter + 1) n

calls-late :
    (limit : ℕ) (slow : Pause) (n iter : ℕ)
    → limit ≤ iter
    → calls limit slow iter n ≡ repeated n slow
calls-late limit slow zero iter h = refl
calls-late limit slow (suc n) iter h =
    ground (arith, h, calls-late limit slow n (iter + 1) (omega (arith, h)))

-- Pauses first, the slow calls after them.
calls-repeated :
    (limit : ℕ) (slow : Pause) (early late iter : ℕ)
    → iter + early ≤ limit
    → (0 < late → limit ≤ iter + early)
    → calls limit slow iter (early + late) ≡ repeated early pause ++ repeated late slow
calls-repeated limit slow zero zero iter fits full = refl
calls-repeated limit slow zero (suc late) iter fits full =
    ap (calls limit slow iter) {x = 0 + suc late} {y = suc late} (omega arith)
    ∙ calls-late limit slow (suc late) iter (omega (arith, full (omega arith)))
calls-repeated limit slow (suc early) late iter fits full =
    let rest =
      calls-repeated limit slow early late (iter + 1) (omega (arith, fits))
        (λ h. omega (arith, full h)) in
    ap (calls limit slow iter) {x = suc early + late} {y = suc (early + late)} (omega arith)
    ∙ ground (arith, fits, rest)

-- A call on the slot of the next message.
wait-call :
    (c : Config) (w : Wait) (stamp next iter : ℕ)
    → next < writing_seq
    → (next < c.capacity → stamp ≡ empty_seq)
    → (c.capacity ≤ next → stamp ≡ next - c.capacity)
    → 0 < c.capacity
    → wait w stamp next iter ≡ (if ltb iter (patience w) then pause else slow_call c next w)
unfolding wait
wait-call c spin stamp next iter sane first later pos = ground arith
wait-call c (spin_then_yield limit) stamp next iter sane first later pos = ground arith
wait-call c futex stamp next iter sane first later pos = elim (Bool-cases (ltb next c.capacity)) [
  | inl lt ↦ rw lt (ground (arith, first))
  | inr ge ↦ rw ge (ground (arith, later))
]

module _ {c : Config} (v : IsRingConfig c) {log : Log} (short : length log < writing_seq) {r : Ring}
    (at_rest : Logs c log r) (next : ℕ) (newest : length log ≡ next) where
  first_lap : next < c.capacity → (slot_at c r next).seq ≡ empty_seq
  first_lap lt = ground (
    arith,
    newest,
    at_rest.slots.ceil next,
    at_rest.slots.home next,
    index-collide v (slot_at c r next).seq next,
  )

  later_lap : c.capacity ≤ next → (slot_at c r next).seq ≡ next - c.capacity
  later_lap le =
      let lap : next - c.capacity + c.capacity ≡ next = omega (arith, le) in
      let same : index c next ≡ index c (next - c.capacity) =
        ap (index c) (sym lap) ∙ index-lap v (next - c.capacity) in
      ap (λ t. (r.slots t).seq) same
      ∙ stamp_resident v short at_rest.slots (next - c.capacity)
          (omega (arith, le, newest, v.at_least_two)) (omega (arith, le, newest))

-- The calls that a run of the loop from round `iter` on has made.
abbrev Called : Config → ℕ → ℕ → Blocked → Type 0
Called c next iter none = Unit {0}
Called c next iter (some (view, k, pauses)) =
    pauses ≡ calls (patience c.wait) (slow_call c next c.wait) iter (length pauses)

Called-after_wait :
    (c : Config) (next iter : ℕ) (p : Pause) (o : Blocked)
    → p ≡ (if ltb iter (patience c.wait) then pause else slow_call c next c.wait)
    → Called c next (iter + 1) o
    → Called c next iter (after_wait p o)
Called-after_wait c next iter p none is v = tt
Called-after_wait c next iter p (some (view, k, pauses)) is v = cc

-- It has returned after `early` pauses and `late` slow calls, with the channel's answer then.
abbrev pub Returned : Config → (ℕ → Log) → ℕ → ℕ → ℕ → Blocked → Type 0
Returned c logs next early late none = ⊥
Returned c logs next early late (some (view, k', pauses)) =
    (pauses ≡ repeated early pause ++ repeated late (slow_call c next c.wait))
    × ((k'.last_status, view) ≡ answer c.capacity (logs (early + late)) next)
    × (k'.next ≡ next)

module _ {c : Config} (v : IsRingConfig c) (logs : ℕ → Log) (seen : ℕ → Ring)
    (at_rest : (q : ℕ) → Logs c (logs q) (seen q))
    (short : (q : ℕ) → length (logs q) < writing_seq) where
  read_blocking_from-Called :
      (fuel iter : ℕ) (k : Consumer)
      → k.next < writing_seq
      → ((q : ℕ) → k.next ≤ length (logs q))
      → Called c k.next iter (read_blocking_from c fuel seen iter k)
  unfolding read_blocking_from
  read_blocking_from-Called zero iter k sane behind = tt
  read_blocking_from-Called (suc fuel) iter k sane behind =
      let found = status_of-answer v (short iter) (at_rest iter) k.next sane in
      elim (answer-cases c.capacity (logs iter) k.next) [
        | inl t ↦ rw (round_by_status c fuel seen iter k ok (found ∙ ap (λ p. p.0) t.answered)) refl
        | inr (inl g) ↦
            rw (round_by_status c fuel seen iter k lapped (found ∙ ap (λ p. p.0) g.answered)) refl
        | inr (inr f) ↦
            let newest : length (logs iter) ≡ k.next = omega (arith, f.late, behind iter) in
            let call =
              wait-call c c.wait (slot_at c (seen iter) k.next).seq k.next iter sane
                (first_lap v (short iter) (at_rest iter) k.next newest)
                (later_lap v (short iter) (at_rest iter) k.next newest)
                (omega (arith, v.at_least_two)) in
            rw (round_by_status c fuel seen iter k empty (found ∙ ap (λ p. p.0) f.answered)) (
              Called-after_wait c k.next iter _ _ call
                (read_blocking_from-Called fuel (iter + 1) (settle k empty) sane behind))
      ]

  Returned-Awaits :
      (next early late fuel : ℕ) (o : Blocked)
      → early ≤ patience c.wait
      → (0 < late → early ≡ patience c.wait)
      → early + late < fuel
      → next < length (logs (early + late))
      → ((q : ℕ) → q < early + late → length (logs q) ≤ next)
      → Awaits c logs fuel 0 next o
      → Called c next 0 o
      → Returned c logs next early late o
  Returned-Awaits next early late fuel none fits full enough out before w called =
      absurd (omega (arith, w (early + late) (omega arith) (omega arith), out))
  Returned-Awaits next early late fuel (some (view, k', pauses)) fits full enough out before
        (lt, old, is, stays, waited) called =
      let n : length pauses ≡ early + late =
        ground (arith, old, out, before (length pauses), waited (early + late)) in
      (
        called
            ∙ ap (calls (patience c.wait) (slow_call c next c.wait) 0) n
            ∙ calls-repeated (patience c.wait) (slow_call c next c.wait) early late 0
                (omega (arith, fits)) (λ h. omega (arith, full h)),
        subst (λ (t : ℕ). (k'.last_status, view) ≡ answer c.capacity (logs t) next)
            {x = 0 + length pauses} (omega (arith, n)) is,
        stays,
      )

  -- Under the static assertions of `Ring`, when the ring is at rest in every round after some log
  -- that is shorter than writing_seq and reaches `next_`, `next_` is below writing_seq, and its
  -- message is first published after `early` + `late` rounds, of which `late` are past the rounds
  -- that the strategy pauses first (SpinLimit by SpinThenYield, 64 by Futex, counted as none by
  -- Spin): with more fuel than that, `read_blocking` has returned, with the channel's answer then
  -- and `next_` unchanged, after `early` pauses and `late` calls of one kind. These are pauses by
  -- Spin, yields by SpinThenYield, and by Futex FUTEX_WAIT on the low half of the number of the
  -- message a lap before; on the first lap, where there is none, Futex does not sleep.
  pub read_blocking-Returned :
      (early late fuel : ℕ) (k : Consumer)
      → k.next < writing_seq
      → ((q : ℕ) → k.next ≤ length (logs q))
      → early ≤ patience c.wait
      → (0 < late → early ≡ patience c.wait)
      → early + late < fuel
      → ((q : ℕ) → q < early + late → length (logs q) ≤ k.next)
      → k.next < length (logs (early + late))
      → Returned c logs k.next early late (read_blocking c fuel seen k)
  unfolding read_blocking
  read_blocking-Returned early late fuel k sane behind fits full enough before out =
      Returned-Awaits k.next early late fuel _ fits full enough out before
        (read_blocking-Awaits c logs v seen at_rest short fuel k sane)
        (read_blocking_from-Called fuel 0 k sane behind)
