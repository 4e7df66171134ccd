-- ===== src/Ring/Outcomes.antt =====
-- `publish` of include/shimmy/ring.hpp as a whole: what each of its results means.
use shimmy.Common.{
  ◌∙◌, ◌≢◌, Bool, true, ℕ, ◌-◌, ◌≤◌, ◌<◌, ◌≡◌, ◌⊎◌, inl, inr, refl, sym, false, if◌then◌else◌, leb,
  ltb, ◌||◌, ◌&&◌, List, none, some, arith, Option, Bool-cases, take, length, [], ◌∷◌, ◌++◌,
}
use mathlib.Core.Path.{subst}
use shimmy.Config.{
  Config, Overflow, overwrite, backpressure, blocks, Wait, spin, spin_then_yield, futex,
}
use shimmy.Ring.{
  Ring, Cursor, await_slot, await_for, write_slot, writing_seq, notify, Outcome, stalled,
  out_of_bounds, published, publish,
}
use shimmy.Ring.Log.{Log, Slots}
use shimmy.Ring.Cursors.{Awaited, IsHeld, IsClear, await_consumers_past_lem}
use shimmy.Ring.Publish.{Logs, write_slot-Logs, write_slot_kept}

module _ (c : Config) (fuel : ℕ) (seen : ℕ → ℕ → Cursor) where
  -- The producer has to wait: Backpressure, and the slot has been used before.
  abbrev pub MustWait : Ring → Type 0
  MustWait r = (c.overflow ≡ backpressure) × (c.capacity ≤ r.next_publish)

  -- It has waited for as many rounds as there are, and somebody was behind in each.
  abbrev pub HeldBack : Ring → Type 0
  HeldBack r = MustWait r × ((q : ℕ) → q < fuel → IsHeld c (seen q) (r.next_publish - c.capacity))

  -- If it had to wait, it came through in a round in which nobody was behind.
  abbrev pub LetThrough : Ring → (ℕ → Cursor) → Type 0
  LetThrough r cursors =
      MustWait r
      → (q : ℕ) × (q < fuel) × IsClear c (seen q) (r.next_publish - c.capacity) × (cursors ≡ seen q)

  abbrev pub Waited : Ring → Option Ring → Type 0
  Waited r none = HeldBack r
  Waited r (some r') = (r'.slots ≡ r.slots) × (r'.waiters ≡ r.waiters) × LetThrough r r'.cursors

  await_slot-Waited_past :
      (r : Ring) (o : Option ℕ)
      → MustWait r
      → Awaited c fuel seen 0 (r.next_publish - c.capacity) o
      → Waited r (elim o [ none ↦ none | some k ↦ some (record r { cursors = seen k }) ])
  await_slot-Waited_past r none m a = (m, λ q h. a q (omega arith) (omega arith))
  await_slot-Waited_past r (some k) m a = (refl, refl, λ _. (k, omega arith, a.2, refl))

  await_for-Waited :
      (o : Overflow) (r : Ring) → c.overflow ≡ o → Waited r (await_for o c fuel seen r)
  unfolding await_for
  await_for-Waited overwrite r e = (refl, refl, λ m. cc)
  await_for-Waited backpressure r e = elim (Bool-cases (leb c.capacity r.next_publish)) [
    | inl late ↦
        rw late
          (await_slot-Waited_past r _ (e, ground arith) (await_consumers_past_lem c seen _ fuel 0))
    | inr early ↦ rw early (refl, refl, λ m. absurd (ground arith))
  ]

  pub await_slot-Waited : (r : Ring) → Waited r (await_slot c fuel seen r)
  unfolding await_slot
  await_slot-Waited r = await_for-Waited c.overflow r refl

  -- The producer wakes exactly when the readers wait by Futex and somebody is counted as waiting.
  abbrev pub Wakes : ℕ → Bool → Type 0
  Wakes waiters woke =
      (woke ≡ true → (c.wait ≡ futex) × (waiters ≢ 0))
      × (c.wait ≡ futex → waiters ≢ 0 → woke ≡ true)

  notify-Wakes : (w : Wait) (waiters : ℕ) → c.wait ≡ w → Wakes waiters (blocks w && notify waiters)
  unfolding notify
  notify-Wakes spin waiters e = ground (arith, e)
  notify-Wakes (spin_then_yield limit) waiters e = ground (arith, e)
  notify-Wakes futex waiters e = ground (arith, e)

  -- What each result of `publish` says of the call, after the messages of `log`.
  abbrev pub Ensures : Log → Ring → List ℕ → ℕ → Outcome → Type 0
  Ensures log r bytes len stalled = HeldBack r
  Ensures log r bytes len out_of_bounds = (c.block_size < len) ⊎ (length bytes < len)
  Ensures log r bytes len (published seq woke r') =
      (seq ≡ length log)
      × (len ≤ c.block_size)
      × Logs c (log ++ (take len bytes ∷ [])) r'
      × LetThrough r r'.cursors
      × Wakes r.waiters woke
      × (r'.waiters ≡ r.waiters)

  written-Ensures :
      (log : Log) (r r' : Ring) (bytes : List ℕ) (len : ℕ)
      → length log < writing_seq
      → r.next_publish ≡ length log
      → Slots c log false r'.slots
      → r'.waiters ≡ r.waiters
      → LetThrough r r'.cursors
      → len ≤ c.block_size
      → len ≤ length bytes
      → Ensures log r bytes len (
          published
            (length log)
            (blocks c.wait && notify r'.waiters)
            (write_slot c r' (length log) bytes len))
  written-Ensures log r r' bytes len short counted v idle through fits enough =
      let (cursors, waiters) = write_slot_kept short r' bytes len v in
      (
        refl,
        fits,
        write_slot-Logs short r' bytes len v enough,
        subst (LetThrough r) (sym cursors) through,
        subst (λ w. Wakes w (blocks c.wait && notify r'.waiters)) idle
            (notify-Wakes c.wait r'.waiters refl),
        waiters ∙ idle,
      )

  publish-Ensures_go :
      (log : Log) (r : Ring) (o : Option Ring) (bytes : List ℕ) (len : ℕ)
      → length log < writing_seq
      → Logs c log r
      → Waited r o
      → Ensures log r bytes len (elim o [
        | none ↦ stalled
        | some r' ↦
            if ltb c.block_size len || ltb (length bytes) len
            then out_of_bounds
            else published r.next_publish
                (blocks c.wait && notify r'.waiters)
                (write_slot c r' r.next_publish bytes len)
      ])
  publish-Ensures_go log r none bytes len short v w = w
  publish-Ensures_go log r (some r') bytes len short v w =
      elim (Bool-cases (ltb c.block_size len || ltb (length bytes) len)) [
        | inl over ↦ rw over (ground arith)
        | inr within ↦ rw within (
            subst
              (λ q.
                Ensures log r bytes len
                  (published q (blocks c.wait && notify r'.waiters) (write_slot c r' q bytes len)))
              (sym v.counted)
              (written-Ensures log r r' bytes len short v.counted (rw w.0 v.slots) w.1 w.2
                (ground arith) (ground arith)))
      ]

  -- On a ring at rest after the messages of `log`, fewer than writing_seq, `publish` run with no
  -- access in between has one of three results. It returns the number of the messages before as
  -- sequence number, and the ring holds the log with the first `len` bytes added; if it had to
  -- wait, it came through in a round in which no claimed cursor was behind; it wakes exactly when
  -- the strategy is Futex and the waiter count is not 0, and leaves that count. Or it still waits,
  -- which happens only under Backpressure on a used slot with some cursor behind in every round.
  -- Or `len` is more than the block or the data.
  pub publish-Ensures :
      (log : Log) (r : Ring) (bytes : List ℕ) (len : ℕ)
      → length log < writing_seq
      → Logs c log r
      → Ensures log r bytes len (publish c fuel seen r bytes len)
  unfolding publish
  publish-Ensures log r bytes len short v =
      publish-Ensures_go log r (await_slot c fuel seen r) bytes len short v (await_slot-Waited r)
