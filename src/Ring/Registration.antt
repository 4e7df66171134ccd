-- ===== src/Ring/Registration.antt =====
-- `register_consumer` and `unregister_consumer` of include/shimmy/ring.hpp: which cursor is claimed,
-- what is left alone, and the stall that its comment warns of.
use shimmy.Common.{
  ℕ, zero, suc, ◌+◌, ◌≤◌, ◌<◌, ◌≡◌, ◌⊎◌, inl, inr, refl, true, false, List, some, arith, update,
  Bool-cases, Option-cases,
}
use native.Mathlib.Decide.{ℕ_discrete}
use shimmy.Config.{Config, backpressure}
use shimmy.Ring.{
  Ring, Cursor, await_slot, register_from, register_consumer, unregister_consumer, stalled, publish,
}
use mathlib.Core.Path.{subst, ◌∙◌}
use shimmy.Ring.Outcomes.{MustWait, Waited, await_slot-Waited}
use shimmy.Ring.Cursors.{IsClear}

abbrev pub claimed : Cursor
claimed = record { value = 0; in_use = true }

-- What `register_consumer` has done, as its result says: `id` below the number of cursors is the
-- first free cursor, now claimed at 0; the number itself means that none was free.
pub record Registered (n : ℕ) (r : Ring) (id : ℕ) (r' : Ring) : Type 0 where
  pub in_range : id ≤ n
  pub first : (j : ℕ) → j < id → (r.cursors j).in_use ≡ true
  pub outcome :
      ((id ≡ n) × (r' ≡ r))
      ⊎ (id < n)
        × ((r.cursors id).in_use ≡ false)
        × (r' ≡ record r { cursors = update r.cursors id claimed })

-- The loop from cursor `i` on, when those before it are in use.
register_from-Registered :
    (r : Ring) (n i k : ℕ)
    → i + k ≡ n
    → ((j : ℕ) → j < i → (r.cursors j).in_use ≡ true)
    → Registered n r (register_from r i k).0 (register_from r i k).1
unfolding register_from
register_from-Registered r n i zero e used = record {
  in_range = omega arith;
  first = used;
  outcome = inl (omega arith, refl);
}
register_from-Registered r n i (suc k) e used = elim (Bool-cases (r.cursors i).in_use) [
  | inl taken ↦
      let used' : (j : ℕ) → j < i + 1 → (r.cursors j).in_use ≡ true = λ j h. elim (ℕ_discrete i j) [
        | yes same ↦ rw (← same) taken
        | no ne ↦ used j (omega arith)
      ] in
      rw taken (register_from-Registered r n (i + 1) k (omega arith) used')
  | inr free ↦
      rw free
        (record { in_range = omega arith; first = used; outcome = inr (omega arith, free, refl) })
]

-- `register_consumer` answers the first free cursor, which it has claimed at 0 with the rest of
-- the ring unchanged, or, when every cursor is in use, max_consumers with the whole ring
-- unchanged.
pub register_consumer-Registered :
    (c : Config) (r : Ring)
    → let (id, r') = register_consumer c r in Registered c.max_consumers r id r'
unfolding register_consumer
register_consumer-Registered c r =
    register_from-Registered r c.max_consumers 0 c.max_consumers (omega arith)
      (λ j h. absurd (omega arith))

first_free :
    (n : ℕ) (r : Ring) (id : ℕ) {next : ℕ} {r' : Ring}
    → id < n
    → (r.cursors id).in_use ≡ false
    → Registered n r next r'
    → (next ≤ id) × ((r'.cursors next).in_use ≡ true) × ((r'.cursors next).value ≡ 0)
first_free n r id h free g = ground (arith, g.first id)

-- When a cursor in range has been given back, the next `register_consumer` claims a cursor
-- numbered at most as high, in use and at 0.
pub register_consumer-unregister_consumer :
    (c : Config) (r : Ring) (id : ℕ)
    → id < c.max_consumers
    → let (next, r') = register_consumer c (unregister_consumer c r id) in
      (next ≤ id) × ((r'.cursors next).in_use ≡ true) × ((r'.cursors next).value ≡ 0)
unfolding unregister_consumer
register_consumer-unregister_consumer c r id h =
    first_free c.max_consumers _ id h (ground arith) (register_consumer-Registered c _)

late_count :
    (n : ℕ) (r : Ring) (id : ℕ) (r' : Ring) (k : ℕ)
    → k ≤ r.next_publish
    → id < n
    → Registered n r id r'
    → k ≤ r'.next_publish
late_count n r id r' k h room g = ground (arith, g.outcome)

late_cursor :
    (n : ℕ) (r : Ring) (id : ℕ) (r' : Ring)
    → id < n
    → Registered n r id r'
    → r'.cursors id ≡ claimed
late_cursor n r id r' room g = ground (arith, g.outcome)

-- A claimed cursor at 0 that never moves.
stuck-IsClear :
    (c : Config) (seen : ℕ → ℕ → Cursor) (id q seq : ℕ)
    → id < c.max_consumers
    → seen q id ≡ claimed
    → IsClear c (seen q) seq
    → ⊥
stuck-IsClear c seen id q seq h e clear = ground (arith, clear id)

publish-stalled :
    (c : Config) (fuel : ℕ) (seen : ℕ → ℕ → Cursor) (r : Ring) (bytes : List ℕ) (len id : ℕ)
    → MustWait c fuel seen r
    → id < c.max_consumers
    → ((q : ℕ) → seen q id ≡ claimed)
    → publish c fuel seen r bytes len ≡ stalled
unfolding publish
publish-stalled c fuel seen r bytes len id must h stuck =
    elim (Option-cases (await_slot c fuel seen r)) [
      | inl e ↦ rw (e, publish)
      | inr (r', e) ↦
          let waited : Waited c fuel seen r (some r') =
            subst (Waited c fuel seen r) e (await_slot-Waited c fuel seen r) in
          let through = waited.2 must in
          absurd (stuck-IsClear c seen id through.0 _ h (stuck through.0) through.2)
    ]

-- Under Backpressure, when Capacity messages or more have been published and a cursor is free, a
-- consumer that registers and never moves its cursor stalls the producer: the next `publish` has
-- not returned after any number of rounds.
pub publish-register_consumer_late :
    (c : Config) (r : Ring) (fuel : ℕ) (seen : ℕ → ℕ → Cursor) (bytes : List ℕ) (len : ℕ)
    → c.overflow ≡ backpressure
    → c.capacity ≤ r.next_publish
    → (register_consumer c r).0 < c.max_consumers
    → ((q : ℕ)
        → seen q (register_consumer c r).0
          ≡ (register_consumer c r).1.cursors (register_consumer c r).0)
    → publish c fuel seen (register_consumer c r).1 bytes len ≡ stalled
publish-register_consumer_late c r fuel seen bytes len o full room stuck =
    let reg = register_consumer-Registered c r in
    let (id, r') = register_consumer c r in
    publish-stalled c fuel seen r' bytes len id
      (o, late_count c.max_consumers r id r' c.capacity full room reg) room
      (λ q. stuck q ∙ late_cursor c.max_consumers r id r' room reg)
