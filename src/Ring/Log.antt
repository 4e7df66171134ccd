-- ===== src/Ring/Log.antt =====
-- What the slots of a ring hold when `log` has been published: the invariant of the array `slots_`
-- in include/shimmy/ring.hpp, kept by each store that `publish` makes.
use shimmy.Common.{
  ℕ, ◌≤◌, ◌<◌, ◌≡◌, ◌⊎◌, Bool, true, false, List, [], ◌∷◌, ◌++◌, some, arith, length, get_elem?,
  length-snoc, get_elem?-snoc_inv, get_elem?-lt, ◌==◌, inl, inr, update, Bool-cases,
}
use shimmy.Config.{Config, index}
use shimmy.Ring.{Slot, empty_seq, writing_seq}

abbrev pub Log : Type 0
Log = List (List ℕ)

-- A slot's length and payload are those of the message.
pub record Carries (slot : Slot) (m : List ℕ) : Type 0 where
  pub sized : slot.len ≡ length m
  pub filled : (j b : ℕ) → get_elem? m j ≡ some b → slot.payload j ≡ b

-- The producer is writing the slot that `s` goes to, for the message after `log`.
abbrev pub InFlux : Config → Log → Bool → ℕ → Type 0
InFlux c log busy s = (index c s ≡ index c (length log)) × (busy ≡ true)

-- `busy` says that the producer is writing the slot of the next message. The slot may then carry
-- the marker, and what it holds is in flux.
pub record Slots (c : Config) (log : Log) (busy : Bool) (slots : ℕ → Slot) : Type 0 where
  pub floor :
      (s : ℕ)
      → s < length log
      → ((s ≤ (slots (index c s)).seq) × ((slots (index c s)).seq < length log))
        ⊎ ((slots (index c s)).seq ≡ writing_seq) × InFlux c log busy s
  pub ceil :
      (s : ℕ)
      → ((slots (index c s)).seq < length log)
        ⊎ ((slots (index c s)).seq ≡ empty_seq)
        ⊎ ((slots (index c s)).seq ≡ writing_seq) × InFlux c log busy s
  pub home :
      (s : ℕ) → (slots (index c s)).seq < length log → index c (slots (index c s)).seq ≡ index c s
  pub content :
      (s : ℕ) (m : List ℕ)
      → get_elem? log s ≡ some m
      → (slots (index c s)).seq ≡ s
      → InFlux c log busy s ⊎ Carries (slots (index c s)) m

-- What holds of a ring at rest holds while it is written.
pub Slots-busy :
    {c : Config} {log : Log} {slots : ℕ → Slot} → Slots c log false slots → Slots c log true slots
Slots-busy v = record {
  floor = λ s h. ground (arith, v.floor s h);
  ceil = λ s. ground (arith, v.ceil s);
  home = v.home;
  content = λ s m e h. ground (arith, v.content s m e h);
}

module _ {c : Config} {log : Log} (short : length log < writing_seq) where
  -- The slot of the next message, changed while the producer is at it.
  pub Slots-touch :
      {slots : ℕ → Slot} (busy : Bool) (new : Slot)
      → Slots c log busy slots
      → (new.seq ≡ writing_seq) ⊎ (new.seq ≡ (slots (index c (length log))).seq)
      → Slots c log true (update slots (index c (length log)) new)
  Slots-touch {slots} busy new v keep = record {
    floor = λ s h. ground (arith, v.floor s h);
    ceil = λ s. ground (arith, v.ceil s);
    home = λ s h. ground (arith, v.home s, v.home (length log));
    content = λ s m e h. ground (arith, v.content s m e);
  }

  module _ {slots : ℕ → Slot} (v : Slots c log true slots) (new : Slot) (m : List ℕ)
      (stamped : new.seq ≡ length log) (carried : Carries new m) where
    published-content :
        (s : ℕ) (n : List ℕ)
        → get_elem? (log ++ (m ∷ [])) s ≡ some n
        → (update slots (index c (length log)) new (index c s)).seq ≡ s
        → Carries (update slots (index c (length log)) new (index c s)) n
    published-content s n e h = elim (Bool-cases (index c (length log) == index c s)) [
      | inl same ↦ rw same (
          let m_is : m ≡ n =
            ground (arith, get_elem?-snoc_inv log m s {a = n} e, get_elem?-lt log s {a = n}) in
          rw (← m_is) carried)
      | inr other ↦ rw other (ground (arith, v.content s n, get_elem?-snoc_inv log m s {a = n} e))
    ]

    -- The slot of the next message, published.
    pub Slots-publish : Slots c (log ++ (m ∷ [])) false (update slots (index c (length log)) new)
    Slots-publish = record {
      floor = λ s h. ground (arith, length-snoc log m, v.floor s, v.home s);
      ceil = λ s. ground (arith, length-snoc log m, v.ceil s);
      home = λ s h. ground (arith, length-snoc log m, v.home s, v.ceil s);
      content = λ s n e h. inr (published-content s n e h);
    }
