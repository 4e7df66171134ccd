-- ===== src/Consumer/Reads.antt =====
-- `do_read`, `read` and `validate` of include/shimmy/ring.hpp on a ring at rest: the stamp of the
-- slot tells whether the message wanted is there, is still to come, or is gone.
use shimmy.Common.{
  ℕ, zero, suc, ◌+◌, ◌≤◌, ◌<◌, ◌≡◌, ◌⊎◌, inl, inr, refl, sym, ap, false, List, some, arith, take,
  take_all, length, [], ◌∷◌, ◌∙◌, get_elem?,
}
use mathlib.Core.Path.{ap₂}
use native.Mathlib.Nat.{zero-add, add-zero}
use shimmy.Config.{Config, IsRingConfig, index}
use shimmy.Config.Index.{index-collide, index-lap}
use shimmy.Ring.{Slot, Ring, slot_at, empty_seq, writing_seq}
use shimmy.Ring.Log.{Log, Slots, Carries}
use shimmy.Ring.Publish.{Logs}
use shimmy.Consumer.{ok, empty, lapped, status_of, span}
use shimmy.Consumer.Channel.{answer, answer-cases, IsThere}

shift : (i j : ℕ) → i + 1 + j ≡ i + suc j
shift i j = omega arith

-- A span over bytes that are a message's shows that much of the message.
span-from :
    (payload : ℕ → ℕ) (i n : ℕ) (m : List ℕ)
    → n ≤ length m
    → ((j b : ℕ) → get_elem? m j ≡ some b → payload (i + j) ≡ b)
    → span payload i n ≡ take n m
unfolding span
span-from payload i zero m le h = refl
span-from payload i (suc n) [] le h = absurd (omega arith)
span-from payload i (suc n) (b ∷ m) le h = ap₂ ◌∷◌ (ap payload (sym (add-zero i)) ∙ h 0 b refl) (
    span-from payload (i + 1) n m (omega arith) (λ j b' e. ap payload (shift i j) ∙ h (suc j) b' e))

pub span-Carries :
    (slot : Slot) (n : ℕ) (m : List ℕ)
    → n ≤ length m
    → Carries slot m
    → span slot.payload 0 n ≡ take n m
span-Carries slot n m le h =
    span-from slot.payload 0 n m le (λ j b e. rw (zero-add j) (h.filled j b e))

module _ {c : Config} (v : IsRingConfig c) {log : Log} (short : length log < writing_seq)
    {slots : ℕ → Slot} (at_rest : Slots c log false slots) where
  -- A message within a lap of the newest is the one that its slot is stamped with.
  pub stamp_resident :
      (s : ℕ) → s < length log → length log ≤ s + c.capacity → (slots (index c s)).seq ≡ s
  stamp_resident s h near =
      ground (arith, at_rest.floor s h, at_rest.home s, index-collide v s (slots (index c s)).seq)

  -- The slot of an older one is stamped with a later message.
  pub stamp_lapped :
      (s : ℕ)
      → s + c.capacity < length log
      → s < (slots (index c s)).seq × ((slots (index c s)).seq < length log)
  stamp_lapped s far = ground (
    arith,
    at_rest.floor (s + c.capacity) far,
    ap (λ (t : ℕ). (slots t).seq) (index-lap v s),
    v.at_least_two,
  )

  -- The slot of a message to come has an older stamp or none.
  pub stamp_awaited :
      (s : ℕ)
      → length log ≤ s
      → ((slots (index c s)).seq < s) ⊎ ((slots (index c s)).seq ≡ empty_seq)
  stamp_awaited s late = ground (arith, at_rest.ceil s)

-- `do_read` by the relation of the stamp to what is wanted.
pub status_of-ok : (stamp want : ℕ) → stamp ≡ want → status_of stamp want ≡ ok
unfolding status_of
status_of-ok stamp want h = ground arith

status_of-empty :
    (stamp want : ℕ)
    → want < writing_seq
    → (stamp < want) ⊎ (stamp ≡ empty_seq) ⊎ (stamp ≡ writing_seq)
    → status_of stamp want ≡ empty
unfolding status_of
status_of-empty stamp want w h = ground arith

status_of-lapped :
    (stamp want : ℕ) → want < stamp → stamp < writing_seq → status_of stamp want ≡ lapped
unfolding status_of
status_of-lapped stamp want h w = ground arith

module _ {c : Config} (v : IsRingConfig c) {log : Log} (short : length log < writing_seq) {r : Ring}
    (at_rest : Logs c log r) (want : ℕ) where
  -- The status that `do_read` finds is the channel's answer.
  pub status_of-answer :
      want < writing_seq → status_of (slot_at c r want).seq want ≡ (answer c.capacity log want).0
  status_of-answer w = elim (answer-cases c.capacity log want) [
    | inl t ↦
        rw t.answered (status_of-ok _ want (stamp_resident v short at_rest.slots want t.old t.near))
    | inr (inl g) ↦
        let (above, below) = stamp_lapped v short at_rest.slots want g.far in
        rw g.answered (status_of-lapped _ want above (omega arith))
    | inr (inr f) ↦
        rw f.answered (
          status_of-empty _ want w
            (ground (arith, stamp_awaited v short at_rest.slots want f.late)))
  ]

  -- The slot of a message that is there carries it.
  pub Carries-IsThere :
      (t : IsThere c.capacity log want)
      → ((slot_at c r want).seq ≡ want) × Carries (slot_at c r want) t.message
  Carries-IsThere t =
      let stamp = stamp_resident v short at_rest.slots want t.old t.near in
      elim (at_rest.slots.content want t.message t.at stamp) [
        | inl flux ↦ absurd (ground arith)
        | inr carried ↦ (stamp, carried)
      ]

  pub view-IsThere :
      (t : IsThere c.capacity log want)
      → span (slot_at c r want).payload 0 (slot_at c r want).len ≡ t.message
  view-IsThere t =
      let (stamp, carried) = Carries-IsThere t in
      span-Carries (slot_at c r want) (slot_at c r want).len t.message
        (omega (arith, carried.sized)) carried
      ∙ take_all (slot_at c r want).len t.message (omega (arith, carried.sized))
