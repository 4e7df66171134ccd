-- ===== src/WaitStrategy/Parked.antt =====
-- What a step of `publish` (include/shimmy/ring.hpp) does to the word that a reader sleeps on in
-- `Futex::wait` (include/shimmy/wait_strategy.hpp).
use shimmy.Common.{
  ℕ, ◌≡◌, refl, ap, ◌∙◌, false, Option, none, some, length, update, update_self, update_ne, u32,
}
use mathlib.Core.Path.{subst}
use native.Mathlib.Decide.{ℕ_discrete}
use shimmy.Config.{Config, index}
use shimmy.Ring.{Ring, Slot, slot_at, store_seq, store_len, store_byte, writing_seq}
use shimmy.Ring.Log.{Log}
use shimmy.System.{
  Pc, idle, scanning, comparing, marking, sizing, copying, advancing, Produce, call_overwrite,
  call_first, call_waiting, skip_free, see_claimed, see_behind, see_past, all_past, mark_slot,
  set_len, set_byte, stamp, count,
}
use shimmy.WaitStrategy.Watched.{Holds}
use shimmy.WaitStrategy.Parking.{Notice, nothing_due, due, rousing, due_after, on_slot}

-- The message whose slot the producer may change, or whose stamp it has still to announce.
abbrev pub in_hand : Notice → Pc → Option ℕ
in_hand (due seq) p = some seq
in_hand (rousing seq) p = some seq
in_hand nothing_due (sizing seq m) = some seq
in_hand nothing_due (copying seq m i) = some seq
in_hand nothing_due (advancing seq) = some seq
in_hand nothing_due idle = none
in_hand nothing_due (scanning seq m i) = none
in_hand nothing_due (comparing seq m i) = none
in_hand nothing_due (marking seq m) = none

-- It is not that of `next`.
abbrev pub IsCalm : Config → Notice → Pc → ℕ → Type 0
IsCalm c notice p next = (seq : ℕ) → in_hand notice p ≡ some seq → on_slot c seq next ≡ false

-- A store to a slot that leaves its stamp.
same-stamp :
    (slots : ℕ → Slot) (at : ℕ) (slot : Slot) (other : ℕ)
    → slot.seq ≡ (slots at).seq
    → (update slots at slot other).seq ≡ (slots other).seq
same-stamp slots at slot other e = elim (ℕ_discrete at other) [
  | yes same ↦
      subst (λ t. (update slots at slot t).seq ≡ (slots t).seq) same
        (rw (update_self slots at slot) e)
  | no other_slot ↦ rw (update_ne slots at slot other other_slot) refl
]

module _ (c : Config) where
  -- A store of a stamp to another slot.
  stamp-elsewhere :
      (r : Ring) (seq next x : ℕ)
      → on_slot c seq next ≡ false
      → (slot_at c (store_seq c r seq x) next).seq ≡ (slot_at c r next).seq
  stamp-elsewhere r seq next x e = rw e refl

  len-stamp :
      (r : Ring) (seq next len : ℕ)
      → (slot_at c (store_len c r seq len) next).seq ≡ (slot_at c r next).seq
  len-stamp r seq next len = same-stamp r.slots (index c seq) _ (index c next) refl

  byte-stamp :
      (r : Ring) (seq next i b : ℕ)
      → (slot_at c (store_byte c r seq i b) next).seq ≡ (slot_at c r next).seq
  byte-stamp r seq next i b = same-stamp r.slots (index c seq) _ (index c next) refl

module _ {c : Config} where
  -- What a step of `publish` does to the word of a slot.
  pub Produce-Holds :
      {r r' : Ring} {p p' : Pc} {log log' : Log} (next : ℕ)
      → Produce c r log p r' p' log'
      → Holds
          (IsCalm c nothing_due p next)
          (slot_at c r next).seq
          (IsCalm c (due_after p) p' next)
          (slot_at c r' next).seq
  Produce-Holds next (call_overwrite m fits o) seen v calm = v (λ seq e. absurd (cc))
  Produce-Holds next (call_first m fits o early) seen v calm = v (λ seq e. absurd (cc))
  Produce-Holds next (call_waiting m fits o late) seen v calm = v (λ seq e. absurd (cc))
  Produce-Holds next (skip_free lt free) seen v calm = v (λ seq e. absurd (cc))
  Produce-Holds next (see_claimed lt used) seen v calm = v (λ seq e. absurd (cc))
  Produce-Holds next (see_behind low) seen v calm = v (λ seq e. absurd (cc))
  Produce-Holds next (see_past above) seen v calm = v (λ seq e. absurd (cc))
  Produce-Holds next (all_past end) seen v calm = v (λ seq e. absurd (cc))
  Produce-Holds {r} next (mark_slot {seq}) seen v calm =
      ap u32 (stamp-elsewhere c r seq next writing_seq (calm seq refl)) ∙ v (λ seq e. absurd (cc))
  Produce-Holds {r} next (set_len {seq} {m}) seen v calm =
      ap u32 (len-stamp c r seq next (length m)) ∙ v calm
  Produce-Holds {r} next (set_byte {seq} {i} b e) seen v calm =
      ap u32 (byte-stamp c r seq next i b) ∙ v calm
  Produce-Holds {r} next (stamp {seq} e) seen v calm =
      ap u32 (stamp-elsewhere c r seq next seq (calm seq refl)) ∙ v calm
  Produce-Holds next count seen v calm = v calm
