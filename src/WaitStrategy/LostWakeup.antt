-- ===== src/WaitStrategy/LostWakeup.antt =====
-- What the store buffer does to the promise that no wakeup is lost, which the comment of `Futex` in
-- include/shimmy/wait_strategy.hpp makes.
use shimmy.Common.{
  ℕ, ◌<◌, ◌≡◌, ◌^◌, refl, sym, true, false, List, [], ◌∷◌, update, update_self, u32, arith,
}
use mathlib.Core.Path.{subst}
use shimmy.WaitStrategy.Eventcount.{
  Sleeper, announced, deciding, asleep, Sleep, announce, see_behind, fall_asleep, resting,
}
use shimmy.WaitStrategy.Sleepers.{insiders-away}
use shimmy.WaitStrategy.Watched.{
  Watched, Watched-stir, Watched-nobody, Watched-woken, Watched-Sleep, Watched-asleep,
}
use shimmy.WaitStrategy.StoreBuffer.{
  Buffered, is_pending, BufferedWake, mark, publish, publish_marked, drain, nobody_waits,
  somebody_waits, wake_all, BufferedTurn, producer, reader, BufferedLeads, begin, later, at_first,
}

-- The producer rests, and did not look for waiters too early.
abbrev pub IsCalm : Buffered → Type 0
IsCalm s = (s.waker ≡ resting) × (s.hasty ≡ false)

-- The readers are as without the buffer, and under a calm word the buffer is empty.
record Drained (n : ℕ) (expected : ℕ → ℕ) (s : Buffered) : Type 0 where
  watched : Watched n expected (λ _. IsCalm s) (λ _. s.stamp) s.waiters s.sleepers
  empty : IsCalm s → s.pending ≡ []

is_pending-nil : (pending : List ℕ) → is_pending pending ≡ false → pending ≡ []
is_pending-nil [] e = refl
is_pending-nil (x ∷ pending) e = absurd (ground (arith, e))

module _ {n : ℕ} {expected : ℕ → ℕ} {s : Buffered} (inv : Drained n expected s) where
  -- The producer is at work.
  Drained-at_work :
      (t : Buffered)
      → (IsCalm t → ⊥)
      → t.waiters ≡ s.waiters
      → t.sleepers ≡ s.sleepers
      → Drained n expected t
  Drained-at_work t busy w q = record {
    watched =
        subst (λ w. Watched n expected (λ _. IsCalm t) (λ _. t.stamp) w t.sleepers) (sym w)
          (subst (λ q. Watched n expected (λ _. IsCalm t) (λ _. t.stamp) s.waiters q) (sym q)
            (Watched-stir inv.watched (λ _. IsCalm t) (λ _. t.stamp) (λ i. busy)));
    empty = λ calm. absurd (busy calm);
  }

  BufferedWake-Drained : {t : Buffered} → BufferedWake s t → Drained n expected t
  BufferedWake-Drained (mark at) = Drained-at_work _ (λ calm. cc (calm.0)) refl refl
  BufferedWake-Drained (publish seq at) = Drained-at_work _ (λ calm. cc (calm.0)) refl refl
  BufferedWake-Drained (publish_marked seq at) = Drained-at_work _ (λ calm. cc (calm.0)) refl refl
  BufferedWake-Drained (drain e) = Drained-at_work _ (λ calm. cc (e, inv.empty calm)) refl refl
  BufferedWake-Drained (nobody_waits at none) = record {
    watched = Watched-nobody inv.watched _ none;
    empty = λ calm. is_pending-nil s.pending calm.1;
  }
  BufferedWake-Drained (somebody_waits at some_) = Drained-at_work _ (λ calm. cc (calm.0)) refl refl
  BufferedWake-Drained (wake_all at none) = record {
    watched = Watched-woken inv.watched _;
    empty = λ calm. none;
  }

module _ {n : ℕ} {expected : ℕ → ℕ} (few : n < 2 ^ 31) where
  BufferedTurn-Drained :
      {s t : Buffered} → Drained n expected s → BufferedTurn n expected s t → Drained n expected t
  BufferedTurn-Drained inv (producer step) = BufferedWake-Drained inv step
  BufferedTurn-Drained inv (reader i lt step) = record {
    watched = Watched-Sleep inv.watched few i lt refl step;
    empty = inv.empty;
  }

  BufferedLeads-Drained : {s : Buffered} → BufferedLeads n expected s → Drained n expected s
  BufferedLeads-Drained begin = record {
    watched = record { counted = insiders-away n; each = λ i lt. tt };
    empty = λ calm. refl;
  }
  BufferedLeads-Drained (later before step) =
      BufferedTurn-Drained (BufferedLeads-Drained before) step

  -- In every state that fewer than 2^31 readers and the producer reach on one slot on x86-64,
  -- where the producer's stores to the stamp wait in its store buffer: when a reader is asleep,
  -- the producer is between two calls of `publish`, and its last `notify` did not find `waiters`
  -- at 0 while a stamp was still in the buffer, then the stamp that the reader saw is below the
  -- number it waits for, the low 32 bits of the slot's stamp are still those that it saw, and the
  -- buffer holds no stamp.
  pub asleep-hasty :
      {s : Buffered}
      → BufferedLeads n expected s
      → (i seen : ℕ) → i < n
      → s.sleepers i ≡ asleep seen
      → s.waker ≡ resting
      → s.hasty ≡ false
      → (seen < expected i) × (u32 s.stamp ≡ u32 seen) × (s.pending ≡ [])
  asleep-hasty led i seen lt at rests calm =
      let inv = BufferedLeads-Drained led in
      let (old, word) = Watched-asleep inv.watched i seen lt at (rests, calm) in
      (old, word, inv.empty (rests, calm))

-- A reader's step from a place that it is known to be at.
reader_at :
    {n : ℕ} {expected : ℕ → ℕ} (s : Buffered) (i : ℕ) {p q : Sleeper} {w : ℕ}
    → i < n
    → s.sleepers i ≡ p
    → Sleep s.stamp s.waiters (expected i) p w q
    → BufferedTurn n expected s (record s { waiters = w; sleepers = update s.sleepers i q })
reader_at {expected = expected} s i {q = q} {w} lt at step =
    reader i lt (subst (λ p. Sleep s.stamp s.waiters (expected i) p w q) (sym at) step)

-- Message `old` is in the slot; the stamp of the next one is in the store buffer, and the producer has
-- gone on without a wake.
abbrev passed_by : ℕ → ℕ → Buffered
passed_by old next = record at_first { stamp = old; pending = next ∷ []; hasty = true }

passed_by-BufferedLeads :
    {n : ℕ} {expected : ℕ → ℕ} (old next : ℕ) → BufferedLeads n expected (passed_by old next)
passed_by-BufferedLeads old next =
    let first = later (later begin (producer (publish old refl))) (producer (drain refl)) in
    let rests = later first (producer (nobody_waits refl refl)) in
    later (later rests (producer (publish next refl))) (producer (nobody_waits refl refl))

-- For every reader of the slot and every number below the one that it waits for, there is a run on
-- x86-64, with the producer's store buffer, that ends with the reader asleep on the stamp of that
-- number, while the slot's stamp in memory is the one that it waits for, nothing is left in the
-- buffer, and the producer is done with `notify`: this wakeup is lost.
pub lost-wakeup :
    {n : ℕ} {expected : ℕ → ℕ} (i old : ℕ)
    → i < n
    → old < expected i
    → (s : Buffered) × BufferedLeads n expected s
      × (s.sleepers i ≡ asleep old)
      × (s.stamp ≡ expected i)
      × (s.pending ≡ [])
      × (s.waker ≡ resting)
lost-wakeup {expected = expected} i old lt behind =
    let s = passed_by old (expected i) in
    let after_one = update s.sleepers i announced in
    let after_two = update after_one i (deciding old) in
    let one = later (passed_by-BufferedLeads old (expected i)) (reader_at s i lt refl announce) in
    let two =
      later one (reader_at _ i lt (update_self s.sleepers i announced) (see_behind behind)) in
    let three =
      later two (reader_at _ i lt (update_self after_one i (deciding old)) (fall_asleep refl)) in
    (_, later three (producer (drain refl)), update_self after_two i (asleep old), refl, refl, refl)
