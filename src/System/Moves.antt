-- ===== src/System/Moves.antt =====
-- What the steps of a reader do to the cursors and the invariant: those that store nothing, and those
-- that end in `publish_cursor` (include/shimmy/ring.hpp).
use shimmy.Common.{
  ℕ, ◌+◌, ◌≤◌, ◌<◌, ◌≡◌, ◌≢◌, inl, inr, refl, sym, ◌∙◌, true, false, [], ◌∷◌, arith, length,
  Bool-cases, ◌==◌, ltb, update, update_self, update_ne,
}
use mathlib.Core.Path.{subst}
use native.Mathlib.Decide.{ℕ_discrete}
use shimmy.Config.{Config, Overflow, overwrite, backpressure}
use shimmy.Ring.{Ring, Cursor}
use shimmy.Ring.Log.{Log}
use shimmy.Consumer.{publish_cursor, publish_cursor_for}
use shimmy.System.{
  Pc, idle, scanning, comparing, marking, sizing, copying, advancing, at_next, ReaderPc, polling,
  Got,
}
use shimmy.System.Invariant.{Inv, Held, PcOk, ReaderOk, InOrder, Gapless, busy, begun, next_of}

pub InOrder-raise :
    (log : Log) (low high : ℕ) (got : Got) → low ≤ high → InOrder log low got → InOrder log high got
InOrder-raise log low high [] h v = tt
InOrder-raise log low high ((s, m) ∷ got) h v = (omega (arith, v.0), v.1, v.2)

-- The count of messages that the readers can see is that of the stamped ones, or one less.
pub counted :
    (c : Config) (log : Log) (r : Ring) (p : Pc)
    → PcOk c log r p
    → (r.next_publish ≤ length log) × (length log ≤ r.next_publish + 1)
counted c log r idle v = omega (arith, v)
counted c log r (scanning seq m i) v = omega (arith, v.0.1)
counted c log r (comparing seq m i) v = omega (arith, v.0.1)
counted c log r (marking seq m) v = omega (arith, v.0.1)
counted c log r (sizing seq m) v = omega (arith, v.0.1)
counted c log r (copying seq m i) v = omega (arith, v.0.1)
counted c log r (advancing seq) v = omega (arith, v.0, v.1)

-- What holds of the reader that moves and of each of the others holds after the move.
update-all :
    (P : ℕ → ReaderPc → Got → Type 0) (readers : ℕ → ReaderPc) (got : ℕ → Got) (i : ℕ)
    (q : ReaderPc) (g : Got)
    → P i q g
    → ((j : ℕ) → j ≢ i → P j (readers j) (got j))
    → (j : ℕ) → P j (update readers i q j) (update got i g j)
update-all P readers got i q g new old j = elim (ℕ_discrete i j) [
  | yes same ↦
      subst (λ t. P t (update readers i q t) (update got i g t)) same
        (rw (update_self readers i q, update_self got i g) new)
  | no away ↦
      rw (update_ne readers i q j away, update_ne got i g j away) (old j (λ e. away (sym e)))
]

-- The cursors after reader `i` has gone on to `next`.
pub record Moves (c : Config) (r : Ring) (i next : ℕ) (cursors : ℕ → Cursor) : Type 0 where
  pub used : (j : ℕ) → (cursors j).in_use ≡ (r.cursors j).in_use
  pub here : c.overflow ≡ backpressure → (cursors i).value ≡ next
  pub other : (j : ℕ) → j ≢ i → (cursors j).value ≡ (r.cursors j).value

module _ (c : Config) (r : Ring) (i next : ℕ) where
  publish_cursor_for-cursors :
      (o : Overflow)
      → publish_cursor_for o c r (at_next i next)
        ≡ record r { cursors = (publish_cursor_for o c r (at_next i next)).cursors }
  unfolding publish_cursor_for
  publish_cursor_for-cursors overwrite = refl
  publish_cursor_for-cursors backpressure = elim (Bool-cases (i == c.max_consumers)) [
    | inl none_left ↦ rw none_left refl
    | inr claimed ↦
        rw claimed
          (elim (Bool-cases (ltb i c.max_consumers)) [ inl lt ↦ rw lt refl | inr ge ↦ rw ge refl ])
  ]

  -- `publish_cursor` stores to the cursors alone.
  pub publish_cursor-cursors :
      publish_cursor c r (at_next i next)
      ≡ record r { cursors = (publish_cursor c r (at_next i next)).cursors }
  unfolding publish_cursor
  publish_cursor-cursors = publish_cursor_for-cursors c.overflow

  publish_cursor_for-Moves :
      (o : Overflow)
      → c.overflow ≡ o
      → (o ≡ backpressure → i < c.max_consumers)
      → Moves c r i next (publish_cursor_for o c r (at_next i next)).cursors
  unfolding publish_cursor_for
  publish_cursor_for-Moves overwrite e mine = record {
    used = λ j. refl;
    here = λ o. absurd (cc);
    other = λ j away. refl;
  }
  publish_cursor_for-Moves backpressure e mine =
      let claimed : (i == c.max_consumers) ≡ false = ground (arith, mine refl) in
      let within : ltb i c.max_consumers ≡ true = ground (arith, mine refl) in
      record {
        used = λ j. rw (claimed, within) (ground arith);
        here = λ o. rw (claimed, within) (ground arith);
        other = λ j away. rw (claimed, within) (ground arith);
      }

  pub publish_cursor-Moves :
      (c.overflow ≡ backpressure → i < c.max_consumers)
      → Moves c r i next (publish_cursor c r (at_next i next)).cursors
  unfolding publish_cursor
  publish_cursor-Moves mine = publish_cursor_for-Moves c.overflow refl mine

-- A cursor that goes up does not undo what the producer's scan has seen.
PcOk-moves :
    (c : Config) (log : Log) (r : Ring) (p : Pc) (cursors : ℕ → Cursor)
    → (c.overflow ≡ backpressure → (j : ℕ) → (r.cursors j).value ≤ (cursors j).value)
    → ((j : ℕ) → (cursors j).in_use ≡ (r.cursors j).in_use)
    → PcOk c log r p
    → PcOk c log (record r { cursors = cursors }) p
PcOk-moves c log r idle cursors up used v = v
PcOk-moves c log r (scanning seq m i) cursors up used v =
    let (cur, (o, late, seen)) = v in
    (cur, (o, late, λ j h u. omega (arith, seen j h (sym (used j) ∙ u), up o j)))
PcOk-moves c log r (comparing seq m i) cursors up used v =
    let (cur, (o, late, seen), here) = v in
    (cur, (o, late, λ j h u. omega (arith, seen j h (sym (used j) ∙ u), up o j)), used i ∙ here)
PcOk-moves c log r (marking seq m) cursors up used v = v
PcOk-moves c log r (sizing seq m) cursors up used v = v
PcOk-moves c log r (copying seq m i) cursors up used v = v
PcOk-moves c log r (advancing seq) cursors up used v = v

module _ {c : Config} {n : ℕ} {r : Ring} {p : Pc} {readers : ℕ → ReaderPc} {got : ℕ → Got}
    {log : Log} (inv : Inv c n r p readers got log) (i : ℕ) (few : i < n) where
  -- The cursor of the reader that moves goes up, and the others stay.
  cursor_up :
      (next : ℕ) (cursors : ℕ → Cursor)
      → Moves c r i next cursors
      → next_of (readers i) ≤ next
      → c.overflow ≡ backpressure
      → (j : ℕ) → (r.cursors j).value ≤ (cursors j).value
  cursor_up next cursors moves up o j = elim (ℕ_discrete j i) [
    | yes same ↦ rw same (omega (arith, (inv.held o i few).here, moves.here o))
    | no away ↦ omega (arith, moves.other j away)
  ]

  -- Reader `i` goes on to `q`, which leaves it with `g`.
  Inv-read :
      (q : ReaderPc) (g : Got) (cursors : ℕ → Cursor)
      → Moves c r i (next_of q) cursors
      → next_of (readers i) ≤ next_of q
      → ReaderOk c log (busy p) r.slots q
      → InOrder log (next_of q) g
      → (c.overflow ≡ backpressure → Gapless log (next_of q) g)
      → Inv c n (record r { cursors = cursors }) p (update readers i q) (update got i g) log
  Inv-read q g cursors moves up ok order whole = record {
    few = inv.few;
    owned = λ j u. inv.owned j (sym (moves.used j) ∙ u);
    slots = inv.slots;
    producer =
        PcOk-moves c log r p cursors (cursor_up (next_of q) cursors moves up) moves.used
          inv.producer;
    reader =
        update-all (λ j q g. ReaderOk c log (busy p) r.slots q) readers got i q g ok
          (λ j away. inv.reader j);
    ordered =
        update-all (λ j q g. InOrder log (next_of q) g) readers got i q g order
          (λ j away. inv.ordered j);
    held = λ o.
        update-all (λ j q g. j < n → Held c (begun (busy p) log) (cursors j) q) readers got i q g
          (λ h.
            let k = inv.held o i few in
            record {
              used = moves.used i ∙ k.used;
              here = moves.here o;
              near = omega (arith, k.near, cursor_up (next_of q) cursors moves up o i);
            })
          (λ j away h.
            let k = inv.held o j h in
            record {
              used = moves.used j ∙ k.used;
              here = moves.other j away ∙ k.here;
              near = omega (arith, k.near, moves.other j away);
            });
    complete = λ o.
        update-all (λ j q g. j < n → Gapless log (next_of q) g) readers got i q g (λ h. whole o)
          (λ j away. inv.complete o j);
  }

  -- A step of the reader that stores nothing.
  pub Inv-look :
      (q : ReaderPc)
      → next_of (readers i) ≡ next_of q
      → ReaderOk c log (busy p) r.slots q
      → Inv c n r p (update readers i q) (update got i (got i)) log
  Inv-look q stays good =
      Inv-read q (got i) r.cursors
        (record {
          used = λ j. refl;
          here = λ o. (inv.held o i few).here ∙ stays;
          other = λ j away. refl;
        })
        (omega (arith, stays)) good (subst (λ t. InOrder log t (got i)) stays (inv.ordered i))
        (λ o. subst (λ t. Gapless log t (got i)) stays (inv.complete o i few))

  -- A step that ends in `publish_cursor`.
  pub Inv-store :
      (next : ℕ) (g : Got)
      → next_of (readers i) ≤ next
      → next ≤ length log
      → InOrder log next g
      → (c.overflow ≡ backpressure → Gapless log next g)
      → Inv c n
          (publish_cursor c r (at_next i next))
          p
          (update readers i (polling next))
          (update got i g)
          log
  Inv-store next g up old order whole =
      subst (λ t. Inv c n t p (update readers i (polling next)) (update got i g) log)
        (sym (publish_cursor-cursors c r i next))
        (Inv-read (polling next) g (publish_cursor c r (at_next i next)).cursors
          (publish_cursor-Moves c r i next (λ o. omega (arith, few, inv.few o))) up old order whole)
