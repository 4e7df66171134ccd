-- ===== src/StoreOrder/Ahead.antt =====
-- How far the producer of include/shimmy/ring.hpp is ahead of memory on x86-64: the loads of
-- `publish` and `await_consumers_past` since its last store, and the stores that its buffer holds.
use shimmy.Common.{
  ℕ, ◌+◌, ◌-◌, ◌≤◌, ◌<◌, ◌≡◌, refl, sym, ap, ◌∙◌, true, false, List, [], ◌∷◌, ◌++◌, arith, length,
  u64,
}
use mathlib.Core.Path.{subst}
use native.Mathlib.Decide.{ℕ_discrete}
use shimmy.Config.{Config, overwrite, backpressure}
use shimmy.Ring.{Ring, Cursor}
use shimmy.System.{Pc, idle, scanning, comparing, marking, sizing, copying, advancing}
use shimmy.StoreOrder.{
  Store, mark_store, len_store, byte_store, stamp_store, count_store, apply, view, Look,
  call_overwrite, call_first, call_waiting, skip_free, see_claimed, see_behind, see_past, all_past,
  Emit, mark_slot, set_len, set_byte, stamp, count,
}

-- The claimed cursors below `i` let the producer pass.
abbrev pub IsPast : Config → (ℕ → Cursor) → ℕ → ℕ → Type 0
IsPast c cursors seq i =
    (j : ℕ) → j < i → (cursors j).in_use ≡ true → seq - c.capacity < (cursors j).value

-- `publish` has begun with this message, and waits for the cursors.
abbrev pub IsWaiting : Config → ℕ → List ℕ → Type 0
IsWaiting c seq m = (length m ≤ c.block_size) × (c.overflow ≡ backpressure) × (c.capacity ≤ seq)

-- What the producer has loaded since its last store, with `next` the number it found: the cursors
-- may have gone up since.
pub data Loads (c : Config) (cursors : ℕ → Cursor) (next : ℕ) : Pc → Pc → Type 0 where
  resting : Loads c cursors next idle idle
  at_mark : {seq : ℕ} {m : List ℕ} → Loads c cursors next (marking seq m) (marking seq m)
  at_size : {seq : ℕ} {m : List ℕ} → Loads c cursors next (sizing seq m) (sizing seq m)
  at_copy : {seq i : ℕ} {m : List ℕ} → Loads c cursors next (copying seq m i) (copying seq m i)
  at_count : {seq : ℕ} → Loads c cursors next (advancing seq) (advancing seq)
  begun_overwrite :
      {m : List ℕ}
      → length m ≤ c.block_size
      → c.overflow ≡ overwrite
      → Loads c cursors next idle (marking next m)
  begun_first :
      {m : List ℕ}
      → length m ≤ c.block_size
      → c.overflow ≡ backpressure
      → next < c.capacity
      → Loads c cursors next idle (sizing next m)
  begun_scan :
      {m : List ℕ} {i : ℕ}
      → IsWaiting c next m
      → i ≤ c.max_consumers
      → IsPast c cursors next i
      → Loads c cursors next idle (scanning next m i)
  begun_compare :
      {m : List ℕ} {i : ℕ}
      → IsWaiting c next m
      → i < c.max_consumers
      → IsPast c cursors next i
      → Loads c cursors next idle (comparing next m i)
  begun_past :
      {m : List ℕ}
      → IsWaiting c next m
      → IsPast c cursors next c.max_consumers
      → Loads c cursors next idle (sizing next m)

-- `next_publish_` once the store has reached memory.
abbrev pub next_after : Store → ℕ → ℕ
next_after (count_store seq) next = u64 (seq + 1)
next_after _ next = next

-- The producer goes from where memory has it, at `p`, to where it is, at `q`, by loads and by the
-- stores that its buffer holds.
pub data Ahead (c : Config) (cursors : ℕ → Cursor) : ℕ → Pc → List Store → Pc → Type 0 where
  done : {next : ℕ} {p q : Pc} → Loads c cursors next p q → Ahead c cursors next p [] q
  more :
      {next : ℕ} {p p' p'' q : Pc} {st : Store} {rest : List Store}
      → Loads c cursors next p p'
      → Emit p' st p''
      → Ahead c cursors (next_after st next) p'' rest q
      → Ahead c cursors next p (st ∷ rest) q

pub apply-next :
    (c : Config) (st : Store) (r : Ring)
    → (apply c st r).next_publish ≡ next_after st r.next_publish
apply-next c (mark_store seq) r = refl
apply-next c (len_store seq len) r = refl
apply-next c (byte_store seq i b) r = refl
apply-next c (stamp_store seq m) r = refl
apply-next c (count_store seq) r = refl

pub apply-cursors : (c : Config) (st : Store) (r : Ring) → (apply c st r).cursors ≡ r.cursors
apply-cursors c (mark_store seq) r = refl
apply-cursors c (len_store seq len) r = refl
apply-cursors c (byte_store seq i b) r = refl
apply-cursors c (stamp_store seq m) r = refl
apply-cursors c (count_store seq) r = refl

-- The cursors `high` are those of `low`, gone up.
pub record Above (c : Config) (low high : ℕ → Cursor) : Type 0 where
  pub used : (j : ℕ) → (high j).in_use ≡ (low j).in_use
  pub up : c.overflow ≡ backpressure → (j : ℕ) → (low j).value ≤ (high j).value

module _ {c : Config} {low high : ℕ → Cursor} (above : Above c low high) where
  IsPast-up : (next i : ℕ) → c.overflow ≡ backpressure → IsPast c low next i → IsPast c high next i
  IsPast-up next i o past j lt u = omega (arith, past j lt (sym (above.used j) ∙ u), above.up o j)

  Loads-up : {next : ℕ} {p q : Pc} → Loads c low next p q → Loads c high next p q
  Loads-up resting = resting
  Loads-up at_mark = at_mark
  Loads-up at_size = at_size
  Loads-up at_copy = at_copy
  Loads-up at_count = at_count
  Loads-up (begun_overwrite fits o) = begun_overwrite fits o
  Loads-up (begun_first fits o early) = begun_first fits o early
  Loads-up (begun_scan waits lt past) = begun_scan waits lt (IsPast-up _ _ waits.1 past)
  Loads-up (begun_compare waits lt past) = begun_compare waits lt (IsPast-up _ _ waits.1 past)
  Loads-up (begun_past waits past) = begun_past waits (IsPast-up _ _ waits.1 past)

  pub Ahead-up :
      {next : ℕ} {p q : Pc} {pending : List Store}
      → Ahead c low next p pending q
      → Ahead c high next p pending q
  Ahead-up (done l) = done (Loads-up l)
  Ahead-up (more l e rest) = more (Loads-up l) e (Ahead-up rest)

  -- What the cursors below `i` and cursor `i` let pass.
  IsPast-next :
      (next i : ℕ)
      → c.overflow ≡ backpressure
      → IsPast c high next i
      → ((low i).in_use ≡ true → next - c.capacity < (low i).value)
      → IsPast c high next (i + 1)
  IsPast-next next i o past here j lt u = elim (ℕ_discrete j i) [
    | yes same ↦ omega (
      arith,
      above.up o j,
      subst (λ t. (low t).in_use ≡ true → next - c.capacity < (low t).value) (sym same) here
          (sym (above.used j) ∙ u),
    )
    | no away ↦ past j (omega arith) u
  ]

  Loads-Look :
      {r : Ring} {p p' q : Pc}
      → r.cursors ≡ low
      → Loads c high r.next_publish p p'
      → Look c r p' q
      → Loads c high r.next_publish p q
  Loads-Look e resting (call_overwrite m fits o) = begun_overwrite fits o
  Loads-Look e resting (call_first m fits o early) = begun_first fits o early
  Loads-Look e resting (call_waiting m fits o late) =
      begun_scan (fits, o, late) (omega arith) (λ j lt u. omega arith)
  Loads-Look e (begun_scan waits lt past) (skip_free {seq} {i} h free) =
      begun_scan waits (omega arith) (
        IsPast-next seq i waits.1 past
          (λ u. let v = subst (λ t. (t i).in_use ≡ false) e free in absurd (cc)))
  Loads-Look e (begun_scan waits lt past) (see_claimed h used) = begun_compare waits h past
  Loads-Look e (begun_scan {m} waits lt past) (all_past {seq} {i} end) =
      begun_past waits (subst (λ t. IsPast c high seq t) end past)
  Loads-Look e (begun_compare waits lt past) (see_behind low) =
      begun_scan waits (omega arith) (λ j lt u. omega arith)
  Loads-Look e (begun_compare waits lt past) (see_past {seq} {i} h) =
      begun_scan waits (omega arith)
        (IsPast-next seq i waits.1 past (λ u. subst (λ t. seq - c.capacity < (t i).value) e h))
  Loads-Look e at_mark step = elim step [ ]
  Loads-Look e at_size step = elim step [ ]
  Loads-Look e at_copy step = elim step [ ]
  Loads-Look e at_count step = elim step [ ]
  Loads-Look e (begun_overwrite fits o) step = elim step [ ]
  Loads-Look e (begun_first fits o early) step = elim step [ ]
  Loads-Look e (begun_past waits past) step = elim step [ ]

  -- A load: the producer sees its own stores, and the cursors of memory.
  pub Ahead-Look :
      (r : Ring) {next : ℕ} {p p' q : Pc} {pending : List Store}
      → r.cursors ≡ low
      → r.next_publish ≡ next
      → Ahead c high next p pending p'
      → Look c (view c pending r) p' q
      → Ahead c high next p pending q
  Ahead-Look r {p} {q} same e (done {q = p'} l) step =
      subst (λ t. Ahead c high t p [] q) e
        (done (Loads-Look same (subst (λ t. Loads c high t p p') (sym e) l) step))
  Ahead-Look r same e (more {st} l s rest) step = more l s (
      Ahead-Look (apply c st r) (apply-cursors c st r ∙ same)
        (apply-next c st r ∙ ap (next_after st) e) rest step)

-- A producer that can store is where its last store or its call has left it.
Emit-Loads :
    {c : Config} {cursors : ℕ → Cursor} {next : ℕ} {p q : Pc} {st : Store}
    → Emit p st q
    → Loads c cursors next q q
Emit-Loads mark_slot = at_size
Emit-Loads set_len = at_copy
Emit-Loads (set_byte b e) = at_copy
Emit-Loads (stamp e) = at_count
Emit-Loads count = resting

-- A store goes to the end of the buffer.
pub Ahead-Emit :
    {c : Config} {cursors : ℕ → Cursor} {next : ℕ} {p p' q : Pc} {pending : List Store} {st : Store}
    → Ahead c cursors next p pending p'
    → Emit p' st q
    → Ahead c cursors next p (pending ++ (st ∷ [])) q
Ahead-Emit (done l) step = more l step (done (Emit-Loads step))
Ahead-Emit (more l s rest) step = more l s (Ahead-Emit rest step)
