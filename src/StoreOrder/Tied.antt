-- ===== src/StoreOrder/Tied.antt =====
-- Each state of include/shimmy/ring.hpp with store buffers goes with a state of the interleaved ring:
-- the same slots and readers, the producer where memory has it, and the cursors where the readers
-- have them.
use shimmy.Common.{
  ℕ, ◌≤◌, ◌≡◌, ◌≢◌, refl, sym, List, [], ◌∷◌, ◌++◌, arith, update, update_self, update_ne,
}
use mathlib.Core.Path.{subst}
use native.Mathlib.Decide.{ℕ_discrete}
use shimmy.Config.{Config, backpressure}
use shimmy.Ring.{Cursor}
use shimmy.System.{Pc, Reach}
use shimmy.StoreOrder.{Buffers}
use shimmy.StoreOrder.Ahead.{Above, Ahead}
use shimmy.StoreOrder.Drained.{in_step}

-- Values from `low`, in memory, to `high`, over those that wait in the buffer.
abbrev pub IsRising : ℕ → List ℕ → ℕ → Type 0
IsRising low [] high = low ≡ high
IsRising low (v ∷ shown) high = (low ≤ v) × IsRising v shown high

pub IsRising-le : (low : ℕ) (shown : List ℕ) (high : ℕ) → IsRising low shown high → low ≤ high
IsRising-le low [] high e = omega (arith, e)
IsRising-le low (v ∷ shown) high (le, rest) = omega (arith, le, IsRising-le v shown high rest)

pub IsRising-snoc :
    (low : ℕ) (shown : List ℕ) (high v : ℕ)
    → IsRising low shown high
    → high ≤ v
    → IsRising low (shown ++ (v ∷ [])) v
IsRising-snoc low [] high v e up = (omega (arith, e, up), refl)
IsRising-snoc low (w ∷ shown) high v (le, rest) up = (le, IsRising-snoc w shown high v rest up)

-- `cursors` and `from` are those of the interleaved ring.
pub record Tied (c : Config) (n : ℕ) (s : Buffers) : Type 0 where
  pub cursors : ℕ → Cursor
  pub from : Pc
  pub follows : Reach c n (in_step s.memory cursors from s.readers s.got s.log)
  pub used : (j : ℕ) → (cursors j).in_use ≡ (s.memory.cursors j).in_use
  pub rising :
      c.overflow ≡ backpressure
      → (j : ℕ) → IsRising (s.memory.cursors j).value (s.shown j) (cursors j).value
  pub ahead : Ahead c cursors s.memory.next_publish from s.pending s.pc

pub Tied-Above :
    {c : Config} {n : ℕ} {s : Buffers} (t : Tied c n s) → Above c s.memory.cursors t.cursors
Tied-Above {s} t = record {
  used = t.used;
  up = λ o j. IsRising-le (s.memory.cursors j).value (s.shown j) (t.cursors j).value (t.rising o j);
}

-- One reader's buffer has changed.
pub IsRising-update :
    (low high : ℕ → Cursor) (shown : ℕ → List ℕ) (i : ℕ) (new : List ℕ)
    → IsRising (low i).value new (high i).value
    → ((j : ℕ) → j ≢ i → IsRising (low j).value (shown j) (high j).value)
    → (j : ℕ) → IsRising (low j).value (update shown i new j) (high j).value
IsRising-update low high shown i new here other j = elim (ℕ_discrete i j) [
  | yes same ↦
      subst (λ t. IsRising (low t).value (update shown i new t) (high t).value) same
        (rw (update_self shown i new) here)
  | no away ↦ rw (update_ne shown i new j away) (other j (λ e. away (sym e)))
]
