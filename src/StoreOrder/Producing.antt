-- ===== src/StoreOrder/Producing.antt =====
-- The producer's steps of include/shimmy/ring.hpp with a store buffer: those that load or store leave
-- the interleaved ring where it is, and the store that reaches memory is its step.
use shimmy.Common.{◌≡◌, ℕ, refl, sym, List, ◌∷◌, ◌++◌, []}
use mathlib.Core.Path.{subst}
use shimmy.Config.{Config}
use shimmy.System.{Pc}
use shimmy.StoreOrder.{Store, Buffers, view, apply, log_after, Look, Emit}
use shimmy.StoreOrder.Ahead.{Ahead, more, apply-next, apply-cursors, Ahead-Look, Ahead-Emit}
use shimmy.StoreOrder.Drained.{drain-run}
use shimmy.StoreOrder.Tied.{IsRising, Tied, Tied-Above}

module _ {c : Config} {n : ℕ} {s : Buffers} (t : Tied c n s) where
  pub Look-Tied :
      {p : Pc} → Look c (view c s.pending s.memory) s.pc p → Tied c n (record s { pc = p })
  Look-Tied step = record {
    cursors = t.cursors;
    from = t.from;
    follows = t.follows;
    used = t.used;
    rising = t.rising;
    ahead = Ahead-Look (Tied-Above t) s.memory refl refl t.ahead step;
  }

  pub Emit-Tied :
      {st : Store} {p : Pc}
      → Emit s.pc st p
      → Tied c n (record s { pending = s.pending ++ (st ∷ []); pc = p })
  Emit-Tied step = record {
    cursors = t.cursors;
    from = t.from;
    follows = t.follows;
    used = t.used;
    rising = t.rising;
    ahead = Ahead-Emit t.ahead step;
  }

  drained_at :
      {st : Store} {rest : List Store}
      → Ahead c t.cursors s.memory.next_publish t.from (st ∷ rest) s.pc
      → Tied c n
          (record s { memory = apply c st s.memory; pending = rest; log = log_after st s.log })
  drained_at (more {p'' = p} {st} {rest} l e later) = record {
    cursors = t.cursors;
    from = p;
    follows = drain-run s.memory l e t.follows;
    used =
        subst (λ m. (j : ℕ) → (t.cursors j).in_use ≡ (m j).in_use)
          (sym (apply-cursors c st s.memory)) t.used;
    rising = λ o.
        subst (λ m. (j : ℕ) → IsRising (m j).value (s.shown j) (t.cursors j).value)
          (sym (apply-cursors c st s.memory)) (t.rising o);
    ahead =
        subst (λ next. Ahead c t.cursors next p rest s.pc) (sym (apply-next c st s.memory)) later;
  }

  pub drain-Tied :
      {st : Store} {rest : List Store}
      → s.pending ≡ st ∷ rest
      → Tied c n
          (record s { memory = apply c st s.memory; pending = rest; log = log_after st s.log })
  drain-Tied e =
      drained_at (subst (λ l. Ahead c t.cursors s.memory.next_publish t.from l s.pc) e t.ahead)
