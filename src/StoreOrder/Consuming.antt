-- ===== src/StoreOrder/Consuming.antt =====
-- The readers' steps of include/shimmy/ring.hpp with store buffers: what `commit` and `resync` store
-- to the cursor at once in the interleaved ring waits in the reader's buffer.
use shimmy.Common.{
  ℕ, ◌+◌, ◌≤◌, ◌<◌, ◌≡◌, refl, sym, ap, ◌∙◌, List, [], ◌∷◌, ◌++◌, Option, none, arith, length,
  get_elem?-lt, update, u64,
}
use mathlib.Core.List.{append-nil}
use mathlib.Core.Path.{subst}
use native.Mathlib.Decide.{ℕ_discrete}
use shimmy.Config.{Config, IsRingConfig, backpressure}
use shimmy.Ring.{Ring, writing_seq}
use shimmy.Consumer.{publish_cursor, oldest}
use shimmy.System.{
  Reach, later, ReaderPc, polling, Consume, find_ok, find_empty, find_lapped, load_len, load_byte,
  validate_true, validate_false, commit, resync, at_next, add_got, consume,
}
use shimmy.System.Invariant.{ReaderOk, busy, next_of}
use shimmy.System.Moves.{publish_cursor-cursors, publish_cursor-Moves}
use shimmy.System.Reached.{SystemInv, Reach-Inv}
use shimmy.System.Reader.{never-lapsed}
use shimmy.StoreOrder.{Buffers, shows}
use shimmy.StoreOrder.Ahead.{Above, Ahead-up}
use shimmy.StoreOrder.Drained.{in_step}
use shimmy.StoreOrder.Tied.{IsRising, Tied, IsRising-snoc, IsRising-update}

module _ {c : Config} (v : IsRingConfig c) {n : ℕ}
    (few : c.overflow ≡ backpressure → n ≤ c.max_consumers) {s : Buffers}
    (short : length s.log < writing_seq) (t : Tied c n s) (i : ℕ) (lt : i < n) where
  abbrev ring : Ring
  ring = record s.memory { cursors = t.cursors }

  inv : SystemInv c n (in_step s.memory t.cursors t.from s.readers s.got s.log)
  inv = Reach-Inv v few t.follows short

  stands :
      {q q' : ReaderPc} {r' : Ring} {o : Option (ℕ × List ℕ)}
      → s.readers i ≡ q
      → Consume c i ring q r' q' o
      → Consume c i ring (s.readers i) r' q' o
  stands {q' = q'} {r'} {o} e step = subst (λ q. Consume c i ring q r' q' o) (sym e) step

  -- A step that stores nothing.
  quiet-Tied :
      {q : ReaderPc}
      → Consume c i ring (s.readers i) ring q none
      → Tied c n (record s {
        readers = update s.readers i q;
        shown = update s.shown i (s.shown i ++ []);
        got = update s.got i (s.got i);
      })
  quiet-Tied {q} step = record {
    cursors = t.cursors;
    from = t.from;
    follows = later t.follows (consume i lt step);
    used = t.used;
    rising = λ o.
        IsRising-update s.memory.cursors t.cursors s.shown i (s.shown i ++ [])
          (subst (λ l. IsRising (s.memory.cursors i).value l (t.cursors i).value)
            (sym (append-nil (s.shown i))) (t.rising o i))
          (λ j away. t.rising o j);
    ahead = t.ahead;
  }

  -- A step that ends in `publish_cursor`.
  store-Tied :
      (next : ℕ) {o : Option (ℕ × List ℕ)}
      → Consume c i ring (s.readers i) (publish_cursor c ring (at_next i next)) (polling next) o
      → (c.overflow ≡ backpressure → next_of (s.readers i) ≤ next)
      → Tied c n (record s {
        readers = update s.readers i (polling next);
        shown = update s.shown i (s.shown i ++ (next ∷ []));
        got = update s.got i (add_got o (s.got i));
      })
  store-Tied next {o} step up =
      let cursors = (publish_cursor c ring (at_next i next)).cursors in
      let moves = publish_cursor-Moves c ring i next (λ o. omega (arith, lt, few o)) in
      let above : Above c t.cursors cursors = record {
        used = moves.used;
        up = λ o j. elim (ℕ_discrete j i) [
          | yes same ↦ rw same (omega (arith, (inv.held o i lt).here, moves.here o, up o))
          | no away ↦ omega (arith, moves.other j away)
        ];
      } in
      record {
        cursors = cursors;
        from = t.from;
        follows =
            subst
              (λ r. Reach c n (record {
                ring = r;
                pc = t.from;
                readers = update s.readers i (polling next);
                got = update s.got i (add_got o (s.got i));
                log = s.log;
              }))
              (publish_cursor-cursors c ring i next) (later t.follows (consume i lt step));
        used = λ j. moves.used j ∙ t.used j;
        rising = λ o.
            IsRising-update s.memory.cursors cursors s.shown i (s.shown i ++ (next ∷ []))
              (rw (moves.here o) (
                IsRising-snoc (s.memory.cursors i).value (s.shown i) (t.cursors i).value next
                  (t.rising o i) (omega (arith, (inv.held o i lt).here, up o))))
              (λ j away.
                subst (λ high. IsRising (s.memory.cursors j).value (s.shown j) high)
                  (sym (moves.other j away)) (t.rising o j));
        ahead = Ahead-up above t.ahead;
      }

  -- A reader's step on memory is one on the interleaved ring, whose slots are the same.
  Consume-Tied_at :
      {q q' : ReaderPc} {r' : Ring} {o : Option (ℕ × List ℕ)}
      → s.readers i ≡ q
      → (step : Consume c i s.memory q r' q' o)
      → Tied c n (record s {
        readers = update s.readers i q';
        shown = update s.shown i (s.shown i ++ shows step);
        got = update s.got i (add_got o (s.got i));
      })
  Consume-Tied_at e (find_ok h) = quiet-Tied (stands e (find_ok h))
  Consume-Tied_at e (find_empty h) = quiet-Tied (stands e (find_empty h))
  Consume-Tied_at e (find_lapped h) = quiet-Tied (stands e (find_lapped h))
  Consume-Tied_at e load_len = quiet-Tied (stands e load_len)
  Consume-Tied_at e (load_byte h) = quiet-Tied (stands e (load_byte h))
  Consume-Tied_at e (validate_true h k) = quiet-Tied (stands e (validate_true h k))
  Consume-Tied_at e (validate_false h) = quiet-Tied (stands e (validate_false h))
  Consume-Tied_at e (commit {want} {bytes}) =
      let here = subst (λ q. ReaderOk c s.log (busy t.from) s.memory.slots q) e (inv.reader i) in
      let old = get_elem?-lt s.log want here in
      store-Tied (u64 (want + 1)) (stands e commit) (λ o. omega (arith, ap next_of e, old, short))
  Consume-Tied_at e (resync {next}) =
      store-Tied (oldest c s.memory.next_publish) (stands e resync)
        (λ o. absurd (never-lapsed v short inv i lt next e o))

  pub Consume-Tied :
      {q' : ReaderPc} {r' : Ring} {o : Option (ℕ × List ℕ)}
      (step : Consume c i s.memory (s.readers i) r' q' o)
      → Tied c n (record s {
        readers = update s.readers i q';
        shown = update s.shown i (s.shown i ++ shows step);
        got = update s.got i (add_got o (s.got i));
      })
  Consume-Tied step = Consume-Tied_at refl step

-- A reader's store reaches memory.
pub drain_cursor-Tied :
    {c : Config} {n : ℕ} {s : Buffers}
    → Tied c n s
    → (i : ℕ) {v : ℕ} {rest : List ℕ} → (c.overflow ≡ backpressure → i < c.max_consumers)
    → s.shown i ≡ v ∷ rest
    → Tied c n (record s {
      memory = publish_cursor c s.memory (at_next i v);
      shown = update s.shown i rest;
    })
drain_cursor-Tied {c} {n} {s} t i {v} {rest} mine e =
    let cursors = (publish_cursor c s.memory (at_next i v)).cursors in
    let moves = publish_cursor-Moves c s.memory i v mine in
    subst (λ m. Tied c n (record s { memory = m; shown = update s.shown i rest }))
      (sym (publish_cursor-cursors c s.memory i v))
      (record {
        cursors = t.cursors;
        from = t.from;
        follows = t.follows;
        used = λ j. t.used j ∙ sym (moves.used j);
        rising = λ o.
            IsRising-update cursors t.cursors s.shown i rest
              (rw (moves.here o)
                (subst (λ l. IsRising (s.memory.cursors i).value l (t.cursors i).value) e
                  (t.rising o i)).1)
              (λ j away.
                subst (λ low. IsRising low (s.shown j) (t.cursors j).value)
                  (sym (moves.other j away)) (t.rising o j));
        ahead = t.ahead;
      })
