-- ===== src/Membership/Buffers.antt =====
-- Consumers of include/shimmy/ring.hpp and include/shimmy/shm_segment.hpp that come and go on x86-64: the
-- stores of `register_consumer`, `seek`, `commit`, `resync` and `unregister_consumer` wait in the
-- store buffer of their thread, and so do those of `publish`. A compare-exchange is locked: it drains
-- the buffer first and goes to memory.
use shimmy.Common.{
  ℕ, ◌≡◌, Bool, true, false, List, [], ◌∷◌, ◌++◌, Option, ltb, if◌then◌else◌, update, u64, ◌+◌,
  max_u64,
}
use shimmy.Config.{Config, Overflow, overwrite, backpressure}
use shimmy.Ring.{Ring, init}
use shimmy.Ring.Log.{Log}
use shimmy.Ring.Seats.{store_in_use, store_value}
use shimmy.Consumer.{oldest}
use shimmy.System.{
  Pc, idle, ReaderPc, Consume, find_ok, find_empty, find_lapped, load_len, load_byte, validate_true,
  validate_false, commit, resync, Got,
}
use shimmy.StoreOrder.{Store, apply, log_after, view, Look, Emit}
use shimmy.Membership.{
  Member, outside, Attend, construct_free, construct, exchange, refused, turn_away, start, look,
  seek, begin_at_zero, read, dismiss_free, dismiss, destroy_free, destroy, release, with_cursors,
}

-- A store to a cursor.
pub data CursorStore : Type 0 where
  value_store : (id v : ℕ) → CursorStore
  in_use_store : (id : ℕ) (b : Bool) → CursorStore

abbrev pub apply_cursor : CursorStore → Ring → Ring
apply_cursor (value_store id v) r = with_cursors r (store_value r.cursors id v)
apply_cursor (in_use_store id b) r = with_cursors r (store_in_use r.cursors id b)

-- What `publish_cursor` stores.
abbrev shown_for : Overflow → Config → ℕ → ℕ → List CursorStore
shown_for overwrite c id v = []
shown_for backpressure c id v = if ltb id c.max_consumers then value_store id v ∷ [] else []

abbrev shown_by :
    {c : Config} {id : ℕ} {r r' : Ring} {q q' : ReaderPc} {o : Option (ℕ × List ℕ)}
    → Consume c id r q r' q' o
    → List CursorStore
shown_by (find_ok h) = []
shown_by (find_empty h) = []
shown_by (find_lapped h) = []
shown_by load_len = []
shown_by (load_byte h) = []
shown_by (validate_true h k) = []
shown_by (validate_false h) = []
shown_by {c} {id} (commit {want}) = shown_for c.overflow c id (u64 (want + 1))
shown_by {c} {id} {r = r} resync = shown_for c.overflow c id (oldest c r.next_publish)

-- The stores of a consumer's step that go through its buffer.
abbrev pub attend_stores :
    {c : Config} {r r' : Ring} {log : Log} {m m' : Member} {g g' : Got}
    → Attend c r log m g r' m' g'
    → List CursorStore
attend_stores (construct_free o) = []
attend_stores (construct o) = []
attend_stores (exchange h free) = []
attend_stores (refused h used) = []
attend_stores (turn_away full) = []
attend_stores (start {id}) = value_store id 0 ∷ []
attend_stores look = []
attend_stores {c} (seek {id} {cur}) = shown_for c.overflow c id cur
attend_stores (begin_at_zero early) = []
attend_stores (read step) = shown_by step
attend_stores (dismiss_free e) = []
attend_stores (dismiss {id} h) = value_store id max_u64 ∷ []
attend_stores (destroy_free e) = []
attend_stores (destroy {id} h) = value_store id max_u64 ∷ []
attend_stores (release {id}) = in_use_store id false ∷ []

-- Whether the step is a compare-exchange.
abbrev pub is_locked :
    {c : Config} {r r' : Ring} {log : Log} {m m' : Member} {g g' : Got}
    → Attend c r log m g r' m' g'
    → Bool
is_locked (exchange h free) = true
is_locked (refused h used) = true
is_locked _ = false

pub record Assembly : Type 0 where
  pub memory : Ring
  pub pending : List Store
  pub pc : Pc
  pub members : ℕ → Member
  pub shown : ℕ → List CursorStore
  pub got : ℕ → Got
  pub log : Log

pub data Occur (c : Config) (s : Assembly) : Assembly → Type 0 where
  look_at : {p : Pc} → Look c (view c s.pending s.memory) s.pc p → Occur c s (record s { pc = p })
  emit :
      {st : Store} {p : Pc}
      → Emit s.pc st p
      → Occur c s (record s { pending = s.pending ++ (st ∷ []); pc = p })
  drain :
      {st : Store} {rest : List Store}
      → s.pending ≡ st ∷ rest
      → Occur c s
          (record s { memory = apply c st s.memory; pending = rest; log = log_after st s.log })
  attend :
      (i : ℕ) {r : Ring} {m : Member} {g : Got}
      → (step : Attend c s.memory s.log (s.members i) (s.got i) r m g)
      → (is_locked step ≡ true → s.shown i ≡ [])
      → Occur c s (record s {
        memory = if is_locked step then r else s.memory;
        members = update s.members i m;
        shown = update s.shown i (s.shown i ++ attend_stores step);
        got = update s.got i g;
      })
  drain_cursor :
      (i : ℕ) {st : CursorStore} {rest : List CursorStore}
      → s.shown i ≡ st ∷ rest
      → Occur c s (record s { memory = apply_cursor st s.memory; shown = update s.shown i rest })

-- After `init`, with nobody there.
abbrev pub deserted : Config → Ring → Assembly
deserted c region = record {
  memory = init c region;
  pending = [];
  pc = idle;
  members = λ _. outside;
  shown = λ _. [];
  got = λ _. [];
  log = [];
}

pub data Occurs (c : Config) : Assembly → Type 0 where
  begin : (region : Ring) → Occurs c (deserted c region)
  later : {s t : Assembly} → Occurs c s → Occur c s t → Occurs c t
