-- ===== src/Membership/Reading.antt =====
-- A reader's step while consumers come and go: what it sees and commits is still right (`do_read`,
-- `validate`, `commit` and `resync` in include/shimmy/ring.hpp).
use shimmy.Common.{
  ℕ, ◌+◌, ◌≤◌, ◌<◌, ◌≡◌, inl, inr, refl, sym, ◌∙◌, true, List, [], ◌∷◌, ◌++◌, Option, some, arith,
  length, get_elem?, get_elem?-lt, get_elem?-some, take_all,
}
use mathlib.Core.Path.{subst}
use shimmy.Config.{Config, IsRingConfig, Overflow-cases, overwrite, backpressure}
use shimmy.Config.Index.{index-collide}
use shimmy.Ring.{Ring, slot_at, writing_seq}
use shimmy.Ring.Log.{Log, InFlux, Slots}
use shimmy.Consumer.{oldest}
use shimmy.System.{
  Pc, idle, scanning, comparing, marking, sizing, copying, advancing, ReaderPc, polling, holding,
  viewing, accepted, lapsed, Got, Consume, find_ok, find_empty, find_lapped, load_len, load_byte,
  validate_true, validate_false, commit, resync, add_got,
}
use shimmy.System.Invariant.{ReaderOk, InOrder, busy, next_of}
use shimmy.System.Reading.{find_ok-lt, find_lapped-gone, Views-load_len, Views-load_byte}
use shimmy.System.Moves.{InOrder-raise}
use shimmy.Membership.Invariant.{PlaceOk, ReadingOk, IsHeeded, reach, GaplessFrom}

-- Under Overwrite the slot that the producer is writing carries the marker.
marked :
    (c : Config) (log : Log) (r : Ring) (p : Pc)
    → busy p ≡ true
    → PlaceOk c log r p
    → c.overflow ≡ overwrite
    → (slot_at c r (length log)).seq ≡ writing_seq
marked c log r idle b v o = absurd (ground arith)
marked c log r (scanning seq m i) b v o = absurd (ground arith)
marked c log r (comparing seq m i) b v o = absurd (ground arith)
marked c log r (marking seq m) b v o = absurd (ground arith)
marked c log r (sizing seq m) b v o = subst (λ t. (slot_at c r t).seq ≡ writing_seq) v.0.0 (v.1 o)
marked c log r (copying seq m i) b v o =
    subst (λ t. (slot_at c r t).seq ≡ writing_seq) v.0.0 (v.1 o)
marked c log r (advancing seq) b v o = absurd (ground arith)

-- The count that consumers see is that of the stamped messages, or one less.
pub count-le :
    (c : Config) (log : Log) (r : Ring) (p : Pc)
    → PlaceOk c log r p
    → (r.next_publish ≤ length log) × (length log ≤ r.next_publish + 1)
count-le c log r idle v = omega (arith, v)
count-le c log r (scanning seq m i) v = omega (arith, v.0.1)
count-le c log r (comparing seq m i) v = omega (arith, v.0.1)
count-le c log r (marking seq m) v = omega (arith, v.0.1)
count-le c log r (sizing seq m) v = omega (arith, v.0.1)
count-le c log r (copying seq m i) v = omega (arith, v.0.1)
count-le c log r (advancing seq) v = omega (arith, v.0, v.1)

pub reach-le :
    (p : Pc) (log : Log) (id : ℕ)
    → (length log ≤ reach p log id) × (reach p log id ≤ length log + 1)
reach-le idle log id = omega arith
reach-le (scanning seq m i) log id = ground arith
reach-le (comparing seq m i) log id = ground arith
reach-le (marking seq m) log id = omega arith
reach-le (sizing seq m) log id = omega arith
reach-le (copying seq m i) log id = omega arith
reach-le (advancing seq) log id = omega arith

pub reach-busy : (p : Pc) (log : Log) (id : ℕ) → busy p ≡ true → reach p log id ≡ length log + 1
reach-busy idle log id b = absurd (ground arith)
reach-busy (scanning seq m i) log id b = absurd (ground arith)
reach-busy (comparing seq m i) log id b = absurd (ground arith)
reach-busy (marking seq m) log id b = refl
reach-busy (sizing seq m) log id b = refl
reach-busy (copying seq m i) log id b = refl
reach-busy (advancing seq) log id b = absurd (ground arith)

-- What holds of a reader after its step, but for its cursor.
pub record Advanced (c : Config) (log : Log) (r : Ring) (p : Pc) (base : ℕ) (q q' : ReaderPc)
    (g' : Got) : Type 0 where
  pub up : next_of q ≤ next_of q'
  pub reader : ReaderOk c log (busy p) r.slots q'
  pub ordered : InOrder log (next_of q') g'
  pub complete : c.overflow ≡ backpressure → GaplessFrom log base (next_of q') g'

module _ {c : Config} (v : IsRingConfig c) {r : Ring} {p : Pc} {log : Log}
    (short : length log < writing_seq) (slots : Slots c log (busy p) r.slots)
    (place : PlaceOk c log r p) {id base : ℕ} (heeded : IsHeeded c id) where
  -- A slot that still has the reader's stamp is not being written.
  steady :
      {q : ReaderPc} {g : Got}
      → ReadingOk c log r p id base q g
      → next_of q < length log
      → (slot_at c r (next_of q)).seq ≡ next_of q
      → InFlux c log (busy p) (next_of q)
      → ⊥
  steady {q} k old here (same, b) = elim (Overflow-cases c.overflow) [
    | inl o ↦ ground (arith, marked c log r p b place o)
    | inr o ↦ omega (
      arith,
      (k.paced o (heeded o)).1,
      reach-busy p log id b,
      index-collide v (next_of q) (length log) same old,
    )
  ]

  -- What `validate` accepts is the message.
  pub accepted-message :
      {want len : ℕ} {bytes : List ℕ} {g : Got}
      → ReadingOk c log r p id base (viewing want len bytes) g
      → length bytes ≡ len
      → (slot_at c r want).seq ≡ want
      → get_elem? log want ≡ some bytes
  accepted-message {want} {len} {bytes} k all here =
      let (m, e) = get_elem?-some log want k.reader.0 in
      elim (k.reader.1 here) [
        | inl flux ↦ absurd (steady k k.reader.0 here flux)
        | inr prefix ↦
            let (len_is, le, is) = prefix m e in
            subst (λ t. get_elem? log want ≡ some t)
              (sym (is ∙ take_all (length bytes) m (omega arith))) e
      ]

  -- Under Backpressure nobody is lapsed.
  pub unlapsed :
      {q : ReaderPc} {g : Got}
      → ReadingOk c log r p id base q g
      → c.overflow ≡ backpressure
      → length log ≤ next_of q + c.capacity
  unlapsed k o = omega (arith, (k.paced o (heeded o)).1, reach-le p log id)

  Advanced-stay :
      {q : ReaderPc} (q' : ReaderPc) {g : Got}
      → ReadingOk c log r p id base q g
      → next_of q ≡ next_of q'
      → ReaderOk c log (busy p) r.slots q'
      → Advanced c log r p base q q' g
  Advanced-stay q' {g} k e ok = record {
    up = omega (arith, e);
    reader = ok;
    ordered = subst (λ t. InOrder log t g) e k.ordered;
    complete = λ o. subst (λ t. GaplessFrom log base t g) e (k.complete o);
  }

  pub Consume-Advanced :
      {q q' : ReaderPc} {g : Got} {r' : Ring} {o : Option (ℕ × List ℕ)}
      → ReadingOk c log r p id base q g
      → Consume c id r q r' q' o
      → Advanced c log r p base q q' (add_got o g)
  Consume-Advanced k (find_ok {next} h) =
      Advanced-stay (holding next) k refl (find_ok-lt v short slots next k.reader h)
  Consume-Advanced k (find_empty {next} h) = Advanced-stay (polling next) k refl k.reader
  Consume-Advanced k (find_lapped {next} h) =
      Advanced-stay (lapsed next) k refl (find_lapped-gone v short slots next h)
  Consume-Advanced k (load_len {want}) =
      Advanced-stay (viewing want (slot_at c r want).len []) k refl
        (k.reader, Views-load_len v short slots want k.reader)
  Consume-Advanced k (load_byte {want} {len} {bytes} more) =
      Advanced-stay (viewing want len (bytes ++ ((slot_at c r want).payload (length bytes) ∷ []))) k
        refl (k.reader.0, Views-load_byte v short slots want len bytes k.reader.0 more k.reader.1)
  Consume-Advanced k (validate_true {want} {len} {bytes} all here) =
      Advanced-stay (accepted want bytes) k refl (accepted-message k all here)
  Consume-Advanced k (validate_false {want} {len} {bytes} gone) =
      Advanced-stay (polling want) k refl (omega (arith, k.reader.0))
  Consume-Advanced k (commit {want} {bytes}) =
      let old = get_elem?-lt log want k.reader in
      record {
        up = omega arith;
        reader = omega arith;
        ordered = (omega arith, k.reader, k.ordered);
        complete = λ o. (omega arith, k.reader, k.complete o);
      }
  Consume-Advanced {g = g} k (resync {next}) =
      let (le, ge) = count-le c log r p place in
      let raised : next ≤ oldest c r.next_publish = ground (arith, k.reader) in
      record {
        up = raised;
        reader = ground arith;
        ordered = InOrder-raise log next (oldest c r.next_publish) g raised k.ordered;
        complete = λ o. absurd (omega (arith, unlapsed k o, k.reader));
      }
