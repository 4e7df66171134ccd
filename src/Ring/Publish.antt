-- ===== src/Ring/Publish.antt =====
-- `init` and `publish` of include/shimmy/ring.hpp, called with no other access in between: what
-- they leave in the slots, on every branch.
use shimmy.Common.{
  ℕ, zero, suc, ◌+◌, ◌≤◌, ◌<◌, ◌≡◌, ◌⊎◌, inl, inr, refl, ◌∙◌, true, false, if◌then◌else◌, ltb, List,
  [], ◌∷◌, ◌++◌, some, arith, length, get_elem?, take, length-take, get_elem?-take_inv, length-snoc,
}
use native.Mathlib.Nat.{add-zero, zero-add}
use shimmy.Config.{Config, IsRingConfig, Overflow, overwrite, backpressure}
use shimmy.Config.Index.{index-lt}
use shimmy.Ring.{
  Ring, init, slot_at, store_byte, store_len, store_seq, mark_for, advance, copy_in, write_slot,
  writing_seq,
}
use shimmy.Ring.Log.{Log, Carries, Slots, Slots-touch, Slots-publish, Slots-busy}

-- A ring that nobody is writing, after the messages of `log`.
pub record Logs (c : Config) (log : Log) (r : Ring) : Type 0 where
  pub counted : r.next_publish ≡ length log
  pub slots : Slots c log false r.slots

-- Under the static assertions of `Ring`, `init` leaves a ring at rest in which nothing has been
-- published, whatever the region held before: the count is 0 and every slot that a sequence number
-- can reach carries the empty stamp.
pub init-Logs : {c : Config} (r : Ring) → IsRingConfig c → Logs c [] (init c r)
unfolding init
init-Logs {c} r v = record {
  counted = refl;
  slots = record {
    floor = λ s h. absurd (omega arith);
    ceil = λ s. ground (arith, index-lt v s);
    home = λ s h. absurd (ground (arith, index-lt v s));
    content = λ s m e h. ground arith;
  };
}

add_shift : (i j : ℕ) → i + 1 + j ≡ i + suc j
add_shift i j = omega arith

-- What `memcpy` has done to the ring, `n` bytes of `bytes` from byte `i` on.
record Copied (c : Config) (log : Log) (r : Ring) (i : ℕ) (bytes : List ℕ) (n : ℕ) (r' : Ring)
    : Type 0 where
  rest_kept : (r'.cursors ≡ r.cursors) × (r'.waiters ≡ r.waiters)
  stamp_kept : (slot_at c r' (length log)).seq ≡ (slot_at c r (length log)).seq
  len_kept : (slot_at c r' (length log)).len ≡ (slot_at c r (length log)).len
  before :
      (j : ℕ) → j < i → (slot_at c r' (length log)).payload j ≡ (slot_at c r (length log)).payload j
  filled :
      (j b : ℕ)
      → j < n
      → get_elem? bytes j ≡ some b
      → (slot_at c r' (length log)).payload (i + j) ≡ b
  slots : Slots c log true r'.slots

module _ {c : Config} {log : Log} (r : Ring) {r' : Ring} (i x : ℕ) {n : ℕ} {bytes : List ℕ}
    (rest : Copied c log (store_byte c r (length log) i x) (i + 1) bytes n r') where
  cons-filled :
      (j b : ℕ)
      → j < suc n
      → get_elem? (x ∷ bytes) j ≡ some b
      → (slot_at c r' (length log)).payload (i + j) ≡ b
  cons-filled zero b h e = rw add-zero (ground (arith, rest.before i))
  cons-filled (suc j) b h e = rw (← add_shift i j) (rest.filled j b (omega arith) e)

  -- One byte, and then the rest.
  Copied-cons : Copied c log r i (x ∷ bytes) (suc n) r'
  Copied-cons = record {
    rest_kept = rest.rest_kept;
    stamp_kept = ground (arith, rest.stamp_kept);
    len_kept = ground (arith, rest.len_kept);
    before = λ j h. ground (arith, rest.before j);
    filled = cons-filled;
    slots = rest.slots;
  }

module _ {c : Config} {log : Log} where
  Copied-none :
      (r : Ring) (i : ℕ) (bytes : List ℕ) (n : ℕ)
      → (n ≡ 0) ⊎ (bytes ≡ [])
      → Slots c log true r.slots
      → Copied c log r i bytes n r
  Copied-none r i bytes n e v = record {
    rest_kept = (refl, refl);
    stamp_kept = refl;
    len_kept = refl;
    before = λ j h. refl;
    filled = λ j b h q. ground arith;
    slots = v;
  }

mark_for_kept :
    (o : Overflow) (c : Config) (r : Ring) (seq : ℕ)
    → ((mark_for o c r seq).cursors ≡ r.cursors) × ((mark_for o c r seq).waiters ≡ r.waiters)
mark_for_kept overwrite c r seq = (refl, refl)
mark_for_kept backpressure c r seq = (refl, refl)

fill-eq-copy_in :
    (c : Config) (r : Ring) (seq : ℕ) (bytes : List ℕ) (n : ℕ)
    → (if ltb 0 n then copy_in c r seq 0 bytes n else r) ≡ copy_in c r seq 0 bytes n
unfolding copy_in
fill-eq-copy_in c r seq bytes zero = refl
fill-eq-copy_in c r seq bytes (suc n) = ground arith

module _ {c : Config} {log : Log} (short : length log < writing_seq) where
  copy_in-Copied :
      (r : Ring) (i : ℕ) (bytes : List ℕ) (n : ℕ)
      → Slots c log true r.slots
      → Copied c log r i bytes n (copy_in c r (length log) i bytes n)
  unfolding copy_in
  copy_in-Copied r i bytes zero v = Copied-none r i bytes zero (inl refl) v
  copy_in-Copied r i [] (suc n) v = Copied-none r i [] (suc n) (inr refl) v
  copy_in-Copied r i (x ∷ bytes) (suc n) v = Copied-cons r i x (
      copy_in-Copied (store_byte c r (length log) i x) (i + 1) bytes n
        (Slots-touch short true _ v (inr refl)))

  pub mark_for-Slots :
      (o : Overflow) (r : Ring)
      → Slots c log false r.slots
      → Slots c log true (mark_for o c r (length log)).slots
  mark_for-Slots overwrite r v = Slots-touch short false _ v (inl refl)
  mark_for-Slots backpressure r v = Slots-busy v

  -- The slot after `memcpy` carries the message.
  Copied-Carries :
      (r : Ring) {r' : Ring} (bytes : List ℕ) (len : ℕ)
      → (slot_at c r (length log)).len ≡ len
      → len ≤ length bytes
      → Copied c log r 0 bytes len r'
      → Carries (record (slot_at c r' (length log)) { seq = length log }) (take len bytes)
  Copied-Carries r bytes len e h k = record {
    sized = omega (arith, k.len_kept, length-take len bytes);
    filled = λ j b q.
        let (lt, at) = get_elem?-take_inv len bytes j q in rw (← zero-add j) (k.filled j b lt at);
  }

  finish-Logs :
      (r : Ring) {r' : Ring} (bytes : List ℕ) (len : ℕ)
      → (slot_at c r (length log)).len ≡ len
      → len ≤ length bytes
      → Copied c log r 0 bytes len r'
      → Logs c
          (log ++ (take len bytes ∷ []))
          (advance (store_seq c r' (length log) (length log)) (length log))
  finish-Logs r bytes len e h k = record {
    counted = omega (arith, length-snoc log (take len bytes));
    slots = Slots-publish short k.slots _ (take len bytes) refl (Copied-Carries r bytes len e h k);
  }

  -- The stores of `publish` add the message of `len` bytes to the log.
  pub write_slot-Logs :
      (r : Ring) (bytes : List ℕ) (len : ℕ)
      → Slots c log false r.slots
      → len ≤ length bytes
      → Logs c (log ++ (take len bytes ∷ [])) (write_slot c r (length log) bytes len)
  unfolding write_slot
  write_slot-Logs r bytes len v h =
      let marked = mark_for c.overflow c r (length log) in
      let sized = store_len c marked (length log) len in
      let busy = Slots-touch short true _ (mark_for-Slots c.overflow r v) (inr refl) in
      rw (fill-eq-copy_in c sized (length log) bytes len)
        (finish-Logs sized bytes len (ground arith) h (copy_in-Copied sized 0 bytes len busy))

  -- They leave the cursors and the waiter count alone.
  pub write_slot_kept :
      (r : Ring) (bytes : List ℕ) (len : ℕ)
      → Slots c log false r.slots
      → ((write_slot c r (length log) bytes len).cursors ≡ r.cursors)
        × ((write_slot c r (length log) bytes len).waiters ≡ r.waiters)
  unfolding write_slot
  write_slot_kept r bytes len v =
      let marked = mark_for c.overflow c r (length log) in
      let sized = store_len c marked (length log) len in
      let busy = Slots-touch short true _ (mark_for-Slots c.overflow r v) (inr refl) in
      let (cursors, waiters) = (copy_in-Copied sized 0 bytes len busy).rest_kept in
      let (cursors', waiters') = mark_for_kept c.overflow c r (length log) in
      rw (fill-eq-copy_in c sized (length log) bytes len) (cursors ∙ cursors', waiters ∙ waiters')
