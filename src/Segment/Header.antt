-- ===== src/Segment/Header.antt =====
-- `validate_header` and `construct_ring_and_publish_header` of include/shimmy/shm_segment.hpp:
-- which segments an opener accepts.
use shimmy.Common.{
  ℕ, zero, suc, ◌≤◌, ◌<◌, ◌≡◌, ◌≢◌, ◌↔◌, refl, sym, ap, Option, none, some, List, [], ◌∷◌, take,
  take-append, ltb, if◌then◌else◌, u32, arith,
}
use mathlib.Core.Path.{subst}
use shimmy.Config.{Overflow, overwrite, backpressure}
use shimmy.Ring.{Ring}
use shimmy.Segment.{
  Layout, SegmentHeader, Refusal, file_too_small, check_eq, validate_header, construct,
  header_stores, store_all, zero_header, magic_number, current_version, state_ready,
  state_initializing, policy_id_of, ring_offset, segment_bytes, align_up, header_sizeof,
}

-- Every recorded field is this build's, and the file holds the whole segment.
pub record Matches (l : Layout) (file_size : ℕ) (hdr : SegmentHeader) : Type 0 where
  pub same_magic : hdr.magic ≡ magic_number
  pub same_version : hdr.version ≡ current_version
  pub ready : hdr.state ≡ state_ready
  pub same_block_size : hdr.block_size ≡ l.config.block_size
  pub same_capacity : hdr.capacity ≡ l.config.capacity
  pub same_policy : hdr.policy ≡ policy_id_of l.config.overflow
  pub same_max_consumers : hdr.max_consumers ≡ u32 l.config.max_consumers
  pub same_ring_sizeof : hdr.ring_sizeof ≡ l.ring_sizeof
  pub same_ring_alignof : hdr.ring_alignof ≡ l.ring_alignof
  pub same_slot_sizeof : hdr.slot_sizeof ≡ l.slot_sizeof
  pub same_header_bytes : hdr.header_bytes ≡ u32 (ring_offset l)
  pub large : segment_bytes l ≤ file_size

check_eq_inv :
    (why : Refusal) (have want : ℕ) (rest : Option Refusal)
    → check_eq why have want rest ≡ none
    → (have ≡ want) × (rest ≡ none)
check_eq_inv why have want rest h = ground arith

check_eq_same :
    (why : Refusal) {have want : ℕ} {rest : Option Refusal}
    → have ≡ want
    → rest ≡ none
    → check_eq why have want rest ≡ none
check_eq_same why e h = ground arith

large_inv :
    (size need : ℕ) → (if ltb size need then some file_too_small else none) ≡ none → need ≤ size
large_inv size need h = ground arith

large_same :
    {size need : ℕ} → need ≤ size → (if ltb size need then some file_too_small else none) ≡ none
large_same h = ground arith

module _ (l : Layout) (file_size : ℕ) where
  validate_header_inv :
      (hdr : SegmentHeader) → validate_header l file_size hdr ≡ none → Matches l file_size hdr
  unfolding validate_header
  validate_header_inv hdr h =
      let (magic, h1) = check_eq_inv _ _ _ _ h in
      let (version, h2) = check_eq_inv _ _ _ _ h1 in
      let (state, h3) = check_eq_inv _ _ _ _ h2 in
      let (block, h4) = check_eq_inv _ _ _ _ h3 in
      let (capacity, h5) = check_eq_inv _ _ _ _ h4 in
      let (policy, h6) = check_eq_inv _ _ _ _ h5 in
      let (consumers, h7) = check_eq_inv _ _ _ _ h6 in
      let (ring, h8) = check_eq_inv _ _ _ _ h7 in
      let (align, h9) = check_eq_inv _ _ _ _ h8 in
      let (slot, h10) = check_eq_inv _ _ _ _ h9 in
      let (bytes, h11) = check_eq_inv _ _ _ _ h10 in
      record {
        same_magic = magic;
        same_version = version;
        ready = state;
        same_block_size = block;
        same_capacity = capacity;
        same_policy = policy;
        same_max_consumers = consumers;
        same_ring_sizeof = ring;
        same_ring_alignof = align;
        same_slot_sizeof = slot;
        same_header_bytes = bytes;
        large = large_inv file_size _ h11;
      }

  validate_header_same :
      (hdr : SegmentHeader) → Matches l file_size hdr → validate_header l file_size hdr ≡ none
  unfolding validate_header
  validate_header_same hdr m = check_eq_same _ m.same_magic (
      check_eq_same _ m.same_version (
        check_eq_same _ m.ready (
          check_eq_same _ m.same_block_size (
            check_eq_same _ m.same_capacity (
              check_eq_same _ m.same_policy (
                check_eq_same _ m.same_max_consumers (
                  check_eq_same _ m.same_ring_sizeof (
                    check_eq_same _ m.same_ring_alignof (
                      check_eq_same _ m.same_slot_sizeof
                        (check_eq_same _ m.same_header_bytes (large_same m.large)))))))))))

  pub validate_header-Matches :
      (hdr : SegmentHeader) → (validate_header l file_size hdr ≡ none) ↔ Matches l file_size hdr
  validate_header-Matches hdr = (validate_header_inv hdr, validate_header_same hdr)

-- Two instantiations that read the same bytes the same way.
pub record Agrees (l l' : Layout) : Type 0 where
  pub block_size : l.config.block_size ≡ l'.config.block_size
  pub capacity : l.config.capacity ≡ l'.config.capacity
  pub overflow : l.config.overflow ≡ l'.config.overflow
  pub max_consumers : u32 l.config.max_consumers ≡ u32 l'.config.max_consumers
  pub ring_sizeof : l.ring_sizeof ≡ l'.ring_sizeof
  pub ring_alignof : l.ring_alignof ≡ l'.ring_alignof
  pub slot_sizeof : l.slot_sizeof ≡ l'.slot_sizeof

policy_id_of-injective : (o o' : Overflow) → policy_id_of o ≡ policy_id_of o' → o ≡ o'
policy_id_of-injective overwrite overwrite e = refl
policy_id_of-injective overwrite backpressure e = absurd (omega (arith, e))
policy_id_of-injective backpressure overwrite e = absurd (omega (arith, e))
policy_id_of-injective backpressure backpressure e = refl

module _ (l l' : Layout) (file_size : ℕ) (region : Ring) where
  -- An opener accepts the header that a creator has published exactly when the two instantiations
  -- agree in block size, capacity, overflow policy, max_consumers as a 32-bit number, and in the
  -- size and alignment of the ring and the size of a slot, and the file holds the opener's whole
  -- segment.
  pub validate_header-construct :
      (validate_header l' file_size (construct l region).0 ≡ none)
      ↔ (Agrees l l' × (segment_bytes l' ≤ file_size))
  unfolding construct header_stores ring_offset
  validate_header-construct = (
    λ h.
        let m = validate_header_inv l' file_size _ h in
        (
          record {
            block_size = m.same_block_size;
            capacity = m.same_capacity;
            overflow = policy_id_of-injective _ _ m.same_policy;
            max_consumers = m.same_max_consumers;
            ring_sizeof = m.same_ring_sizeof;
            ring_alignof = m.same_ring_alignof;
            slot_sizeof = m.same_slot_sizeof;
          },
          m.large,
        ),
    λ (a, large). validate_header_same l' file_size _ (record {
      same_magic = refl;
      same_version = refl;
      ready = refl;
      same_block_size = a.block_size;
      same_capacity = a.capacity;
      same_policy = ap policy_id_of a.overflow;
      same_max_consumers = a.max_consumers;
      same_ring_sizeof = a.ring_sizeof;
      same_ring_alignof = a.ring_alignof;
      same_slot_sizeof = a.slot_sizeof;
      same_header_bytes = ap (λ (t : ℕ). u32 (align_up header_sizeof t)) a.ring_alignof;
      large = large;
    }),
  )

-- Stores that do not make a header ready.
abbrev IsQuiet : List (SegmentHeader → SegmentHeader) → Type 0
IsQuiet [] = Unit {0}
IsQuiet (store ∷ stores) =
    ((h : SegmentHeader) → h.state ≡ state_initializing → (store h).state ≡ state_initializing)
    × IsQuiet stores

take-IsQuiet :
    (k : ℕ) (stores : List (SegmentHeader → SegmentHeader)) (h : SegmentHeader)
    → IsQuiet stores
    → h.state ≡ state_initializing
    → (store_all h (take k stores)).state ≡ state_initializing
take-IsQuiet zero stores h q e = e
take-IsQuiet (suc k) [] h q e = e
take-IsQuiet (suc k) (store ∷ stores) h q e = take-IsQuiet k stores (store h) q.1 (q.0 h e)

-- The state field before the last store.
header_stores-state :
    (l : Layout) (k : ℕ)
    → k < 12
    → (store_all zero_header (take k (header_stores l))).state ≡ state_initializing
unfolding header_stores
header_stores-state l k h =
    subst (λ t. (store_all zero_header t).state ≡ state_initializing)
      (sym (take-append k (take 11 (header_stores l)) _ (omega (arith, h))))
      (take-IsQuiet k (take 11 (header_stores l)) zero_header
        ((
          λ h e. e,
          (
            λ h e. e,
            (
              λ h e. e,
              (
                λ h e. e,
                (
                  λ h e. e,
                  (λ h e. e, (λ h e. e, (λ h e. e, (λ h e. e, (λ h e. e, (λ h e. refl, tt)))))),
                ),
              ),
            ),
          ),
        ))
        refl)

-- After any of the creator's header stores but the last, in program order from a cleared header,
-- every opener refuses the segment, whatever its instantiation and the size of the file.
pub validate_header-header_stores :
    (l l' : Layout) (file_size k : ℕ)
    → k < 12
    → validate_header l' file_size (store_all zero_header (take k (header_stores l))) ≢ none
validate_header-header_stores l l' file_size k h e =
    omega (arith, header_stores-state l k h, (validate_header_inv l' file_size _ e).ready)
