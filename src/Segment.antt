-- ===== src/Segment.antt =====
-- `ShmSegment` of include/shimmy/shm_segment.hpp: the header, the layout, and the factories and
-- teardown as functions that return the system calls they make. What the system answers is given
-- as `Answers`; the layout of the ring in memory, which the compiler chooses, as `Layout`.
pub mod Align
pub mod Header
pub mod Factory
pub mod Resources
pub mod Torn
pub mod Teardown
pub mod Attach
pub mod Messages
mod Tests
use shimmy.Common.{
  ℕ, zero, suc, ◌+◌, ◌-◌, ◌*◌, ◌^◌, ◌≤◌, ◌≡◌, bit_and, Bool, true, false, not, ◌&&◌, List, [], ◌∷◌,
  ◌++◌, Option, none, some, ltb, leb, ◌==◌, if◌then◌else◌, u32, u64, max_u64,
}
use shimmy.Config.{Config, Overflow, overwrite, backpressure}
use shimmy.Ring.{Ring, init}

-- `policy_id`
abbrev pub policy_id_of : Overflow → ℕ
policy_id_of overwrite = 1
policy_id_of backpressure = 2

-- `SegmentHeader`, without its padding field `reserved`, which nothing reads.
pub record SegmentHeader : Type 0 where
  pub magic : ℕ
  pub version : ℕ
  pub header_bytes : ℕ
  pub block_size : ℕ
  pub capacity : ℕ
  pub policy : ℕ
  pub max_consumers : ℕ
  pub ring_sizeof : ℕ
  pub ring_alignof : ℕ
  pub slot_sizeof : ℕ
  pub state : ℕ

abbrev pub magic_number : ℕ
magic_number = 6001127099830205953

abbrev pub current_version : ℕ
current_version = 1

abbrev pub state_initializing : ℕ
state_initializing = 0

abbrev pub state_ready : ℕ
state_ready = 1380271193

-- `sizeof(SegmentHeader)`
abbrev pub header_sizeof : ℕ
header_sizeof = 72

-- A `Ring` instantiation, with its sizes.
pub record Layout : Type 0 where
  pub config : Config
  pub ring_sizeof : ℕ
  pub ring_alignof : ℕ
  pub slot_sizeof : ℕ

-- `align_up`, on 64-bit sizes.
unfoldable pub align_up : ℕ → ℕ → ℕ
align_up v align = bit_and (u64 (v + (align - 1))) (max_u64 - (align - 1))

unfoldable pub ring_offset : Layout → ℕ
unfolding align_up
ring_offset l = align_up header_sizeof l.ring_alignof

unfoldable pub segment_bytes : Layout → ℕ
unfolding ring_offset
segment_bytes l = u64 (ring_offset l + l.ring_sizeof)

-- Why an opener refuses a segment: `shm_layout_error`, with the field that `check_eq` names.
pub data Refusal : Type 0 where
  header_too_small bad_magic version_mismatch not_ready : Refusal
  block_size_differs capacity_differs policy_differs max_consumers_differs : Refusal
  ring_sizeof_differs ring_alignof_differs slot_sizeof_differs header_bytes_differs : Refusal
  file_too_small : Refusal

-- `check_eq`: throws if the values differ, and otherwise the checks go on.
abbrev pub check_eq : Refusal → ℕ → ℕ → Option Refusal → Option Refusal
check_eq why have want rest = if have == want then rest else some why

-- `validate_header` on the header that is mapped: the exception that it throws, if any.
unfoldable pub validate_header : Layout → ℕ → SegmentHeader → Option Refusal
unfolding ring_offset segment_bytes
validate_header l file_size hdr = check_eq bad_magic hdr.magic magic_number (
    check_eq version_mismatch hdr.version current_version (
      check_eq not_ready hdr.state state_ready (
        check_eq block_size_differs hdr.block_size l.config.block_size (
          check_eq capacity_differs hdr.capacity l.config.capacity (
            check_eq policy_differs hdr.policy (policy_id_of l.config.overflow) (
              check_eq max_consumers_differs hdr.max_consumers (u32 l.config.max_consumers) (
                check_eq ring_sizeof_differs hdr.ring_sizeof l.ring_sizeof (
                  check_eq ring_alignof_differs hdr.ring_alignof l.ring_alignof (
                    check_eq slot_sizeof_differs hdr.slot_sizeof l.slot_sizeof (
                      check_eq header_bytes_differs hdr.header_bytes (u32 (ring_offset l)) (
                        if ltb file_size (segment_bytes l)
                        then some file_too_small
                        else none)))))))))))

-- `std::memset` of the header.
abbrev pub zero_header : SegmentHeader
zero_header = record {
  magic = 0;
  version = 0;
  header_bytes = 0;
  block_size = 0;
  capacity = 0;
  policy = 0;
  max_consumers = 0;
  ring_sizeof = 0;
  ring_alignof = 0;
  slot_sizeof = 0;
  state = 0;
}

-- The stores of `construct_ring_and_publish_header` to the header, in its order. The ring is
-- constructed before the last of them.
unfoldable pub header_stores : Layout → List (SegmentHeader → SegmentHeader)
unfolding ring_offset
header_stores l =
    (λ h. record h { magic = magic_number })
    ∷ (λ h. record h { version = current_version })
    ∷ (λ h. record h { header_bytes = u32 (ring_offset l) })
    ∷ (λ h. record h { block_size = l.config.block_size })
    ∷ (λ h. record h { capacity = l.config.capacity })
    ∷ (λ h. record h { policy = policy_id_of l.config.overflow })
    ∷ (λ h. record h { max_consumers = u32 l.config.max_consumers })
    ∷ (λ h. record h { ring_sizeof = l.ring_sizeof })
    ∷ (λ h. record h { ring_alignof = l.ring_alignof })
    ∷ (λ h. record h { slot_sizeof = l.slot_sizeof })
    ∷ (λ h. record h { state = state_initializing })
    ∷ (λ h. record h { state = state_ready })
    ∷ []

abbrev pub store_all : SegmentHeader → List (SegmentHeader → SegmentHeader) → SegmentHeader
store_all h [] = h
store_all h (store ∷ stores) = store_all (store h) stores

-- `construct_ring_and_publish_header`: the header and the ring that it leaves in the mapping.
unfoldable pub construct : Layout → Ring → SegmentHeader × Ring
unfolding header_stores init
construct l region = (store_all zero_header (header_stores l), init l.config region)
