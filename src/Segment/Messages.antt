-- ===== src/Segment/Messages.antt =====
-- What the exceptions of include/shimmy/shm_segment.hpp say when an opener refuses a segment.
use shimmy.Common.{
  ℕ, zero, suc, ◌+◌, ◌-◌, ◌*◌, ◌/◌, ◌%◌, ◌^◌, ◌<◌, ◌≡◌, ◌∙◌, [], ◌∷◌, ◌++◌, ltb, if◌then◌else◌,
  take, take_all, length, length-snoc, arith, refl, u32,
}
use native.Mathlib.Numerals.{unary_clauses}
use shimmy.Common.Texts.{Text, codes, decimal}
use shimmy.Segment.{
  Layout, SegmentHeader, Refusal, header_too_small, bad_magic, version_mismatch, not_ready,
  block_size_differs, capacity_differs, policy_differs, max_consumers_differs, ring_sizeof_differs,
  ring_alignof_differs, slot_sizeof_differs, header_bytes_differs, file_too_small, current_version,
  policy_id_of, ring_offset, segment_bytes,
}

abbrev hex_digit : ℕ → ℕ
hex_digit d = if ltb d 10 then 48 + d else 55 + d

-- The last `n` hexadecimal digits of a number.
unfoldable hex_from : ℕ → ℕ → Text
hex_from zero v = []
hex_from (suc n) v = hex_from n (v / 16) ++ (hex_digit (v % 16) ∷ [])

-- "%016llX" to a buffer of 17 bytes.
unfoldable to_hex : ℕ → Text
unfolding hex_from
to_hex v = take 16 (hex_from 16 v)

abbrev differs : Text → ℕ → ℕ → Text
differs field have want =
    codes "incompatible "
    ++ field
    ++ codes ": segment="
    ++ decimal have
    ++ codes " this build="
    ++ decimal want

-- `what()` of the exception, for a file of this size.
unfoldable what : Layout → ℕ → SegmentHeader → Refusal → Text
unfolding to_hex ring_offset segment_bytes
what l size hdr header_too_small =
    codes "segment too small to contain a shimmy header (size=" ++ decimal size ++ codes ")"
what l size hdr bad_magic =
    codes "bad magic: not a shimmy segment (got 0x" ++ to_hex hdr.magic ++ codes ")"
what l size hdr version_mismatch =
    codes "layout version mismatch: segment="
    ++ decimal hdr.version
    ++ codes " expected="
    ++ decimal current_version
what l size hdr not_ready =
    codes "segment not ready (creator still initializing or crashed mid-init)"
what l size hdr block_size_differs = differs (codes "block_size") hdr.block_size l.config.block_size
what l size hdr capacity_differs = differs (codes "capacity") hdr.capacity l.config.capacity
what l size hdr policy_differs =
    differs (codes "policy") hdr.policy (policy_id_of l.config.overflow)
what l size hdr max_consumers_differs =
    differs (codes "max_consumers") hdr.max_consumers (u32 l.config.max_consumers)
what l size hdr ring_sizeof_differs = differs (codes "ring_sizeof") hdr.ring_sizeof l.ring_sizeof
what l size hdr ring_alignof_differs =
    differs (codes "ring_alignof") hdr.ring_alignof l.ring_alignof
what l size hdr slot_sizeof_differs = differs (codes "slot_sizeof") hdr.slot_sizeof l.slot_sizeof
what l size hdr header_bytes_differs =
    differs (codes "header_bytes") hdr.header_bytes (u32 (ring_offset l))
what l size hdr file_too_small =
    codes "segment file smaller than required ("
    ++ decimal size
    ++ codes " < "
    ++ decimal (segment_bytes l)
    ++ codes ")"

-- The number that hexadecimal digits stand for.
abbrev digit_value : ℕ → ℕ
digit_value b = if ltb b 58 then b - 48 else b - 55

unfoldable hex_value : ℕ → Text → ℕ
hex_value n [] = n
hex_value n (b ∷ text) = hex_value (16 * n + digit_value b) text

hex_value-snoc :
    (n b : ℕ) (text : Text) → hex_value n (text ++ (b ∷ [])) ≡ 16 * hex_value n text + digit_value b
unfolding hex_value
hex_value-snoc n b [] = refl
hex_value-snoc n b (a ∷ text) = hex_value-snoc (16 * n + digit_value a) b text

digit_value-hex_digit : (d : ℕ) → d < 16 → digit_value (hex_digit d) ≡ d
digit_value-hex_digit d lt = ground (arith, lt)

hex_from-length : (n v : ℕ) → length (hex_from n v) ≡ n
unfolding hex_from
hex_from-length zero v = omega arith
hex_from-length (suc n) v =
    omega
      (arith, length-snoc (hex_from n (v / 16)) (hex_digit (v % 16)), hex_from-length n (v / 16))

sixteenth : (v n : ℕ) → v < 16 ^ suc n → v / 16 < 16 ^ n
sixteenth v n lt = omega (arith, simp unary_clauses at lt)

hex_value-hex_from : (n v : ℕ) → v < 16 ^ n → hex_value 0 (hex_from n v) ≡ v
unfolding hex_from hex_value
hex_value-hex_from zero v lt = omega (arith, lt)
hex_value-hex_from (suc n) v lt =
    hex_value-snoc 0 (hex_digit (v % 16)) (hex_from n (v / 16))
    ∙ omega (
      arith,
      hex_value-hex_from n (v / 16) (sixteenth v n lt),
      digit_value-hex_digit (v % 16) (omega arith),
    )

-- `to_hex` gives sixteen digits, from which the number can be read back.
hex_value-to_hex : (v : ℕ) → v < 2 ^ 64 → (length (to_hex v) ≡ 16) × (hex_value 0 (to_hex v) ≡ v)
unfolding to_hex
hex_value-to_hex v lt =
    let whole : to_hex v ≡ hex_from 16 v =
      take_all 16 (hex_from 16 v) (omega (arith, hex_from-length 16 v)) in
    rw whole (hex_from-length 16 v, hex_value-hex_from 16 v lt)
