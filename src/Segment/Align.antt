-- ===== src/Segment/Align.antt =====
-- `align_up`, `ring_offset` and `segment_bytes` of include/shimmy/shm_segment.hpp.
use shimmy.Common.{
  ℕ, refl, zero, suc, ◌+◌, ◌-◌, ◌*◌, ◌/◌, ◌%◌, ◌^◌, ◌≤◌, ◌<◌, ◌≡◌, sym, ◌∙◌, ap, bit_and, arith,
  max_u64,
}
use mathlib.Core.Path.{subst}
use shimmy.Common.Bits.{bit_and-shift, bit_and-low, pow-pos, pow2_of_test}
use native.Mathlib.Decide.{dec_lt}
use native.Mathlib.Nat.{
  zero-add, pow-succ', div-add-mod, div-lt_iff_lt-mul, mod-eq_of_lt, mod-lt, mul-mod_right,
  pow-le-pow_right, mul-sub,
}
use shimmy.Segment.{Layout, align_up, ring_offset, segment_bytes, header_sizeof}

-- A mask of ones above the low `k` bits cuts those off.
bit_and-high :
    (k j x : ℕ) → x < 2 ^ j * 2 ^ k → bit_and x (2 ^ k * (2 ^ j - 1)) ≡ 2 ^ k * (x / 2 ^ k)
bit_and-high k j x small =
    bit_and-shift k x (2 ^ j - 1)
    ∙ ap (λ (t : ℕ). 2 ^ k * t)
        (bit_and-low j (x / 2 ^ k) ∙ mod-eq_of_lt ((div-lt_iff_lt-mul (pow-pos k)).1 small))

pow-split : (k j : ℕ) → 2 ^ (k + j) ≡ 2 ^ k * 2 ^ j
pow-split zero j = ap (λ (t : ℕ). 2 ^ t) (zero-add j) ∙ omega arith
pow-split (suc k) j =
    ap (λ (t : ℕ). 2 ^ t) {x = suc k + j} {y = suc (k + j)} (omega arith)
    ∙ grind (arith, pow-succ' 2 (k + j), pow-succ' 2 k, pow-split k j)

-- The result of `align_up` is the least multiple of `align` that is at least `v`.
pub record IsAligned (v align up : ℕ) : Type 0 where
  pub multiple : up % align ≡ 0
  pub above : v ≤ up
  pub close : up < v + align

round_up :
    (x v align : ℕ) → 1 ≤ align → x ≡ v + (align - 1) → IsAligned v align (align * (x / align))
round_up x v align pos e = record {
  multiple = mul-mod_right align (x / align);
  above = omega (arith, div-add-mod x align, mod-lt x pos);
  close = omega (arith, div-add-mod x align, mod-lt x pos);
}

mask-split : (p q : ℕ) → 1 ≤ p → 1 ≤ q → p * q ≡ 2 ^ 64 → max_u64 - (p - 1) ≡ p * (q - 1)
mask-split p q pos pos' e = omega (arith, e, mul-sub p q 1)

align_up-div :
    (v k j : ℕ)
    → k + j ≡ 64
    → v + 2 ^ k ≤ 2 ^ 64
    → align_up v (2 ^ k) ≡ 2 ^ k * ((v + (2 ^ k - 1)) / 2 ^ k)
unfolding align_up
align_up-div v k j e room =
    let whole : 2 ^ k * 2 ^ j ≡ 2 ^ 64 = sym (pow-split k j) ∙ ap (λ (t : ℕ). 2 ^ t) e in
    let small : v + (2 ^ k - 1) < 2 ^ 64 = omega (arith, pow-pos k) in
    ap (λ (t : ℕ). bit_and t (max_u64 - (2 ^ k - 1))) (mod-eq_of_lt small)
    ∙ ap (λ (t : ℕ). bit_and (v + (2 ^ k - 1)) t)
        (mask-split (2 ^ k) (2 ^ j) (pow-pos k) (pow-pos j) whole)
    ∙ bit_and-high k j (v + (2 ^ k - 1)) (omega (arith, small, whole))

-- Every multiple of a power of two that a layout's sizes allow for is reached.
align_up-IsAligned :
    (v k : ℕ) → k ≤ 64 → v + 2 ^ k ≤ 2 ^ 64 → IsAligned v (2 ^ k) (align_up v (2 ^ k))
align_up-IsAligned v k le room =
    subst (IsAligned v (2 ^ k)) (sym (align_up-div v k (64 - k) (omega arith) room))
      (round_up (v + (2 ^ k - 1)) v (2 ^ k) (pow-pos k) refl)

pow_below : (k : ℕ) → 2 ^ k ≤ 2 ^ 64 → k ≤ 64
pow_below k h = elim (dec_lt 64 k) [
  | yes big ↦
      absurd (omega (arith, pow-le-pow_right {n = 2} (omega arith) {i = 65} {j = k} (omega arith)))
  | no small ↦ omega arith
]

-- What the compiler's sizes are known to satisfy: a power of two for the alignment, and the
-- whole within a 64-bit size.
pub record IsLayout (l : Layout) : Type 0 where
  pub positive : 1 ≤ l.ring_alignof
  pub power_of_two : bit_and l.ring_alignof (l.ring_alignof - 1) ≡ 0
  pub fits : header_sizeof + l.ring_alignof + l.ring_sizeof ≤ 2 ^ 64

-- For a layout whose alignment is a power of two and whose header, alignment and ring size
-- together fit into 64 bits: the ring begins at the least multiple of its alignment that is not
-- below the size of the header, and the size of the segment is the sum of that offset and the size
-- of the ring, which does not wrap.
pub ring_offset-IsAligned :
    (l : Layout)
    → IsLayout l
    → IsAligned header_sizeof l.ring_alignof (ring_offset l)
      × (segment_bytes l ≡ ring_offset l + l.ring_sizeof)
      × (segment_bytes l < 2 ^ 64)
unfolding ring_offset segment_bytes
ring_offset-IsAligned l v =
    let (k, e) = pow2_of_test l.ring_alignof v.positive v.power_of_two in
    let aligned : IsAligned header_sizeof l.ring_alignof (align_up header_sizeof l.ring_alignof) =
      subst (λ t. IsAligned header_sizeof t (align_up header_sizeof t)) (sym e)
        (align_up-IsAligned header_sizeof k (pow_below k (omega (arith, e, v.fits)))
          (omega (arith, e, v.fits))) in
    (aligned, omega (arith, aligned.close, v.fits), omega (arith, aligned.close, v.fits))
