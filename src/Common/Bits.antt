-- ===== src/Common/Bits.antt =====
-- `&` on unsigned words: a mask of low bits is a remainder, a mask of high bits rounds down, and
-- the test `n & (n - 1)` recognises the powers of two.
use Prim.Native.Nat.{
  ℕ, zero, suc, ◌+◌, ◌-◌, ◌*◌, ◌/◌, ◌%◌, ◌^◌, ◌≤◌, min, bit_and, digits, bit_and-bitwise,
}
use mathlib.Core.Path.{◌≡◌, refl, sym, ◌∙◌, ap, ap₂}
use native.Mathlib.Omega.{arith}
use native.Mathlib.Nat.{pow-succ', div-add-mod, div-div-eq-div-mul, one-mul, div-one}
use native.Mathlib.Decide.{ℕ_discrete}

-- `a & b`, given a count of digits to go.
abbrev and_within : ℕ → ℕ → ℕ → ℕ
and_within = digits (λ _. zero) min

-- Any two counts that cover `a` give one value.
and_within_covers : (n m a b : ℕ) → a ≤ n → a ≤ m → and_within n a b ≡ and_within m a b
and_within_covers zero zero a b hn hm = refl
and_within_covers (suc n) zero zero b hn hm = refl
and_within_covers (suc n) zero (suc a) b hn hm = absurd (omega arith)
and_within_covers zero (suc m) zero b hn hm = refl
and_within_covers zero (suc m) (suc a) b hn hm = absurd (omega arith)
and_within_covers (suc n) (suc m) zero b hn hm = refl
and_within_covers (suc n) (suc m) (suc a) b hn hm =
    omega (arith, and_within_covers n m (suc a / 2) (b / 2) (omega arith) (omega arith))

zero-bit_and : (b : ℕ) → bit_and 0 b ≡ 0
zero-bit_and b = bit_and-bitwise 0 b

-- The lowest digit, and the rest.
pub bit_and_digit : (a b : ℕ) → bit_and a b ≡ 2 * bit_and (a / 2) (b / 2) + min (a % 2) (b % 2)
bit_and_digit zero b = omega (arith, zero-bit_and b, zero-bit_and (b / 2))
bit_and_digit (suc a) b = omega (
  arith,
  bit_and-bitwise (suc a) b,
  bit_and-bitwise (suc a / 2) (b / 2),
  and_within_covers a (suc a / 2) (suc a / 2) (b / 2) (omega arith) (omega arith),
)

bit_and-zero_within : (n a : ℕ) → a ≤ n → bit_and a 0 ≡ 0
bit_and-zero_within zero zero h = refl
bit_and-zero_within zero (suc a) h = absurd (omega arith)
bit_and-zero_within (suc n) a h =
    omega (arith, bit_and_digit a 0, bit_and-zero_within n (a / 2) (omega arith))

pub bit_and-zero : (a : ℕ) → bit_and a 0 ≡ 0
bit_and-zero a = bit_and-zero_within a a (omega arith)

-- A remainder by an even modulus, by its lowest digit.
mod_digit : (a p : ℕ) → a % (2 * p) ≡ 2 * (a / 2 % p) + a % 2
mod_digit a p = omega (
  arith,
  div-add-mod (a / 2) p,
  div-add-mod a (2 * p),
  ap (λ (q : ℕ). 2 * p * q) (div-div-eq-div-mul a 2 p),
)

pub pow-pos : (k : ℕ) → 1 ≤ 2 ^ k
pow-pos zero = omega arith
pow-pos (suc k) = rw (pow-succ' 2 k) (omega (arith, pow-pos k))

half_low : (p : ℕ) → 1 ≤ p → (2 * p - 1) / 2 ≡ p - 1
half_low p h = omega arith

bit_and-low_step :
    (p a : ℕ) → 1 ≤ p → bit_and (a / 2) (p - 1) ≡ a / 2 % p → bit_and a (2 * p - 1) ≡ a % (2 * p)
bit_and-low_step p a h e = omega (
  arith,
  e,
  bit_and_digit a (2 * p - 1),
  mod_digit a p,
  ap (λ (t : ℕ). bit_and (a / 2) t) (half_low p h),
)

-- `a & (2^k - 1)` is `a % 2^k`.
pub bit_and-low : (k a : ℕ) → bit_and a (2 ^ k - 1) ≡ a % 2 ^ k
bit_and-low zero a = omega (arith, bit_and-zero a)
bit_and-low (suc k) a =
    rw (pow-succ' 2 k) (bit_and-low_step (2 ^ k) a (pow-pos k) (bit_and-low k (a / 2)))

half_product : (q m : ℕ) → 2 * q * m / 2 ≡ q * m
half_product q m = omega arith

bit_and-shift_step :
    (q a m : ℕ)
    → bit_and (a / 2) (q * m) ≡ q * bit_and (a / 2 / q) m
    → bit_and a (2 * q * m) ≡ 2 * q * bit_and (a / (2 * q)) m
bit_and-shift_step q a m e = rw (← div-div-eq-div-mul a 2 q) (
    omega
      (arith, e, bit_and_digit a (2 * q * m), ap (λ (t : ℕ). bit_and (a / 2) t) (half_product q m)))

-- A mask that starts at bit `k` sees the number without its `k` low bits.
pub bit_and-shift : (k a m : ℕ) → bit_and a (2 ^ k * m) ≡ 2 ^ k * bit_and (a / 2 ^ k) m
bit_and-shift zero a m = simp (one-mul, div-one)
bit_and-shift (suc k) a m =
    rw (pow-succ' 2 k) (bit_and-shift_step (2 ^ k) a m (bit_and-shift k (a / 2) m))

bit_and_self_within : (n a : ℕ) → a ≤ n → bit_and a a ≡ a
bit_and_self_within zero zero h = refl
bit_and_self_within zero (suc a) h = absurd (omega arith)
bit_and_self_within (suc n) zero h = refl
bit_and_self_within (suc n) (suc a) h =
    omega (arith, bit_and_digit (suc a) (suc a), bit_and_self_within n (suc a / 2) (omega arith))

pub bit_and_self : (a : ℕ) → bit_and a a ≡ a
bit_and_self a = bit_and_self_within a a (omega arith)

cut_even : (c : ℕ) → bit_and (2 * c / 2) ((2 * c - 1) / 2) ≡ bit_and c (c - 1)
cut_even c = ap₂ bit_and (omega arith) (omega arith)

cut_odd : (c : ℕ) → bit_and ((2 * c + 1) / 2) (2 * c / 2) ≡ bit_and c c
cut_odd c = ap₂ bit_and (omega arith) (omega arith)

-- The test at an even and at an odd number.
test_even : (c : ℕ) → bit_and (2 * c) (2 * c - 1) ≡ 0 → bit_and c (c - 1) ≡ 0
test_even c e = omega (arith, bit_and_digit (2 * c) (2 * c - 1), cut_even c)

test_odd : (c : ℕ) → bit_and (2 * c + 1) (2 * c) ≡ 0 → c ≡ 0
test_odd c e = omega (arith, bit_and_digit (2 * c + 1) (2 * c), cut_odd c, bit_and_self c)

pow2_within : (f n : ℕ) → n ≤ f → 1 ≤ n → bit_and n (n - 1) ≡ 0 → (k : ℕ) × (n ≡ 2 ^ k)
pow2_within zero n b h e = absurd (omega arith)
pow2_within (suc f) n b h e = elim (ℕ_discrete (n % 2) 0) [
  | yes even ↦
      let c : ℕ = n / 2 in
      let n_is : n ≡ 2 * c = omega arith in
      let (k, p) = pow2_within f c (omega arith) (omega arith) (test_even c (rw n_is at e)) in
      (suc k, rw (pow-succ' 2 k) (omega (arith, p)))
  | no odd ↦
      let c : ℕ = n / 2 in
      let same : bit_and n (n - 1) ≡ bit_and (2 * c + 1) (2 * c) =
        ap₂ bit_and (omega arith) (omega arith) in
      (0, omega (arith, test_odd c (sym same ∙ e)))
]

-- `n & (n - 1)` is zero for the powers of two alone.
pub pow2_of_test : (n : ℕ) → 1 ≤ n → bit_and n (n - 1) ≡ 0 → (k : ℕ) × (n ≡ 2 ^ k)
pow2_of_test n h e = pow2_within n n (omega arith) h e
