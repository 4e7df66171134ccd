-- ===== src/Bench/Report/Numbers.antt =====
-- The numbers that the programs of bench/ print in decimal.
use shimmy.Common.{
  ℕ, zero, suc, ◌+◌, ◌-◌, ◌*◌, ◌^◌, ◌/◌, ◌%◌, ◌≤◌, ◌<◌, ◌≡◌, [], ◌∷◌, ◌++◌, arith, length,
  length-snoc, inl, inr, Bool-cases, ltb, leb, true, ◌∙◌,
}
use native.Mathlib.Numerals.{unary_clauses}
use shimmy.Bench.Options.{Text, digits}
use shimmy.Bench.Report.{decimal_from}

-- Every byte is a digit.
abbrev pub IsNumber : Text → Type 0
IsNumber [] = Unit {0}
IsNumber (b ∷ text) = (48 ≤ b) × (b ≤ 57) × IsNumber text

IsNumber-snoc :
    (text : Text) (b : ℕ) → IsNumber text → 48 ≤ b → b ≤ 57 → IsNumber (text ++ (b ∷ []))
IsNumber-snoc [] b v low high = (low, high, tt)
IsNumber-snoc (a ∷ text) b v low high = (v.0, v.1, IsNumber-snoc text b v.2 low high)

pub decimal_from-IsNumber : (n v : ℕ) → IsNumber (decimal_from n v)
unfolding decimal_from
decimal_from-IsNumber zero v = tt
decimal_from-IsNumber (suc n) v = elim (Bool-cases (ltb v 10)) [
  | inl small ↦
      let lt : v < 10 = ground (arith, small) in rw small (omega arith, omega (arith, lt), tt)
  | inr large ↦ rw large (
      IsNumber-snoc (decimal_from n (v / 10)) (48 + v % 10) (decimal_from-IsNumber n (v / 10))
        (omega arith) (omega arith))
]

-- What has been read so far goes on with one digit more.
digits-snoc :
    (n b : ℕ) (text : Text)
    → IsNumber text
    → 48 ≤ b
    → b ≤ 57
    → digits n (text ++ (b ∷ [])) ≡ 10 * digits n text + (b - 48)
unfolding digits
digits-snoc n b [] v low high = ground arith
digits-snoc n b (a ∷ text) v low high =
    let above : leb 48 a ≡ true = ground (arith, v.0) in
    let below : leb a 57 ≡ true = ground (arith, v.1) in
    rw (above, below) (digits-snoc (10 * n + (a - 48)) b text v.2 low high)

tenth : (v n : ℕ) → v < 10 ^ suc n → v / 10 < 10 ^ n
tenth v n lt = omega (arith, simp unary_clauses at lt)

-- A number below 10^n is read back from its decimal digits.
pub digits-decimal_from : (n v : ℕ) → v < 10 ^ n → digits 0 (decimal_from n v) ≡ v
unfolding decimal_from digits
digits-decimal_from zero v lt = omega (arith, lt)
digits-decimal_from (suc n) v lt = elim (Bool-cases (ltb v 10)) [
  | inl small ↦ let below : v < 10 = ground (arith, small) in rw small (ground (arith, below))
  | inr large ↦
      let above : 10 ≤ v = ground (arith, large) in
      rw large (
        digits-snoc 0 (48 + v % 10) (decimal_from n (v / 10)) (decimal_from-IsNumber n (v / 10))
          (omega arith) (omega arith)
        ∙ omega (arith, digits-decimal_from n (v / 10) (tenth v n lt)))
]

pub decimal_from-length : (n v k : ℕ) → v < 10 ^ suc k → length (decimal_from n v) ≤ suc k
unfolding decimal_from
decimal_from-length zero v k lt = omega arith
decimal_from-length (suc n) v zero lt =
    let small : ltb v 10 ≡ true = ground (arith, lt) in rw small (omega arith)
decimal_from-length (suc n) v (suc k) lt = elim (Bool-cases (ltb v 10)) [
  | inl small ↦ rw small (omega arith)
  | inr large ↦ rw large (
      omega (
        arith,
        length-snoc (decimal_from n (v / 10)) (48 + v % 10),
        decimal_from-length n (v / 10) k (tenth v (suc k) lt),
      ))
]
