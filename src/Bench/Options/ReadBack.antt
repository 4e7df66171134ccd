-- ===== src/Bench/Options/ReadBack.antt =====
-- `arg_int` of bench/common.hpp on a number that is printed in decimal.
use shimmy.Common.{
  ℕ, suc, ◌+◌, ◌<◌, ◌^◌, ◌≡◌, refl, sym, ap, ◌∙◌, List, [], ◌∷◌, ◌++◌, some, ◌==◌, false, true,
  Bool-cases, ltb, inl, inr, ◌/◌, ◌%◌, min, ℤ, pos, negsuc, arith,
}
use mathlib.Core.Path.{subst}
use shimmy.Bench.Options.{
  Text, codes, after_prefix, arg_value, arg_int, is_space, skip_blanks, digits, negative,
  strtoll_from, strtoll, int_or,
}
use shimmy.Bench.Timing.{max_i64}
use shimmy.Bench.Report.{decimal_from, decimal, signed}
use shimmy.Bench.Report.Numbers.{IsNumber, decimal_from-IsNumber, digits-decimal_from}
use shimmy.Bench.Report.Columns.{IsInt64}

after_prefix-append : (prefix text : Text) → after_prefix prefix (prefix ++ text) ≡ some text
unfolding after_prefix
after_prefix-append [] text = refl
after_prefix-append (p ∷ prefix) text =
    let same : (p == p) ≡ true = ground arith in rw same (after_prefix-append prefix text)

arg_value-append :
    (flag text def : Text) (others : List Text)
    → arg_value ((flag ++ codes "=" ++ text) ∷ others) flag def ≡ text
unfolding arg_value
arg_value-append flag text def others =
    rw (arg_value, after_prefix-append (flag ++ codes "=") text) refl

ends_in : (text : Text) (d : ℕ) → (b : ℕ) × (rest : Text) × (text ++ (d ∷ []) ≡ b ∷ rest)
ends_in [] d = (d, [], refl)
ends_in (b ∷ text) d = (b, text ++ (d ∷ []), refl)

-- A number has a first digit.
first_digit : (n v : ℕ) → (b : ℕ) × (rest : Text) × (decimal_from (suc n) v ≡ b ∷ rest)
unfolding decimal_from
first_digit n v = elim (Bool-cases (ltb v 10)) [
  | inl small ↦ rw small (_, _, refl)
  | inr large ↦ rw large (ends_in (decimal_from n (v / 10)) (48 + v % 10))
]

strtoll_digit :
    (b : ℕ) (rest : Text)
    → IsNumber (b ∷ rest)
    → strtoll (b ∷ rest) ≡ pos (min (digits 0 (b ∷ rest)) max_i64)
unfolding strtoll skip_blanks strtoll_from
strtoll_digit b rest v =
    let full : is_space b ≡ false = ground (arith, v.0) in
    let no_minus : (b == 45) ≡ false = ground (arith, v.0) in
    let no_plus : (b == 43) ≡ false = ground (arith, v.0) in
    rw (strtoll, skip_blanks, full, strtoll_from, no_minus, no_plus) refl

strtoll_minus : (text : Text) → strtoll (45 ∷ text) ≡ negative (digits 0 text)
unfolding strtoll skip_blanks strtoll_from
strtoll_minus text = refl

strtoll-decimal : (v : ℕ) → v < 10 ^ 20 → strtoll (decimal v) ≡ pos (min v max_i64)
strtoll-decimal v lt =
    let (b, rest, is) = first_digit 19 v in
    let number : IsNumber (b ∷ rest) = subst (λ t. IsNumber t) is (decimal_from-IsNumber 20 v) in
    let value : digits 0 (b ∷ rest) ≡ v =
      subst (λ t. digits 0 t ≡ v) is (digits-decimal_from 20 v lt) in
    subst (λ t. strtoll t ≡ pos (min v max_i64)) (sym is)
      (strtoll_digit b rest number ∙ ap (λ n. pos (min n max_i64)) value)

strtoll-signed : (v : ℤ) → IsInt64 v → strtoll (signed v) ≡ v
strtoll-signed (pos v) h =
    strtoll-decimal v (omega (arith, h))
    ∙ ap (λ (n : ℕ). pos n) {x = min v max_i64} {y = v} (omega (arith, h))
strtoll-signed (negsuc v) h =
    strtoll_minus (decimal (v + 1))
    ∙ ap (λ (n : ℕ). negative n) (digits-decimal_from 20 (v + 1) (omega (arith, h)))
    ∙ ap (λ (n : ℕ). negative n) {x = v + 1} {y = suc v} (omega arith)
    ∙ ap (λ (n : ℕ). negsuc n) {x = min v max_i64} {y = v} (omega (arith, h))

int_or-signed : (v def : ℤ) → IsInt64 v → int_or (signed v) def ≡ v
unfolding strtoll int_or
int_or-signed (negsuc v) def h = strtoll-signed (negsuc v) h
int_or-signed (pos v) def h =
    let (b, rest, is) = first_digit 19 v in
    subst (λ t. int_or t def ≡ strtoll t) (sym is) refl ∙ strtoll-signed (pos v) h

-- TODO
pub arg_int-signed :
    (flag : Text) (v def : ℤ) (others : List Text)
    → IsInt64 v
    → arg_int ((flag ++ codes "=" ++ signed v) ∷ others) flag def ≡ v
unfolding arg_int
arg_int-signed flag v def others h =
    ap (λ t. int_or t def) (arg_value-append flag (signed v) [] others) ∙ int_or-signed v def h
