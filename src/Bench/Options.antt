-- ===== src/Bench/Options.antt =====
-- The command line of the benchmark programs (bench/common.hpp).
pub mod ReadBack
pub use shimmy.Common.Texts.{Text, codes}
use shimmy.Common.{
  ℕ, zero, suc, ◌+◌, ◌-◌, ◌*◌, Bool, ◌&&◌, ◌||◌, List, [], ◌∷◌, ◌++◌, Option, none, some, leb, ◌==◌,
  if◌then◌else◌, min, ℤ, pos, negsuc,
}
use shimmy.Bench.Timing.{max_i64}

-- What follows the prefix, if the text begins with it: `a.rfind(prefix, 0) == 0`, `a.substr`.
unfoldable after_prefix : Text → Text → Option Text
after_prefix [] text = some text
after_prefix (p ∷ prefix) [] = none
after_prefix (p ∷ prefix) (b ∷ text) =
    let rest = after_prefix prefix text in if p == b then rest else none

-- `arg_value`, on the arguments behind the program's name.
unfoldable pub arg_value : List Text → Text → Text → Text
unfolding after_prefix
arg_value [] flag def = def
arg_value (a ∷ args) flag def = elim (after_prefix (flag ++ codes "=") a) [
  | none ↦ arg_value args flag def
  | some value ↦ value
]

-- `strtoll(v, nullptr, 10)`: blanks, a sign, digits up to the first byte that is none, and the
-- nearest `long long`.
abbrev is_space : ℕ → Bool
is_space b = b == 32 || (leb 9 b && leb b 13)

unfoldable skip_blanks : Text → Text
skip_blanks [] = []
skip_blanks (b ∷ text) = let rest = skip_blanks text in if is_space b then rest else b ∷ text

unfoldable pub digits : ℕ → Text → ℕ
digits n [] = n
digits n (b ∷ text) =
    let rest = digits (10 * n + (b - 48)) text in if leb 48 b && leb b 57 then rest else n

abbrev negative : ℕ → ℤ
negative zero = pos 0
negative (suc n) = negsuc (min n max_i64)

unfoldable strtoll_from : Text → ℤ
unfolding digits
strtoll_from [] = pos 0
strtoll_from (b ∷ text) =
    if b == 45
    then negative (digits 0 text)
    else if b == 43
    then pos (min (digits 0 text) max_i64)
    else pos (min (digits 0 (b ∷ text)) max_i64)

unfoldable strtoll : Text → ℤ
unfolding skip_blanks strtoll_from
strtoll text = strtoll_from (skip_blanks text)

abbrev int_or : Text → ℤ → ℤ
unfolding strtoll
int_or [] def = def
int_or (b ∷ text) def = strtoll (b ∷ text)

-- `arg_int`
unfoldable pub arg_int : List Text → Text → ℤ → ℤ
unfolding arg_value strtoll
arg_int args flag def = int_or (arg_value args flag []) def
