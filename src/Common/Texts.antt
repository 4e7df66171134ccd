-- ===== src/Common/Texts.antt =====
-- Texts as the lists of their bytes, and numbers in decimal, as `printf` and `std::to_string` give them.
use Prim.Native.Char.{code}
use Prim.Native.String.{String}
use Prim.Native.Nat.{ℕ, zero, suc, ◌+◌, ◌/◌, ◌%◌}
use mathlib.Core.List.{List, [], ◌∷◌, ◌++◌}
use shimmy.Common.Tests.{ltb, if◌then◌else◌}

abbrev pub Text : Type 0
Text = List ℕ

-- The bytes of a text that is ASCII.
abbrev pub codes : String → Text
codes String.[] = []
codes (String.◌∷◌ c s) = code c ∷ codes s

-- The decimal digits of a number, at most `n` of them.
unfoldable pub decimal_from : ℕ → ℕ → Text
decimal_from zero v = []
decimal_from (suc n) v =
    let rest = decimal_from n (v / 10) in
    if ltb v 10 then (48 + v) ∷ [] else rest ++ ((48 + v % 10) ∷ [])

-- `%lld`, `%zu` and `%d`: a 64-bit number has at most 20 digits.
abbrev pub decimal : ℕ → Text
decimal v = decimal_from 20 v
