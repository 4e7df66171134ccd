-- ===== src/Bench/Report/Columns.antt =====
-- The cells of the CSV lines that the programs of bench/ print.
use shimmy.Common.{
  ℕ, ◌+◌, ◌≤◌, ◌<◌, ◌≡◌, ◌≢◌, refl, ap, List, [], ◌∷◌, ◌++◌, arith, length, length-append, ◌∙◌,
  if◌then◌else◌, ◌==◌, false, ◌^◌, ℤ, pos, negsuc,
}
use shimmy.Bench.Options.{Text}
use shimmy.Bench.Report.{decimal, signed}
use shimmy.Bench.Report.Numbers.{IsNumber, decimal_from-IsNumber, decimal_from-length}

-- The text up to the first comma, and the cells behind it.
abbrev cells_from : Text → Text × List Text
cells_from [] = ([], [])
cells_from (b ∷ text) =
    let (cell, cells) = cells_from text in if b == 44 then ([], cell ∷ cells) else (b ∷ cell, cells)

-- The text between the commas.
abbrev pub cells : Text → List Text
cells text = let (cell, others) = cells_from text in cell ∷ others

-- No comma.
abbrev pub IsCell : Text → Type 0
IsCell [] = Unit {0}
IsCell (b ∷ text) = (b ≢ 44) × IsCell text

pub IsCell-append : (s t : Text) → IsCell s → IsCell t → IsCell (s ++ t)
IsCell-append [] t v w = w
IsCell-append (b ∷ s) t v w = (v.0, IsCell-append s t v.1 w)

cells_from_cell : (s : Text) → IsCell s → cells_from s ≡ (s, [])
cells_from_cell [] v = refl
cells_from_cell (b ∷ s) v =
    let other : (b == 44) ≡ false = ground (arith, v.0) in rw (cells_from_cell s v.1, other) refl

cells_from_comma : (s rest : Text) → IsCell s → cells_from (s ++ (44 ∷ rest)) ≡ (s, cells rest)
cells_from_comma [] rest v = refl
cells_from_comma (b ∷ s) rest v =
    let other : (b == 44) ≡ false = ground (arith, v.0) in
    rw (cells_from_comma s rest v.1, other) refl

-- The first cell of a line, and the line's last.
pub cells_comma : (s rest : Text) → IsCell s → cells (s ++ (44 ∷ rest)) ≡ s ∷ cells rest
cells_comma s rest v = rw (cells_from_comma s rest v) refl

pub cells_cell : (s : Text) → IsCell s → cells s ≡ s ∷ []
cells_cell s v = rw (cells_from_cell s v) refl

IsNumber-IsCell : (text : Text) → IsNumber text → IsCell text
IsNumber-IsCell [] v = tt
IsNumber-IsCell (b ∷ text) v = (omega (arith, v.0), IsNumber-IsCell text v.2)

pub decimal-IsCell : (v : ℕ) → IsCell (decimal v)
decimal-IsCell v = IsNumber-IsCell (decimal v) (decimal_from-IsNumber 20 v)

pub signed-IsCell : (v : ℤ) → IsCell (signed v)
signed-IsCell (pos v) = decimal-IsCell v
signed-IsCell (negsuc v) = (omega arith, decimal-IsCell (v + 1))

-- The numbers of an `int64_t`.
abbrev pub IsInt64 : ℤ → Type 0
IsInt64 (pos v) = v < 2 ^ 63
IsInt64 (negsuc v) = v < 2 ^ 63

pub signed-length : (v : ℤ) → IsInt64 v → length (signed v) ≤ 20
signed-length (pos v) h = omega (arith, decimal_from-length 20 v 18 (omega (arith, h)))
signed-length (negsuc v) h = omega (arith, decimal_from-length 20 (v + 1) 18 (omega (arith, h)))

-- A line of these cells.
abbrev pub joined : Text → List Text → Text
joined s [] = s
joined s (t ∷ others) = s ++ (44 ∷ joined t others)

abbrev pub IsCells : List Text → Type 0
IsCells [] = Unit {0}
IsCells (s ∷ others) = IsCell s × IsCells others

pub cells-joined :
    (s : Text) (others : List Text)
    → IsCell s
    → IsCells others
    → cells (joined s others) ≡ s ∷ others
cells-joined s [] v w = cells_cell s v
cells-joined s (t ∷ others) v w =
    cells_comma s (joined t others) v
    ∙ ap (λ (l : List Text). s ∷ l) (cells-joined t others w.0 w.1)

-- The length of a line, its commas included.
abbrev pub width : List Text → ℕ
width [] = 0
width (s ∷ others) = 1 + length s + width others

pub joined-width :
    (s : Text) (others : List Text) → length (joined s others) ≡ length s + width others
joined-width s [] = omega arith
joined-width s (t ∷ others) =
    omega (arith, length-append s (44 ∷ joined t others), joined-width t others)
