-- ===== src/Bench/Timing.antt =====
-- The clock and the histogram of bench/common.hpp.
use shimmy.Common.{
  ℕ, ◌-◌, ◌≤◌, ◌<◌, ◌≡◌, ◌⊎◌, inl, inr, refl, ◌∙◌, ◌&&◌, List, [], ◌∷◌, Option, none, some, ltb,
  leb, ◌==◌, if◌then◌else◌, ℤ, pos, negsuc, minus, arith, ◌^◌, Bool-cases, get_elem?, zero, suc, ap,
}

abbrev pub max_i64 : ℕ
max_i64 = 2 ^ 63 - 1

-- `if (d > 0 && d < best) best = d`
unfoldable keep_less : ℕ → ℤ → ℕ
keep_less best (pos d) = if ltb 0 d && ltb d best then d else best
keep_less best (negsuc d) = best

-- The loop over pairs of clock readings.
unfoldable pub best_of : ℕ → List (ℕ × ℕ) → ℕ
unfolding keep_less
best_of best [] = best
best_of best ((a, b) ∷ readings) = best_of (keep_less best (minus b a)) readings

-- `readings` are those of the measured rounds.
unfoldable pub measure_clock_overhead : List (ℕ × ℕ) → ℕ
unfolding best_of
measure_clock_overhead readings =
    let best = best_of max_i64 readings in if best == max_i64 then 0 else best

-- The functions of HdrHistogram that the programs call. `hdr_init` may fail.
pub record Hdr (H P : Type 0) : Type 0 where
  pub hdr_init : ℕ → ℕ → ℕ → Option H
  pub hdr_record_value : H → ℕ → H
  pub hdr_value_at_percentile : H → P → ℕ
  pub hdr_min : H → ℕ
  pub hdr_max : H → ℕ
  pub total_count : H → ℕ

abbrev pub hist_max_ns : ℕ
hist_max_ns = 10000000000

-- `value_ns >= 1 ? value_ns : 1`
abbrev pub at_least_one : ℤ → ℕ
at_least_one (pos v) = if leb 1 v then v else 1
at_least_one (negsuc v) = 1

module _ {H P : Type 0} (hdr : Hdr H P) where
  abbrev pub histogram : ℕ → ℕ → Option H
  histogram max_ns sig = hdr.hdr_init 1 max_ns sig

  unfoldable pub record_value : Option H → ℤ → Option H
  record_value none v = none
  record_value (some h) v = some (hdr.hdr_record_value h (at_least_one v))

  unfoldable pub value_at : Option H → P → ℤ
  value_at none pct = negsuc 0
  value_at (some h) pct = pos (hdr.hdr_value_at_percentile h pct)

  unfoldable pub least : Option H → ℤ
  least none = negsuc 0
  least (some h) = pos (hdr.hdr_min h)

  unfoldable pub greatest : Option H → ℤ
  greatest none = negsuc 0
  greatest (some h) = pos (hdr.hdr_max h)

  unfoldable pub count : Option H → ℕ
  count none = 0
  count (some h) = hdr.total_count h

-- `r` is the least positive time among the readings, or `top` if none is below that.
pub record IsLeast (top : ℕ) (readings : List (ℕ × ℕ)) (r : ℕ) : Type 0 where
  pub below : r ≤ top
  pub least : (i a b : ℕ) → get_elem? readings i ≡ some (a, b) → a < b → r ≤ b - a
  pub attained :
      (r ≡ top)
      ⊎ (i : ℕ) × (a : ℕ) × (b : ℕ) × (get_elem? readings i ≡ some (a, b)) × (a < b) × (r ≡ b - a)

keep_less-keeps :
    (best a b : ℕ)
    → let kept = keep_less best (minus b a) in
      (kept ≤ best) × (a < b → kept ≤ b - a) × ((kept ≡ best) ⊎ (a < b) × (kept ≡ b - a))
unfolding keep_less
keep_less-keeps best a b = elim (Bool-cases (leb a b)) [
  | inl le ↦ rw le (ground (arith, le))
  | inr gt ↦ rw gt (omega arith, λ h. absurd (ground (arith, gt)), inl refl)
]

least_of_both :
    (r a b : ℕ) (readings : List (ℕ × ℕ))
    → (a < b → r ≤ b - a)
    → ((i a' b' : ℕ) → get_elem? readings i ≡ some (a', b') → a' < b' → r ≤ b' - a')
    → (i a' b' : ℕ) → get_elem? ((a, b) ∷ readings) i ≡ some (a', b')
    → a' < b'
    → r ≤ b' - a'
least_of_both r a b readings first others zero a' b' e h =
    let same : Path (ℕ × ℕ) (a, b) (a', b') = cc in
    let left : a ≡ a' = ap (λ (p : ℕ × ℕ). p.0) same in
    let right : b ≡ b' = ap (λ (p : ℕ × ℕ). p.1) same in ground (arith, left, right, first)
least_of_both r a b readings first others (suc i) a' b' e h = others i a' b' e h

pub best_of-IsLeast :
    (top : ℕ) (readings : List (ℕ × ℕ)) → IsLeast top readings (best_of top readings)
unfolding best_of
best_of-IsLeast top [] = record {
  below = omega arith;
  least = λ i a b e h. absurd (cc);
  attained = inl refl;
}
best_of-IsLeast top ((a, b) ∷ readings) =
    let (low, near, from) = keep_less-keeps top a b in
    let rest = best_of-IsLeast (keep_less top (minus b a)) readings in
    record {
      below = omega (arith, rest.below, low);
      least = least_of_both _ a b readings (λ h. omega (arith, rest.below, near h)) rest.least;
      attained = elim rest.attained [
        | inl same ↦ elim from [
          | inl old ↦ inl (same ∙ old)
          | inr (lt, new) ↦ inr (0, a, b, refl, lt, same ∙ new)
        ]
        | inr (i, a', b', e, lt, is) ↦ inr (suc i, a', b', e, lt, is)
      ];
    }
