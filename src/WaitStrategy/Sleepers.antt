-- ===== src/WaitStrategy/Sleepers.antt =====
-- How many readers are between the increment and the decrement of `waiters`
-- (include/shimmy/wait_strategy.hpp).
use shimmy.Common.{
  ℕ, zero, suc, ◌+◌, ◌≤◌, ◌<◌, ◌≡◌, refl, sym, ap, update, update_self, update_ne, arith,
}
use mathlib.Core.Path.{subst}
use native.Mathlib.Decide.{ℕ_discrete}
use shimmy.WaitStrategy.Eventcount.{Sleeper, away, announced, deciding, asleep, leaving, woken}

-- A reader that is counted in `waiters`.
abbrev pub inside : Sleeper → ℕ
inside away = 0
inside announced = 1
inside (deciding seen) = 1
inside (asleep seen) = 1
inside leaving = 1

-- How many of the first `n` readers are.
abbrev pub insiders : (ℕ → Sleeper) → ℕ → ℕ
insiders sleepers zero = 0
insiders sleepers (suc n) = inside (sleepers n) + insiders sleepers n

pub insiders-same :
    (f g : ℕ → Sleeper) (n : ℕ)
    → ((i : ℕ) → inside (f i) ≡ inside (g i))
    → insiders f n ≡ insiders g n
insiders-same f g zero h = refl
insiders-same f g (suc n) h = omega (arith, h n, insiders-same f g n h)

pub inside-woken : (q : Sleeper) → inside (woken q) ≡ inside q
inside-woken away = refl
inside-woken announced = refl
inside-woken (deciding seen) = refl
inside-woken (asleep seen) = refl
inside-woken leaving = refl

pub inside-le : (q : Sleeper) → inside q ≤ 1
inside-le away = omega arith
inside-le announced = omega arith
inside-le (deciding seen) = omega arith
inside-le (asleep seen) = omega arith
inside-le leaving = omega arith

pub insiders-le : (f : ℕ → Sleeper) (n : ℕ) → insiders f n ≤ n
insiders-le f zero = omega arith
insiders-le f (suc n) = omega (arith, inside-le (f n), insiders-le f n)

insiders-beyond :
    (f : ℕ → Sleeper) (i n : ℕ) (q : Sleeper) → n ≤ i → insiders (update f i q) n ≡ insiders f n
insiders-beyond f i zero q h = refl
insiders-beyond f i (suc n) q h = omega (
  arith,
  ap inside (update_ne f i q n (λ e. omega (arith, e))),
  insiders-beyond f i n q (omega arith),
)

pub insiders-update :
    (f : ℕ → Sleeper) (i n : ℕ) (q : Sleeper)
    → i < n
    → insiders (update f i q) n + inside (f i) ≡ insiders f n + inside q
insiders-update f i zero q h = absurd (omega arith)
insiders-update f i (suc n) q h = elim (ℕ_discrete i n) [
  | yes e ↦
      let new : inside (update f i q n) ≡ inside q =
        subst (λ (t : ℕ). inside (update f i q t) ≡ inside q) e (ap inside (update_self f i q)) in
      let old : inside (f n) ≡ inside (f i) = ap (λ (t : ℕ). inside (f t)) (sym e) in
      omega (arith, new, old, insiders-beyond f i n q (omega arith))
  | no ne ↦ omega (arith, ap inside (update_ne f i q n ne), insiders-update f i n q (omega arith))
]

pub insiders-pos : (f : ℕ → Sleeper) (i n : ℕ) → i < n → inside (f i) ≡ 1 → 1 ≤ insiders f n
insiders-pos f i zero h e = absurd (omega arith)
insiders-pos f i (suc n) h e = elim (ℕ_discrete i n) [
  | yes same ↦ omega (arith, ap (λ (t : ℕ). inside (f t)) same)
  | no ne ↦ omega (arith, insiders-pos f i n (omega arith) e)
]

pub insiders-away : (n : ℕ) → 0 ≡ insiders (λ _. away) n
insiders-away zero = refl
insiders-away (suc n) = omega (arith, insiders-away n)
