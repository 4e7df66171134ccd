-- ===== src/Config/Index.antt =====
-- The slot index of include/shimmy/ring.hpp: `seq & mask` under the static assertions of `Ring`.
use shimmy.Common.{ℕ, ◌+◌, ◌-◌, ◌%◌, ◌≤◌, ◌<◌, ◌≡◌, bit_and, arith, sym, ◌∙◌, ap}
use shimmy.Common.Bits.{bit_and-low, pow2_of_test}
use shimmy.Common.Modular.{mod-collide}
use native.Mathlib.Nat.{add-mod_right}
use shimmy.Config.{Config, IsRingConfig, index}

module _ {c : Config} (v : IsRingConfig c) where
  -- Under the static assertions of `Ring`, `seq & mask` is the remainder of `seq` by Capacity, for
  -- every `seq`.
  pub index-mod : (seq : ℕ) → index c seq ≡ seq % c.capacity
  index-mod seq =
      let (k, e) = pow2_of_test c.capacity (omega arith) v.power_of_two in
      ap (λ (n : ℕ). bit_and seq (n - 1)) e ∙ bit_and-low k seq ∙ ap (λ (n : ℕ). seq % n) (sym e)

  -- So the index is within the array of slots.
  pub index-lt : (seq : ℕ) → index c seq < c.capacity
  index-lt seq = omega (arith, index-mod seq)

  -- Under the static assertions of `Ring`, two different sequence numbers with the same slot are
  -- at least Capacity apart.
  pub index-collide : (s t : ℕ) → index c s ≡ index c t → s < t → s + c.capacity ≤ t
  index-collide s t e h = mod-collide c.capacity s t (sym (index-mod s) ∙ e ∙ index-mod t) h

  -- A lap later the same slot comes up again.
  pub index-lap : (s : ℕ) → index c (s + c.capacity) ≡ index c s
  index-lap s = index-mod (s + c.capacity) ∙ add-mod_right s c.capacity ∙ sym (index-mod s)
