-- ===== src/WaitStrategy/Watched.antt =====
-- What is known of the readers at the futex (include/shimmy/wait_strategy.hpp) while the slot's word is
-- calm: the part of the protocol's invariant that does not depend on how stores reach memory.
use shimmy.Common.{
  ℕ, ◌+◌, ◌<◌, ◌≡◌, ◌≢◌, ◌^◌, refl, inl, inr, Bool, true, false, Bool-cases, if◌then◌else◌, sym, ap,
  ◌∙◌, update, update_self, update_ne, u32, arith,
}
use mathlib.Core.Path.{subst}
use native.Mathlib.Decide.{ℕ_discrete}
use shimmy.WaitStrategy.Eventcount.{
  Sleeper, away, announced, deciding, asleep, leaving, woken, Sleep, announce, see_published,
  see_behind, fall_asleep, word_moved, wake_up, leave,
}
use shimmy.WaitStrategy.Sleepers.{
  inside, insiders, insiders-same, inside-woken, inside-le, insiders-le, insiders-update,
  insiders-pos,
}

-- What is known of a reader where it stands: what it saw was too old, and while the word is calm a
-- sleeper's word is still the one that it saw.
abbrev SleeperOk : Type 0 → ℕ → ℕ → Sleeper → Type 0
SleeperOk calm stamp expected away = Unit {0}
SleeperOk calm stamp expected announced = Unit {0}
SleeperOk calm stamp expected (deciding seen) = seen < expected
SleeperOk calm stamp expected (asleep seen) = (seen < expected) × (calm → u32 stamp ≡ u32 seen)
SleeperOk calm stamp expected leaving = Unit {0}

-- `n` readers, each with the number that it waits for and the stamp of its slot, which may be calm.
pub record Watched (n : ℕ) (expected : ℕ → ℕ) (calm : ℕ → Type 0) (stamp : ℕ → ℕ) (waiters : ℕ)
    (sleepers : ℕ → Sleeper) : Type 0 where
  pub counted : waiters ≡ insiders sleepers n
  pub each : (i : ℕ) → i < n → SleeperOk (calm i) (stamp i) (expected i) (sleepers i)

-- What a sleeper's word still is goes over to the new word and the new calm.
abbrev pub Holds : Type 0 → ℕ → Type 0 → ℕ → Type 0
Holds calm stamp calm' stamp' =
    (seen : ℕ) → (calm → u32 stamp ≡ u32 seen) → calm' → u32 stamp' ≡ u32 seen

SleeperOk-keep :
    (calm calm' : Type 0) (stamp stamp' expected : ℕ) (q : Sleeper)
    → Holds calm stamp calm' stamp'
    → SleeperOk calm stamp expected q
    → SleeperOk calm' stamp' expected q
SleeperOk-keep calm calm' stamp stamp' expected away h v = tt
SleeperOk-keep calm calm' stamp stamp' expected announced h v = tt
SleeperOk-keep calm calm' stamp stamp' expected (deciding seen) h v = v
SleeperOk-keep calm calm' stamp stamp' expected (asleep seen) h v = (v.0, h seen v.1)
SleeperOk-keep calm calm' stamp stamp' expected leaving h v = tt

SleeperOk-outside :
    (calm : Type 0) (stamp expected : ℕ) (q : Sleeper)
    → inside q ≡ 0
    → SleeperOk calm stamp expected q
SleeperOk-outside calm stamp expected away h = tt
SleeperOk-outside calm stamp expected announced h = absurd (omega (arith, h))
SleeperOk-outside calm stamp expected (deciding seen) h = absurd (omega (arith, h))
SleeperOk-outside calm stamp expected (asleep seen) h = absurd (omega (arith, h))
SleeperOk-outside calm stamp expected leaving h = absurd (omega (arith, h))

SleeperOk-woken :
    (calm calm' : Type 0) (stamp stamp' expected : ℕ) (q : Sleeper)
    → SleeperOk calm stamp expected q
    → SleeperOk calm' stamp' expected (woken q)
SleeperOk-woken calm calm' stamp stamp' expected away v = tt
SleeperOk-woken calm calm' stamp stamp' expected announced v = tt
SleeperOk-woken calm calm' stamp stamp' expected (deciding seen) v = v
SleeperOk-woken calm calm' stamp stamp' expected (asleep seen) v = tt
SleeperOk-woken calm calm' stamp stamp' expected leaving v = tt

module _ {n : ℕ} {expected : ℕ → ℕ} {calm : ℕ → Type 0} {stamp : ℕ → ℕ} {waiters : ℕ}
    {sleepers : ℕ → Sleeper} (inv : Watched n expected calm stamp waiters sleepers) where
  outside : waiters ≡ 0 → (i : ℕ) → i < n → inside (sleepers i) ≡ 0
  outside none i h = elim (ℕ_discrete (inside (sleepers i)) 1) [
    | yes e ↦ absurd (omega (arith, inv.counted, insiders-pos sleepers i n h e))
    | no ne ↦ omega (arith, inside-le (sleepers i))
  ]

  -- The words change, or their calm.
  pub Watched-keep :
      (calm' : ℕ → Type 0) (stamp' : ℕ → ℕ)
      → ((i : ℕ) → Holds (calm i) (stamp i) (calm' i) (stamp' i))
      → Watched n expected calm' stamp' waiters sleepers
  Watched-keep calm' stamp' h = record {
    counted = inv.counted;
    each = λ i lt.
        SleeperOk-keep (calm i) (calm' i) (stamp i) _ (expected i) (sleepers i) (h i)
          (inv.each i lt);
  }

  -- The words are not calm any more.
  pub Watched-stir :
      (calm' : ℕ → Type 0) (stamp' : ℕ → ℕ)
      → ((i : ℕ) → calm' i → ⊥)
      → Watched n expected calm' stamp' waiters sleepers
  Watched-stir calm' stamp' h = Watched-keep calm' stamp' (λ i seen v e. absurd (h i e))

  -- Nobody is inside.
  pub Watched-nobody :
      (calm' : ℕ → Type 0) → waiters ≡ 0 → Watched n expected calm' stamp waiters sleepers
  Watched-nobody calm' none = record {
    counted = inv.counted;
    each =
        λ i lt. SleeperOk-outside (calm' i) (stamp i) (expected i) (sleepers i) (outside none i lt);
  }

  -- FUTEX_WAKE, for these readers.
  pub Watched-roused :
      (calm' : ℕ → Type 0) (roused : ℕ → Bool)
      → ((i : ℕ) → roused i ≡ false → Holds (calm i) (stamp i) (calm' i) (stamp i))
      → Watched n expected calm' stamp waiters
          (λ i. if roused i then woken (sleepers i) else sleepers i)
  Watched-roused calm' roused h = record {
    counted =
        inv.counted
        ∙ insiders-same sleepers (λ i. if roused i then woken (sleepers i) else sleepers i) n
            (λ i. elim (Bool-cases (roused i)) [
              | inl woke ↦ rw woke (sym (inside-woken (sleepers i)))
              | inr still ↦ rw still refl
            ]);
    each = λ i lt. elim (Bool-cases (roused i)) [
      | inl woke ↦
          rw woke (
            SleeperOk-woken (calm i) (calm' i) (stamp i) _ (expected i) (sleepers i)
              (inv.each i lt))
      | inr still ↦ rw still (
          SleeperOk-keep (calm i) (calm' i) (stamp i) _ (expected i) (sleepers i) (h i still)
            (inv.each i lt))
    ];
  }

  -- FUTEX_WAKE, for all.
  pub Watched-woken :
      (calm' : ℕ → Type 0) → Watched n expected calm' stamp waiters (λ i. woken (sleepers i))
  Watched-woken calm' = Watched-roused calm' (λ _. true) (λ i e. absurd (cc))

  -- A reader that is away goes on to another number, and to another slot.
  pub Watched-away :
      (expected' : ℕ → ℕ) (stamp' : ℕ → ℕ) (calm' : ℕ → Type 0) (i : ℕ)
      → sleepers i ≡ away
      → ((j : ℕ)
          → j ≢ i
          → (expected' j ≡ expected j) × Holds (calm j) (stamp j) (calm' j) (stamp' j))
      → Watched n expected' calm' stamp' waiters sleepers
  Watched-away expected' stamp' calm' i out h = record {
    counted = inv.counted;
    each = λ j lt. elim (ℕ_discrete j i) [
      | yes same ↦
          subst (λ q. SleeperOk (calm' j) (stamp' j) (expected' j) q)
            (sym out ∙ ap sleepers (sym same)) tt
      | no ne ↦
          subst (λ t. SleeperOk (calm' j) (stamp' j) t (sleepers j)) (sym (h j ne).0)
            (SleeperOk-keep (calm j) (calm' j) (stamp j) (stamp' j) (expected j) (sleepers j)
              (h j ne).1 (inv.each j lt))
    ];
  }

  module _ (few : n < 2 ^ 31) (i : ℕ) (lt : i < n) where
    -- Reader `i` goes to `q`, and the count with it.
    Watched-move :
        (w : ℕ) (q : Sleeper)
        → w + inside (sleepers i) ≡ waiters + inside q
        → SleeperOk (calm i) (stamp i) (expected i) q
        → Watched n expected calm stamp w (update sleepers i q)
    Watched-move w q e ok = record {
      counted = omega (arith, e, inv.counted, insiders-update sleepers i n q lt);
      each = λ j h. elim (ℕ_discrete i j) [
        | yes same ↦
            subst (λ t. SleeperOk (calm t) (stamp t) (expected t) (update sleepers i q t)) same
              (rw (update_self sleepers i q) ok)
        | no ne ↦ rw (update_ne sleepers i q j ne) (inv.each j h)
      ];
    }

    pub Watched-Sleep :
        {p q : Sleeper} {w : ℕ}
        → sleepers i ≡ p
        → Sleep (stamp i) waiters (expected i) p w q
        → Watched n expected calm stamp w (update sleepers i q)
    Watched-Sleep e announce =
        Watched-move _ announced (omega (arith, ap inside e, inv.counted, insiders-le sleepers n))
          tt
    Watched-Sleep e (see_published h) = Watched-move _ leaving (omega (arith, ap inside e)) tt
    Watched-Sleep e (see_behind h) =
        Watched-move _ (deciding (stamp i)) (omega (arith, ap inside e)) h
    Watched-Sleep e (fall_asleep {seen} h) =
        Watched-move _ (asleep seen) (omega (arith, ap inside e))
          (subst (SleeperOk (calm i) (stamp i) (expected i)) e (inv.each i lt), λ w. h)
    Watched-Sleep e (word_moved {seen} h) = Watched-move _ leaving (omega (arith, ap inside e)) tt
    Watched-Sleep e (wake_up {seen}) = Watched-move _ leaving (omega (arith, ap inside e)) tt
    Watched-Sleep e leave =
        Watched-move _ away
          (omega (
            arith,
            ap inside e,
            inv.counted,
            insiders-le sleepers n,
            insiders-pos sleepers i n lt (ap inside e),
          ))
          tt

  -- A sleeper under a calm word.
  pub Watched-asleep :
      (i seen : ℕ)
      → i < n
      → sleepers i ≡ asleep seen
      → calm i
      → (seen < expected i) × (u32 (stamp i) ≡ u32 seen)
  Watched-asleep i seen lt at still =
      let ok = subst (SleeperOk (calm i) (stamp i) (expected i)) at (inv.each i lt) in
      (ok.0, ok.1 still)
