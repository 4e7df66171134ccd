-- ===== src/WaitStrategy/Blocking.antt =====
-- What `read_blocking` of include/shimmy/ring.hpp returns, and when, by the strategies of
-- include/shimmy/wait_strategy.hpp.
use shimmy.Common.{
  ℕ, zero, suc, ◌+◌, ◌≤◌, ◌<◌, ◌≡◌, inl, inr, refl, sym, ap, ◌∙◌, List, [], none, some, length,
  arith,
}
use mathlib.Core.Path.{subst}
use native.Mathlib.Decide.{ℕ_discrete}
use shimmy.Config.{Config, IsRingConfig}
use shimmy.Ring.{Ring, slot_at, writing_seq}
use shimmy.Ring.Log.{Log}
use shimmy.Ring.Publish.{Logs}
use shimmy.Consumer.{Consumer, Status, ok, empty, lapped, status_of, settle}
use shimmy.Consumer.Channel.{answer, answer-cases}
use shimmy.Consumer.Reads.{status_of-answer, view-IsThere}
use shimmy.WaitStrategy.{Pause, Blocked, after_wait, round_for, read_blocking_from, read_blocking}

pub round_by_status :
    (c : Config) (fuel : ℕ) (seen : ℕ → Ring) (iter : ℕ) (k : Consumer) (st : Status)
    → status_of (slot_at c (seen iter) k.next).seq k.next ≡ st
    → read_blocking_from c (suc fuel) seen iter k
      ≡ round_for st c
          (seen iter)
          iter
          (settle k st)
          (read_blocking_from c fuel seen (iter + 1) (settle k st))
unfolding read_blocking_from
round_by_status c fuel seen iter k ok e =
    ap
      (λ s.
        round_for (settle k s).last_status c (seen iter) iter (settle k s)
          (read_blocking_from c fuel seen (iter + 1) (settle k s)))
      e
round_by_status c fuel seen iter k empty e =
    ap
      (λ s.
        round_for (settle k s).last_status c (seen iter) iter (settle k s)
          (read_blocking_from c fuel seen (iter + 1) (settle k s)))
      e
round_by_status c fuel seen iter k lapped e =
    ap
      (λ s.
        round_for (settle k s).last_status c (seen iter) iter (settle k s)
          (read_blocking_from c fuel seen (iter + 1) (settle k s)))
      e

-- A read that returns ok is of the message that the consumer is at.
abbrev pub Aimed : Blocked → Type 0
Aimed none = Unit {0}
Aimed (some (view, k, pauses)) = k.last_status ≡ ok → k.read_seq ≡ k.next

Aimed-after_wait : (p : Pause) (o : Blocked) → Aimed o → Aimed (after_wait p o)
Aimed-after_wait p none v = v
Aimed-after_wait p (some (view, k, pauses)) v = v

Aimed-round :
    (st : Status) (c : Config) (r : Ring) (iter : ℕ) (k : Consumer) (again : Blocked)
    → Aimed again
    → Aimed (round_for st c r iter (settle k st) again)
Aimed-round ok c r iter k again v = λ e. refl
Aimed-round lapped c r iter k again v = λ e. absurd (cc)
Aimed-round empty c r iter k again v = Aimed-after_wait _ again v

pub read_blocking_from-Aimed :
    (c : Config) (fuel : ℕ) (seen : ℕ → Ring) (iter : ℕ) (k : Consumer)
    → Aimed (read_blocking_from c fuel seen iter k)
unfolding read_blocking_from
read_blocking_from-Aimed c zero seen iter k = tt
read_blocking_from-Aimed c (suc fuel) seen iter k =
    let st = status_of (slot_at c (seen iter) k.next).seq k.next in
    let again = read_blocking_from c fuel seen (iter + 1) (settle k st) in
    subst Aimed (sym (round_by_status c fuel seen iter k st refl)) (
      Aimed-round st c (seen iter) iter k again
        (read_blocking_from-Aimed c fuel seen (iter + 1) (settle k st)))

module _ (c : Config) (logs : ℕ → Log) where
  -- How the loop ends from round `iter` on: it waited while its message was not published, and
  -- returned the channel's answer in the first round in which it was.
  abbrev pub Awaits : ℕ → ℕ → ℕ → Blocked → Type 0
  Awaits fuel iter next none = (q : ℕ) → iter ≤ q → q < iter + fuel → length (logs q) ≤ next
  Awaits fuel iter next (some (view, k', pauses)) =
      (length pauses < fuel)
      × (next < length (logs (iter + length pauses)))
      × ((k'.last_status, view) ≡ answer c.capacity (logs (iter + length pauses)) next)
      × (k'.next ≡ next)
      × ((q : ℕ) → iter ≤ q → q < iter + length pauses → length (logs q) ≤ next)

  Awaits-after_wait :
      (fuel iter next : ℕ) (p : Pause) (o : Blocked)
      → length (logs iter) ≤ next
      → Awaits fuel (iter + 1) next o
      → Awaits (suc fuel) iter next (after_wait p o)
  Awaits-after_wait fuel iter next p none early rest = λ q lo hi. elim (ℕ_discrete iter q) [
    | yes e ↦ subst (λ (t : ℕ). length (logs t) ≤ next) e early
    | no ne ↦ rest q (omega arith) (omega arith)
  ]
  Awaits-after_wait fuel iter next p (some (view, k', pauses)) early (lt, old, is, stays, waited) =
      let at : iter + 1 + length pauses ≡ iter + suc (length pauses) = omega arith in
      (
        omega arith,
        subst (λ (t : ℕ). next < length (logs t)) at old,
        subst (λ (t : ℕ). (k'.last_status, view) ≡ answer c.capacity (logs t) next) at is,
        stays,
        λ q lo hi. elim (ℕ_discrete iter q) [
          | yes e ↦ subst (λ (t : ℕ). length (logs t) ≤ next) e early
          | no ne ↦ waited q (omega arith) (omega arith)
        ],
      )

  module _ (v : IsRingConfig c) (seen : ℕ → Ring) (at_rest : (q : ℕ) → Logs c (logs q) (seen q))
      (short : (q : ℕ) → length (logs q) < writing_seq) where
    -- A round that returns.
    Awaits-now :
        (fuel iter : ℕ) (k : Consumer) (view : List ℕ) (k' : Consumer)
        → k.next < length (logs iter)
        → (k'.last_status, view) ≡ answer c.capacity (logs iter) k.next
        → k'.next ≡ k.next
        → Awaits (suc fuel) iter k.next (some (view, k', []))
    Awaits-now fuel iter k view k' old is stays =
        let at : iter ≡ iter + 0 = omega arith in
        (
          omega arith,
          subst (λ (t : ℕ). k.next < length (logs t)) at old,
          subst (λ (t : ℕ). (k'.last_status, view) ≡ answer c.capacity (logs t) k.next) at is,
          stays,
          λ q lo hi. absurd (omega arith),
        )

    read_blocking_from-Awaits :
        (fuel iter : ℕ) (k : Consumer)
        → k.next < writing_seq
        → Awaits fuel iter k.next (read_blocking_from c fuel seen iter k)
    unfolding read_blocking_from
    read_blocking_from-Awaits zero iter k sane = λ q lo hi. absurd (omega arith)
    read_blocking_from-Awaits (suc fuel) iter k sane =
        let found = status_of-answer v (short iter) (at_rest iter) k.next sane in
        elim (answer-cases c.capacity (logs iter) k.next) [
          | inl t ↦ rw (round_by_status c fuel seen iter k ok (found ∙ ap (λ p. p.0) t.answered)) (
              Awaits-now fuel iter k _ (settle k ok) t.old
                (ap (λ b. (ok, b)) (view-IsThere v (short iter) (at_rest iter) k.next t)
                  ∙ sym t.answered)
                refl)
          | inr (inl g) ↦
              rw (round_by_status c fuel seen iter k lapped (found ∙ ap (λ p. p.0) g.answered)) (
                Awaits-now fuel iter k [] (settle k lapped) (omega (arith, g.far)) (sym g.answered)
                  refl)
          | inr (inr f) ↦
              rw (round_by_status c fuel seen iter k empty (found ∙ ap (λ p. p.0) f.answered)) (
                Awaits-after_wait fuel iter k.next _ _ f.late
                  (read_blocking_from-Awaits fuel (iter + 1) (settle k empty) sane))
        ]

    -- Under the static assertions of `Ring`, when the ring is at rest after some log, shorter than
    -- writing_seq, in every round, and `next_` is below writing_seq: `read_blocking` returns in
    -- the first round in which the message is published, with the status and bytes that the
    -- channel answers then, `next_` unchanged, and one call of `wait` for each round before. If it
    -- has not returned after `fuel` rounds, the message was unpublished in each.
    pub read_blocking-Awaits :
        (fuel : ℕ) (k : Consumer)
        → k.next < writing_seq
        → Awaits fuel 0 k.next (read_blocking c fuel seen k)
    unfolding read_blocking
    read_blocking-Awaits fuel k sane = read_blocking_from-Awaits fuel 0 k sane
