-- ===== src/System/Growth.antt =====
-- What the invariant's parts become when the producer stores to the slot of the next message
-- (`publish` in include/shimmy/ring.hpp).
use shimmy.Common.{
  ℕ, ◌<◌, ◌≡◌, inl, inr, sym, Bool, true, false, List, [], ◌∷◌, ◌++◌, arith, length, length-snoc,
  get_elem?-append, get_elem?-snoc_inv, update,
}
use native.Mathlib.Decide.{ℕ_discrete}
use shimmy.Config.{Config, index}
use shimmy.Ring.{Slot}
use shimmy.Ring.Log.{Log}
use shimmy.System.{ReaderPc, polling, holding, viewing, accepted, lapsed, Got}
use shimmy.System.Invariant.{ReaderOk, Views, InOrder, Gapless, IsPrefix}

module _ (c : Config) (log : Log) where
  pub ReaderOk-touch :
      (slots : ℕ → Slot) (flux : Bool) (new : Slot) (q : ReaderPc)
      → ReaderOk c log flux slots q
      → ReaderOk c log true (update slots (index c (length log)) new) q
  ReaderOk-touch slots flux new (polling next) v = v
  ReaderOk-touch slots flux new (holding want) v = v
  ReaderOk-touch slots flux new (viewing want len bytes) v = (v.0, λ e. ground (arith, v.1))
  ReaderOk-touch slots flux new (accepted want bytes) v = v
  ReaderOk-touch slots flux new (lapsed next) v = v

  pub ReaderOk-busy :
      (slots : ℕ → Slot) (q : ReaderPc) → ReaderOk c log false slots q → ReaderOk c log true slots q
  ReaderOk-busy slots (polling next) v = v
  ReaderOk-busy slots (holding want) v = v
  ReaderOk-busy slots (viewing want len bytes) v = (v.0, λ e. ground (arith, v.1 e))
  ReaderOk-busy slots (accepted want bytes) v = v
  ReaderOk-busy slots (lapsed next) v = v

  IsPrefix-grow :
      (m : List ℕ) (want len : ℕ) (bytes : List ℕ)
      → want < length log
      → IsPrefix log want len bytes
      → IsPrefix (log ++ (m ∷ [])) want len bytes
  IsPrefix-grow m want len bytes old v k e =
      ground (arith, v k, get_elem?-snoc_inv log m want {a = k} e)

  -- A view of an older message is not of the slot that has just been stamped.
  Views-publish :
      (slots : ℕ → Slot) (new : Slot) (want len : ℕ) (bytes : List ℕ)
      → new.seq ≡ length log
      → want < length log
      → Views c log true slots want len bytes
      → (update slots (index c (length log)) new (index c want)).seq ≡ want
      → IsPrefix log want len bytes
  Views-publish slots new want len bytes e old v here =
      elim (ℕ_discrete (index c (length log)) (index c want)) [
        | yes same ↦ absurd (ground arith)
        | no other ↦ elim (v (ground arith)) [
          | inl flux ↦ absurd (other (sym flux.0))
          | inr prefix ↦ prefix
        ]
      ]

  pub ReaderOk-publish :
      (slots : ℕ → Slot) (new : Slot) (m : List ℕ) (q : ReaderPc)
      → new.seq ≡ length log
      → ReaderOk c log true slots q
      → ReaderOk c (log ++ (m ∷ [])) false (update slots (index c (length log)) new) q
  ReaderOk-publish slots new m (polling next) e v = omega (arith, length-snoc log m)
  ReaderOk-publish slots new m (holding want) e v = omega (arith, length-snoc log m)
  ReaderOk-publish slots new m (viewing want len bytes) e v = (
    omega (arith, length-snoc log m),
    λ here. inr (
        IsPrefix-grow m want len bytes v.0 (Views-publish slots new want len bytes e v.0 v.1 here)),
  )
  ReaderOk-publish slots new m (accepted want bytes) e v = get_elem?-append log (m ∷ []) want v
  ReaderOk-publish slots new m (lapsed next) e v = omega (arith, length-snoc log m)

pub InOrder-grow :
    (log : Log) (m : List ℕ) (bound : ℕ) (got : Got)
    → InOrder log bound got
    → InOrder (log ++ (m ∷ [])) bound got
InOrder-grow log m bound [] v = tt
InOrder-grow log m bound ((s, k) ∷ got) v =
    (v.0, get_elem?-append log (m ∷ []) s v.1, InOrder-grow log m s got v.2)

pub Gapless-grow :
    (log : Log) (m : List ℕ) (bound : ℕ) (got : Got)
    → Gapless log bound got
    → Gapless (log ++ (m ∷ [])) bound got
Gapless-grow log m bound [] v = v
Gapless-grow log m bound ((s, k) ∷ got) v =
    (v.0, get_elem?-append log (m ∷ []) s v.1, Gapless-grow log m s got v.2)
