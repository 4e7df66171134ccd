-- ===== src/Consumer/Channel.antt =====
-- What a channel promises to one reader (DESIGN.md, sections 2 and 3): the messages published so
-- far, in order, of which the last `capacity` can still be read.
use shimmy.Common.{
  ℕ, ◌+◌, ◌≤◌, ◌<◌, ◌≡◌, ◌⊎◌, inl, inr, List, [], none, some, leb, if◌then◌else◌, length, get_elem?,
  get_elem?-some, get_elem?-none, arith, Bool-cases,
}
use native.Mathlib.Decide.{dec_lt}
use shimmy.Consumer.{Status, ok, empty, lapped}
use shimmy.Ring.Log.{Log}

-- The answer to a reader that wants message `want`.
unfoldable pub answer : ℕ → Log → ℕ → Status × List ℕ
answer capacity log want = elim (get_elem? log want) [
  | none ↦ (empty, [])
  | some m ↦ if leb (length log) (want + capacity) then (ok, m) else (lapped, [])
]

module _ (capacity : ℕ) (log : Log) (want : ℕ) where
  -- The message is there.
  pub record IsThere : Type 0 where
    pub message : List ℕ
    pub at : get_elem? log want ≡ some message
    pub old : want < length log
    pub near : length log ≤ want + capacity
    pub answered : answer capacity log want ≡ (ok, message)

  -- It is gone.
  pub record IsGone : Type 0 where
    pub far : want + capacity < length log
    pub answered : answer capacity log want ≡ (lapped, [])

  -- It is still to come.
  pub record IsToCome : Type 0 where
    pub late : length log ≤ want
    pub answered : answer capacity log want ≡ (empty, [])

  pub answer-cases : IsThere ⊎ IsGone ⊎ IsToCome
  unfolding answer
  answer-cases = elim (dec_lt want (length log)) [
    | yes old ↦
        let (m, e) = get_elem?-some log want old in
        elim (Bool-cases (leb (length log) (want + capacity))) [
          | inl near ↦ inl (record {
            message = m;
            at = e;
            old = old;
            near = ground arith;
            answered = rw (e, answer, near);
          })
          | inr far ↦ inr (inl (record { far = ground arith; answered = rw (e, answer, far) }))
        ]
    | no new ↦
        let e = get_elem?-none log want (omega arith) in
        inr (inr (record { late = omega arith; answered = rw (e, answer) }))
  ]
