-- ===== src/Bench/Latency/Sending.antt =====
-- What the producer of bench/latency_bench.cpp leaves in the ring.
use shimmy.Common.{
  ℕ, ◌+◌, ◌≤◌, inl, inr, sym, List, [], ◌∷◌, ◌++◌, Option, none, some, arith, length, length-snoc,
  map, Bool-cases,
}
use mathlib.Core.Path.{subst}
use mathlib.Core.List.{append_assoc, append-nil}
use shimmy.Config.{Config}
use shimmy.Ring.{Ring, Outcome, stalled, out_of_bounds, published, publish, writing_seq}
use shimmy.Ring.Log.{Log}
use shimmy.Ring.Publish.{Logs}
use shimmy.Ring.Outcomes.{Ensures, publish-Ensures}
use shimmy.Bench.Latency.{Tick, message, paced, send_all}

abbrev pub times : List Tick → List ℕ
times [] = []
times (t ∷ ticks) = t.send ∷ times ticks

-- The ring at rest after these messages, if the producer is through.
abbrev IsSentTo : Config → Log → Option Ring → Type 0
IsSentTo c log none = Unit {0}
IsSentTo c log (some r) = Logs c log r

module _ {c : Config} where
  -- When the producer is through, the messages with its send times have been published.
  send_all-Logs :
      (gap_ns next_send : ℕ) (ticks : List Tick) (log : Log) (r : Ring)
      → length log + length ticks ≤ writing_seq
      → Logs c log r
      → IsSentTo c (log ++ map message (times ticks)) (send_all c gap_ns next_send ticks r)
  unfolding send_all
  send_all-Logs gap_ns next_send [] log r short v = subst (λ t. Logs c t r) (sym (append-nil log)) v
  send_all-Logs gap_ns next_send (t ∷ ticks) log r short v =
      elim (Bool-cases (paced gap_ns next_send t.paces)) [
        | inr early ↦ rw early tt
        | inl due ↦ rw due (
            behind (publish c t.rounds t.cursors r (message t.send) 64)
              (publish-Ensures c t.rounds t.cursors log r (message t.send) 64 (omega (arith, short))
                v)
              (λ r' w.
                send_all-Logs gap_ns (t.send + gap_ns) ticks (log ++ (message t.send ∷ [])) r'
                  (omega (arith, short, length-snoc log (message t.send))) w))
      ]
    where
      behind :
          (o : Outcome)
          → Ensures c t.rounds t.cursors log r (message t.send) 64 o
          → ((r' : Ring)
              → Logs c (log ++ (message t.send ∷ [])) r'
              → IsSentTo c
                  ((log ++ (message t.send ∷ [])) ++ map message (times ticks))
                  (send_all c gap_ns (t.send + gap_ns) ticks r'))
          → IsSentTo c (log ++ (message t.send ∷ map message (times ticks))) (elim o [
            | stalled ↦ none
            | out_of_bounds ↦ none
            | published seq woke r' ↦ send_all c gap_ns (t.send + gap_ns) ticks r'
          ])
      behind stalled e rest = tt
      behind out_of_bounds e rest = tt
      behind (published seq woke r') e rest =
          subst (λ l. IsSentTo c l (send_all c gap_ns (t.send + gap_ns) ticks r'))
            (append_assoc log (message t.send ∷ []) (map message (times ticks))) (rest r' e.2)
