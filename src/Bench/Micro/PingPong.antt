-- ===== src/Bench/Micro/PingPong.antt =====
-- In bench/ring_bench.cpp every message that is published is read whole and validated.
use shimmy.Common.{
  ℕ, zero, suc, ◌+◌, ◌≤◌, ◌<◌, ◌≡◌, inl, inr, refl, sym, ap, ◌∙◌, Bool, true, List, [], ◌∷◌, ◌++◌,
  some, arith, length, length-snoc, get_elem?-snoc, get_elem?,
}
use mathlib.Core.Path.{subst}
use shimmy.Config.{Config, overwrite, IsRingConfig}
use shimmy.Ring.{Ring, publish, slot_at, writing_seq}
use shimmy.Ring.Log.{Log}
use shimmy.Ring.Publish.{Logs}
use shimmy.Ring.Outcomes.{publish-Ensures}
use shimmy.Consumer.{
  Consumer, Status, ok, status_of, settle, validate, commit, publish_cursor, publish_cursor_for,
  view_for,
}
use shimmy.Consumer.Channel.{answer-cases, IsThere}
use shimmy.Consumer.Reads.{status_of-answer, stamp_resident, view-IsThere}
use shimmy.Bench.Latency.Recorded.{some_same}
use shimmy.Bench.Throughput.{ring_after}
use shimmy.Bench.Throughput.Drained.{copies, length-copies, copies-append, ring_after-Logs}
use shimmy.Bench.Micro.{ping, ping_pong}

-- Every iteration saw the whole message, and `validate` said true.
abbrev all_good : ℕ → List ℕ → List (List ℕ × Bool)
all_good zero msg = []
all_good (suc n) msg = (msg, true) ∷ all_good n msg

good_cons :
    {view msg : List ℕ} {valid : Bool} {seen good : List (List ℕ × Bool)}
    → view ≡ msg
    → valid ≡ true
    → seen ≡ good
    → (view, valid) ∷ seen ≡ (msg, true) ∷ good
good_cons e f g = cc

module _ {c : Config} (v : IsRingConfig c) (free : c.overflow ≡ overwrite) (msg : List ℕ)
    (fits : length msg ≤ c.block_size) where
  publish_cursor-free : (r : Ring) (k : Consumer) → publish_cursor c r k ≡ r
  unfolding publish_cursor publish_cursor_for
  publish_cursor-free r k = ap (λ o. publish_cursor_for o c r k) free

  -- The newest message is there.
  newest-IsThere : (log : Log) → IsThere c.capacity (log ++ (msg ∷ [])) (length log)
  newest-IsThere log = elim (answer-cases c.capacity (log ++ (msg ∷ [])) (length log)) [
    | inl t ↦ t
    | inr (inl g) ↦ absurd (omega (arith, g.far, length-snoc log msg, v.at_least_two))
    | inr (inr f) ↦ absurd (omega (arith, f.late, length-snoc log msg))
  ]

  record Pinged (log : Log) (o : List ℕ × Bool × Consumer × Ring) : Type 0 where
    view : o.0 ≡ msg
    valid : o.1 ≡ true
    next : o.2.next ≡ length log + 1
    at_rest : Logs c (log ++ (msg ∷ [])) o.3

  module _ (log : Log) (short : length log + 1 < writing_seq) (r' : Ring)
      (rest : Logs c (log ++ (msg ∷ [])) r') (k : Consumer) (at : k.next ≡ length log) where
    -- The iteration behind its `publish`, by the status of its read.
    abbrev behind : Status → List ℕ × Bool × Consumer × Ring
    behind s =
        let k' = settle k s in
        let (k'', r'') = commit c r' k' in
        (view_for k'.last_status c r' k', validate c r' k', k'', r'')

    behind-Pinged : Pinged log (behind ok)
    unfolding validate commit
    behind-Pinged =
        let long : length (log ++ (msg ∷ [])) < writing_seq =
          omega (arith, length-snoc log msg, short) in
        let t =
          subst (λ w. IsThere c.capacity (log ++ (msg ∷ [])) w) (sym at) (newest-IsThere log) in
        let stamp = stamp_resident v long rest.slots k.next t.old t.near in
        let same : some t.message ≡ some msg =
          sym t.at ∙ ap (get_elem? (log ++ (msg ∷ []))) at ∙ get_elem?-snoc log msg in
        record {
          view = view-IsThere v long rest k.next t ∙ some_same same;
          valid = ground (arith, stamp);
          next = omega (arith, at, short);
          at_rest = subst (λ q. Logs c (log ++ (msg ∷ [])) q) (sym (publish_cursor-free r' _)) rest;
        }

    found_ok : status_of (slot_at c r' k.next).seq k.next ≡ ok
    found_ok =
        let long : length (log ++ (msg ∷ [])) < writing_seq =
          omega (arith, length-snoc log msg, short) in
        let t =
          subst (λ w. IsThere c.capacity (log ++ (msg ∷ [])) w) (sym at) (newest-IsThere log) in
        status_of-answer v long rest k.next (omega (arith, at, short)) ∙ ap (λ p. p.0) t.answered

  ping-Pinged :
      (log : Log) (r : Ring) (k : Consumer)
      → length log + 1 < writing_seq
      → Logs c log r
      → k.next ≡ length log
      → Pinged log (ping c msg r k)
  unfolding ping
  ping-Pinged log r k short rest at =
      let r' = ring_after r (publish c 1 (λ _. r.cursors) r msg (length msg)) in
      let wrote =
        ring_after-Logs free msg fits log r _ (
          publish-Ensures c 1 (λ _. r.cursors) log r msg (length msg) (omega (arith, short))
            rest) in
      subst (λ s. Pinged log (behind log short r' wrote k at s))
        (sym (found_ok log short r' wrote k at)) (behind-Pinged log short r' wrote k at)

  record AllPinged (n : ℕ) (o : List (List ℕ × Bool) × Consumer × Ring) : Type 0 where
    seen : o.0 ≡ all_good n msg
    next : o.1.next ≡ n
    at_rest : Logs c (copies n msg) o.2

  -- From a fresh ring on, each of the iterations reads the message that it published, whole, and
  -- `validate` says true.
  ping_pong-AllPinged :
      (n : ℕ) (r : Ring) (k : Consumer)
      → n < writing_seq
      → Logs c [] r
      → k.next ≡ 0
      → AllPinged n (ping_pong c msg n r k)
  unfolding ping_pong
  ping_pong-AllPinged zero r k short rest at = record { seen = refl; next = at; at_rest = rest }
  ping_pong-AllPinged (suc n) r k short rest at =
      let before = ping_pong-AllPinged n r k (omega (arith, short)) rest at in
      let m = length-copies n msg in
      let (seen, k', r') = ping_pong c msg n r k in
      let one =
        ping-Pinged (copies n msg) r' k' (omega (arith, m, short)) before.at_rest
          (omega (arith, before.next, m)) in
      record {
        seen = good_cons one.view one.valid before.seen;
        next = omega (arith, one.next, m);
        at_rest =
            subst (λ l. Logs c l (ping c msg r' k').3)
              (copies-append n 1 msg
                ∙ ap (λ (t : ℕ). copies t msg) {x = n + 1} {y = suc n} (omega arith))
              one.at_rest;
      }
