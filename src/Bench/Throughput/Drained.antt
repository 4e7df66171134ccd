-- ===== src/Bench/Throughput/Drained.antt =====
-- What a repetition of bench/throughput_bench.cpp does to its ring, and what its readers count.
use shimmy.Common.{
  pos, ℕ, zero, suc, ◌+◌, ◌≤◌, ◌<◌, ◌≡◌, inl, inr, refl, sym, ap, ◌∙◌, List, [], ◌∷◌, ◌++◌, arith,
  length, length-snoc, length-take, take, take_all,
}
use mathlib.Core.Path.{subst}
use mathlib.Core.List.{append_assoc, append-nil}
use shimmy.Config.{Config, IsRingConfig, overwrite}
use shimmy.Ring.{
  Ring, Outcome, published, stalled, out_of_bounds, publish, init, slot_at, writing_seq,
}
use shimmy.Ring.Log.{Log}
use shimmy.Ring.Publish.{Logs, init-Logs}
use shimmy.Ring.Outcomes.{Ensures, publish-Ensures}
use shimmy.Consumer.{Consumer, Status, ok, empty, lapped, status_of, settle, commit, resync, attach}
use shimmy.Consumer.Channel.{answer, answer-cases}
use shimmy.Consumer.Reads.{status_of-answer}
use shimmy.Bench.Latency.Samples.{attach_for-next}
use shimmy.Bench.Timing.{max_i64, IsLeast, best_of-IsLeast}
use shimmy.Bench.Throughput.{drain_for, drain, ring_after, publish_times, repetition, run_cell}

-- `n` times the same message.
abbrev pub copies : ℕ → List ℕ → Log
copies zero msg = []
copies (suc n) msg = msg ∷ copies n msg

module _ {c : Config} (free : c.overflow ≡ overwrite) (msg : List ℕ)
    (fits : length msg ≤ c.block_size) where
  pub ring_after-Logs :
      (log : Log) (r : Ring) (o : Outcome)
      → Ensures c 1 (λ _. r.cursors) log r msg (length msg) o
      → Logs c (log ++ (msg ∷ [])) (ring_after r o)
  ring_after-Logs log r stalled e = absurd (cc (e.0.0, free))
  ring_after-Logs log r out_of_bounds e = absurd (ground (arith, e, fits))
  ring_after-Logs log r (published seq woke r') e =
      subst (λ t. Logs c (log ++ (t ∷ [])) r') (take_all (length msg) msg (omega arith)) e.2

  pub publish_times-Logs :
      (n : ℕ) (log : Log) (r : Ring)
      → length log + n ≤ writing_seq
      → Logs c log r
      → Logs c (log ++ copies n msg) (publish_times c msg n r)
  unfolding publish_times
  publish_times-Logs zero log r short v = subst (λ t. Logs c t r) (sym (append-nil log)) v
  publish_times-Logs (suc n) log r short v =
      let r' = ring_after r (publish c 1 (λ _. r.cursors) r msg (length msg)) in
      let one =
        ring_after-Logs log r _
          (publish-Ensures c 1 (λ _. r.cursors) log r msg (length msg) (omega (arith, short)) v) in
      subst (λ t. Logs c t (publish_times c msg n r')) (append_assoc log (msg ∷ []) (copies n msg))
        (publish_times-Logs n (log ++ (msg ∷ [])) r' (omega (arith, length-snoc log msg, short))
          one)

-- What a reader finds at each of its reads: the ring at rest after some of the messages, and a count
-- for `resync` that is taken later.
abbrev pub IsWatched : Config → Log → List (Ring × ℕ) → Type 0
IsWatched c log [] = Unit {0}
IsWatched c log ((r, count) ∷ rings) =
    ((known : ℕ) × Logs c (take known log) r × (length (take known log) ≤ count))
    × (count ≤ length log)
    × IsWatched c log rings

-- A reader has counted no more messages than it has gone past, and these are published.
abbrev pub IsCounted : Log → Consumer × ℕ → Type 0
IsCounted log (k, got) = (got ≤ k.next) × (k.next ≤ length log)

last_status-settle : (k : Consumer) (st : Status) → (settle k st).last_status ≡ st
last_status-settle k ok = refl
last_status-settle k empty = refl
last_status-settle k lapped = refl

unlike_lapped : Path Status ok lapped → ⊥
unlike_lapped e = cc

unlike_empty : Path Status ok empty → ⊥
unlike_empty e = cc

empty_lapped : Path Status lapped empty → ⊥
empty_lapped e = cc

module _ {c : Config} (ok_config : IsRingConfig c) (log : Log)
    (short : length log < writing_seq) where
  drain_for-IsCounted :
      (st : Status) (r : Ring) (known count : ℕ) (k : Consumer) (got : ℕ)
      → length (take known log) ≤ count
      → count ≤ length log
      → st ≡ (answer c.capacity (take known log) k.next).0
      → IsCounted log (k, got)
      → IsCounted log (drain_for st c r count (settle k st) got)
  unfolding commit resync
  drain_for-IsCounted ok r known count k got late most is v =
      let n = length-take known log in
      elim (answer-cases c.capacity (take known log) k.next) [
        | inl t ↦ omega (arith, v, t.old, n, short)
        | inr (inl g) ↦ absurd (unlike_lapped (is ∙ ap (λ p. p.0) g.answered))
        | inr (inr f) ↦ absurd (unlike_empty (is ∙ ap (λ p. p.0) f.answered))
      ]
  drain_for-IsCounted empty r known count k got late most is v = v
  drain_for-IsCounted lapped r known count k got late most is v =
      elim (answer-cases c.capacity (take known log) k.next) [
        | inl t ↦ absurd (unlike_lapped (sym (is ∙ ap (λ p. p.0) t.answered)))
        | inr (inl g) ↦ ground (arith, v, g.far, late, most)
        | inr (inr f) ↦ absurd (empty_lapped (is ∙ ap (λ p. p.0) f.answered))
      ]

  -- However often and whenever a reader reads, it has counted at most as many messages as it has
  -- gone past, and these have been published.
  drain-IsCounted :
      (rings : List (Ring × ℕ)) (k : Consumer) (got : ℕ)
      → IsWatched c log rings
      → IsCounted log (k, got)
      → IsCounted log (drain c rings k got)
  unfolding drain
  drain-IsCounted [] k got watched v = v
  drain-IsCounted ((r, count) ∷ rings) k got ((known, at_rest, late), most, watched) v =
      let st = status_of (slot_at c r k.next).seq k.next in
      let is =
        status_of-answer ok_config (omega (arith, length-take known log, short)) at_rest k.next
          (omega (arith, v, short)) in
      subst
        (λ s. IsCounted log (
          drain c rings (drain_for s c r count (settle k st) got).0
            (drain_for s c r count (settle k st) got).1))
        (sym (last_status-settle k st))
        (drain-IsCounted rings _ _ watched
          (drain_for-IsCounted st r known count k got late most is v))

pub length-copies : (n : ℕ) (msg : List ℕ) → length (copies n msg) ≡ n
length-copies zero msg = refl
length-copies (suc n) msg = ap suc (length-copies n msg)

pub copies-append : (n m : ℕ) (msg : List ℕ) → copies n msg ++ copies m msg ≡ copies (n + m) msg
copies-append zero m msg = ap (λ (t : ℕ). copies t msg) {x = m} (omega arith)
copies-append (suc n) m msg =
    ap (λ l. msg ∷ l) (copies-append n m msg)
    ∙ ap (λ (t : ℕ). copies t msg) {x = suc (n + m)} (omega arith)

module _ {c : Config} (ok_config : IsRingConfig c) (free : c.overflow ≡ overwrite) (msg : List ℕ)
    (fits : length msg ≤ c.block_size) (warmup messages : ℕ)
    (short : warmup + messages < writing_seq) where
  -- Under Overwrite, for a message that fits the block and fewer than writing_seq messages in all:
  -- the ring of a repetition ends at rest with exactly warmup + messages copies of the message
  -- published; a reader that attaches first and finds the ring at rest at each of its reads, and
  -- resyncs to a count that is taken later, has counted at most as many; and the cell keeps the
  -- least positive time between the clock readings of the repetitions, or INT64_MAX if none is
  -- below that.
  pub run_cell-repetition :
      (consumers : ℕ) (clocks : List (ℕ × ℕ)) (region : Ring) (rings : List (Ring × ℕ))
      → IsWatched c (copies (warmup + messages) msg) rings
      → Logs c (copies (warmup + messages) msg) (repetition c warmup messages msg region)
        × ((drain c rings (attach c (init c region)).0 0).1 ≤ warmup + messages)
        × IsLeast max_i64 clocks
            (run_cell c.block_size consumers (pos messages) clocks).best_elapsed_ns
  unfolding run_cell attach
  run_cell-repetition consumers clocks region rings watched =
      let warm =
        publish_times-Logs free msg fits warmup [] (init c region) (omega (arith, short))
          (init-Logs region ok_config) in
      let all =
        publish_times-Logs free msg fits messages (copies warmup msg) _
          (omega (arith, short, length-copies warmup msg)) warm in
      let n = length-copies (warmup + messages) msg in
      let counted =
        drain-IsCounted ok_config (copies (warmup + messages) msg) (omega (arith, n, short)) rings
          (attach c (init c region)).0 0 watched
          (omega arith, omega (arith, attach_for-next c.overflow c (init c region))) in
      (
        subst (λ t. Logs c t (repetition c warmup messages msg region))
            (copies-append warmup messages msg) all,
        omega (arith, counted, n),
        best_of-IsLeast max_i64 clocks,
      )
