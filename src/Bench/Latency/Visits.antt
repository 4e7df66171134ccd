-- ===== src/Bench/Latency/Visits.antt =====
-- A turn of the consumer of bench/latency_bench.cpp: on a ring at rest, its read returns with the
-- message and `validate` says true.
use shimmy.Common.{
  ℕ, ◌+◌, ◌≤◌, ◌<◌, ◌≡◌, inl, inr, refl, sym, ap, ◌∙◌, true, List, none, some, take, length,
  length-take, get_elem?, get_elem?-take_inv, arith,
}
use shimmy.Config.{Config, IsRingConfig}
use shimmy.Ring.{writing_seq}
use shimmy.Ring.Log.{Log}
use shimmy.Ring.Publish.{Logs}
use shimmy.Consumer.{Consumer, Status, ok, validate}
use shimmy.Consumer.Channel.{answer-cases}
use shimmy.Consumer.Reads.{stamp_resident}
use shimmy.WaitStrategy.{Blocked, Pause, read_blocking}
use shimmy.WaitStrategy.Blocking.{Awaits, Aimed, read_blocking-Awaits, read_blocking_from-Aimed}
use shimmy.Bench.Timing.{Hdr}
use shimmy.Bench.Latency.{Visit, Meter, accept, turn, turn_after, visit}

-- What the ring goes through in a turn of the consumer at message `n`, of the messages `log`: it is
-- at rest whenever it is looked at, the message is published in one of the rounds, and the ring is
-- never more than Capacity ahead, which is what Backpressure is for.
pub record Served (c : Config) (log : Log) (n : ℕ) (v : Visit) : Type 0 where
  pub known : ℕ → ℕ
  pub at_rest : (q : ℕ) → Logs c (take (known q) log) (v.rings q)
  pub near : (q : ℕ) → known q ≤ n + c.capacity
  pub in_time : (q : ℕ) × (q < v.rounds) × (n < known q)
  pub known_last : ℕ
  pub at_rest_last : Logs c (take known_last log) v.checked
  pub near_last : known_last ≤ n + c.capacity
  pub in_time_last : n < known_last

-- The read has returned `m`, and `validate` says true.
pub record Found (c : Config) (log : Log) (v : Visit) (k : Consumer) (b : Blocked) : Type 0 where
  pub m : List ℕ
  pub k' : Consumer
  pub pauses : List Pause
  pub returned : b ≡ some (m, k', pauses)
  pub published : get_elem? log k.next ≡ some m
  pub status : k'.last_status ≡ ok
  pub seq : k'.read_seq ≡ k.next
  pub valid : validate c v.checked k' ≡ true

module _ {c : Config} (ok_config : IsRingConfig c) (log : Log) (short : length log < writing_seq)
    (v : Visit) (k : Consumer) (old : k.next < length log) (served : Served c log k.next v) where
  short_prefix : (n : ℕ) → length (take n log) < writing_seq
  short_prefix n = omega (arith, length-take n log, short)

  valid_now : (k' : Consumer) → k'.read_seq ≡ k.next → validate c v.checked k' ≡ true
  unfolding validate
  valid_now k' seq =
      let stamp =
        stamp_resident ok_config (short_prefix served.known_last) served.at_rest_last.slots k.next
          (omega (arith, length-take served.known_last log, served.in_time_last, old))
          (omega (arith, length-take served.known_last log, served.near_last)) in
      rw seq (ground (arith, stamp))

  blocked-Found :
      (b : Blocked)
      → Awaits c (λ q. take (served.known q) log) v.rounds 0 k.next b
      → Aimed b
      → Found c log v k b
  blocked-Found none waits aimed =
      let (q, lt, there) = served.in_time in
      absurd (
        omega (
          arith,
          waits q (omega arith) (omega (arith, lt)),
          length-take (served.known q) log,
          there,
          old,
        ))
  blocked-Found (some (view, k', pauses)) (lt, there, is, stays, before) aimed =
      let p = 0 + length pauses in
      let count = length-take (served.known p) log in
      elim (answer-cases c.capacity (take (served.known p) log) k.next) [
        | inl t ↦
            let same : Path (Status × List ℕ) (k'.last_status, view) (ok, t.message) =
              is ∙ t.answered in
            let status : k'.last_status ≡ ok = ap (λ (s : Status × List ℕ). s.0) same in
            let seq : k'.read_seq ≡ k.next = aimed status ∙ stays in
            record {
              m = view;
              k' = k';
              pauses = pauses;
              returned = refl;
              published =
                  (get_elem?-take_inv (served.known p) log k.next t.at).1
                  ∙ ap some (sym (ap (λ (s : Status × List ℕ). s.1) same));
              status = status;
              seq = seq;
              valid = valid_now k' seq;
            }
        | inr (inl g) ↦ absurd (omega (arith, g.far, count, served.near p))
        | inr (inr f) ↦ absurd (omega (arith, f.late, there))
      ]

  pub read_blocking-Found : Found c log v k (read_blocking c v.rounds v.rings k)
  unfolding read_blocking
  read_blocking-Found =
      blocked-Found _
        (read_blocking-Awaits c (λ q. take (served.known q) log) ok_config v.rings served.at_rest
          (λ q. short_prefix (served.known q)) v.rounds k (omega (arith, old, short)))
        (read_blocking_from-Aimed c v.rounds v.rings 0 k)

module _ {H P : Type 0} (hdr : Hdr H P) {c : Config} (total warmup oh : ℕ) where
  -- A turn of the loop takes the message.
  pub visit-accept :
      {log : Log} (v : Visit) (m : Meter H)
      → (f : Found c log v m.consumer (read_blocking c v.rounds v.rings m.consumer))
      → visit hdr c total warmup oh v m ≡ some (accept hdr c total warmup oh v f.m f.k' m)
  unfolding turn
  visit-accept v m f =
      ap (turn_after hdr c total warmup oh v m) f.returned ∙ rw (f.status) (rw (f.valid) refl)
