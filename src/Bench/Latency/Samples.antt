-- ===== src/Bench/Latency/Samples.antt =====
-- What the run of bench/latency_bench.cpp records: one sample for each message after the warmup, of
-- that message's own send time.
use shimmy.Common.{
  ℕ, zero, suc, ◌+◌, ◌-◌, ◌^◌, ◌<◌, ◌≡◌, inl, inr, refl, sym, ap, ◌∙◌, true, List, [], ◌∷◌, Option,
  none, some, ltb, leb, if◌then◌else◌, drop, length, get_elem?, get_elem?-lt, length-drop, u64, pos,
  arith, Bool-cases, map,
}
use mathlib.Core.Path.{subst}
use shimmy.Config.{Config, Overflow, overwrite, backpressure, IsRingConfig}
use shimmy.Ring.{Ring, writing_seq}
use shimmy.Ring.Log.{Log}
use shimmy.Consumer.{Consumer, lapped, attach, attach_for, commit}
use shimmy.Bench.Timing.{Hdr, record_value, histogram, hist_max_ns}
use shimmy.Bench.Latency.{
  message, send_time, latency, Visit, Meter, accept, turn, visit, run, run_consumer,
}
use shimmy.Bench.Latency.Stamps.{send_time-message}
use shimmy.Bench.Latency.Visits.{Served, read_blocking-Found, visit-accept}
use shimmy.Bench.Latency.Recorded.{
  sample, sample_list, length-sample_list, recorded, recorded-nil, recorded-cons,
  recorded-record_value, AllServed, IsSent, IsSent-tail, some_number, some_same, Recorded,
}

module _ {H P : Type 0} (hdr : Hdr H P) {c : Config} (ok_config : IsRingConfig c) (log : Log)
    (short : length log < writing_seq) (total warmup oh : ℕ) where
  drop-nil : (n : ℕ) → drop {A = ℕ} n [] ≡ []
  drop-nil zero = refl
  drop-nil (suc n) = refl

  -- The samples that are kept of those that begin with message `n`'s.
  kept_first :
      (n x : ℕ) (xs : List ℕ) (h h' : Option H)
      → h' ≡ (if leb warmup n then recorded hdr (x ∷ []) h else h)
      → recorded hdr (drop (warmup - (n + 1)) xs) h' ≡ recorded hdr (drop (warmup - n) (x ∷ xs)) h
  kept_first n x xs h h' e = elim (Bool-cases (leb warmup n)) [
    | inl late ↦
        let is : h' ≡ recorded hdr (x ∷ []) h =
          subst (λ b. h' ≡ (if b then recorded hdr (x ∷ []) h else h)) late e in
        ap (λ (t : ℕ). recorded hdr (drop t xs) h') {x = warmup - (n + 1)} {y = 0}
          (ground (arith, late))
        ∙ ap (recorded hdr xs) is
        ∙ recorded-cons hdr x xs h
        ∙ ap (λ (t : ℕ). recorded hdr (drop t (x ∷ xs)) h) {x = 0} {y = warmup - n}
            (ground (arith, late))
    | inr early ↦
        let is : h' ≡ h = subst (λ b. h' ≡ (if b then recorded hdr (x ∷ []) h else h)) early e in
        ap (recorded hdr (drop (warmup - (n + 1)) xs)) is
        ∙ ap (λ (t : ℕ). recorded hdr (drop t (x ∷ xs)) h) {x = suc (warmup - (n + 1))}
            {y = warmup - n} (ground (arith, early))
  ]

  -- What a turn at a message that was sent at `send` leaves.
  accept-hist :
      (v : Visit) (m : Meter H) (view : List ℕ) (k : Consumer) (send : ℕ)
      → view ≡ message send
      → send < 2 ^ 63
      → (accept hdr c total warmup oh v view k m).hist
        ≡ (if leb warmup m.seen then recorded hdr (sample oh v.recv send ∷ []) m.hist else m.hist)
  accept-hist v m view k send is small =
      let time = ap send_time is ∙ send_time-message send small in
      let one =
        sym (recorded-nil hdr (record_value hdr m.hist (latency v.recv (pos send) oh)))
        ∙ recorded-record_value hdr oh v.recv send [] m.hist in
      ap (λ h. if leb warmup m.seen then h else m.hist)
        (ap (λ t. record_value hdr m.hist (latency v.recv t oh)) time ∙ one)

  accept-next :
      (v : Visit) (m : Meter H) (view : List ℕ) (k : Consumer)
      → k.read_seq ≡ m.seen
      → m.seen < length log
      → (accept hdr c total warmup oh v view k m).consumer.next ≡ m.seen + 1
  unfolding commit
  accept-next v m view k e old = omega (arith, e, old, short)

  run-visit :
      (v : Visit) (visits : List Visit) (m m' : Meter H)
      → m.seen < total
      → visit hdr c total warmup oh v m ≡ some m'
      → run hdr c total warmup oh (v ∷ visits) m ≡ run hdr c total warmup oh visits m'
  unfolding run
  run-visit v visits m m' more e =
      let go : ltb m.seen total ≡ true = ground arith in
      ap
        (λ b.
          if b
          then elim (visit hdr c total warmup oh v m) [
            | none ↦ none
            | some m'' ↦ run hdr c total warmup oh visits m''
          ]
          else some m)
        go
      ∙ ap
          (λ o. elim o as (λ x. Option (Meter H)) [
            | none ↦ none
            | some m'' ↦ run hdr c total warmup oh visits m''
          ])
          e

  run-Recorded :
      (visits : List Visit) (sends : List ℕ) (m : Meter H)
      → length visits ≡ length sends
      → m.seen + length visits ≡ total
      → m.consumer.next ≡ m.seen
      → AllServed c log m.seen visits
      → IsSent log m.seen sends
      → Recorded hdr total
          (drop (warmup - m.seen) (sample_list oh visits sends))
          m
          (run hdr c total warmup oh visits m)
  unfolding run
  run-Recorded [] sends m same all at served sent = record {
    m' = m;
    ends = refl;
    seen = omega (arith, all);
    next = omega (arith, at, all);
    hist =
        sym
          (ap (λ t. recorded hdr t m.hist) (drop-nil (warmup - m.seen)) ∙ recorded-nil hdr m.hist);
  }
  run-Recorded (v ∷ visits) [] m same all at served sent = absurd (omega (arith, same))
  run-Recorded (v ∷ visits) (send ∷ sends) m same all at served sent =
      let (small, here) = sent 0 send refl in
      let there : get_elem? log m.consumer.next ≡ some (message send) =
        ap (get_elem? log) {x = m.consumer.next} {y = m.seen + 0} (omega (arith, at)) ∙ here in
      let old = get_elem?-lt log m.consumer.next there in
      let f =
        read_blocking-Found ok_config log short v m.consumer old
          (subst (λ t. Served c log t v) (sym at) served.0) in
      let is : f.m ≡ message send = some_same (sym f.published ∙ there) in
      let m1 = accept hdr c total warmup oh v f.m f.k' m in
      let rest =
        run-Recorded visits sends m1 (omega (arith, same)) (omega (arith, all))
          (accept-next v m f.m f.k' (f.seq ∙ at) (omega (arith, old, at))) served.1
          (IsSent-tail log m.seen send sends sent) in
      record {
        m' = rest.m';
        ends =
            run-visit v visits m m1 (omega (arith, all)) (visit-accept hdr total warmup oh v m f)
            ∙ rest.ends;
        seen = rest.seen;
        next = rest.next;
        hist =
            rest.hist
            ∙ kept_first m.seen (sample oh v.recv send) (sample_list oh visits sends) m.hist m1.hist
                (accept-hist v m f.m f.k' send is small);
      }

pub attach_for-next : (o : Overflow) (c : Config) (r : Ring) → (attach_for o c r).0.next ≡ 0
unfolding attach_for
attach_for-next overwrite c r = refl
attach_for-next backpressure c r = refl

length-map : (sends : List ℕ) → length (map message sends) ≡ length sends
length-map [] = refl
length-map (send ∷ sends) = ap suc (length-map sends)

get_elem?-map :
    (sends : List ℕ) (i send : ℕ)
    → get_elem? sends i ≡ some send
    → get_elem? (map message sends) i ≡ some (message send)
get_elem?-map [] i send e = absurd (cc)
get_elem?-map (s ∷ sends) zero send e = ap (λ (t : ℕ). some (message t)) (some_number e)
get_elem?-map (s ∷ sends) (suc i) send e = get_elem?-map sends i send e

-- The samples of the messages after the warmup.
abbrev pub kept_samples : ℕ → ℕ → List Visit → List ℕ → List ℕ
kept_samples warmup oh visits sends = drop warmup (sample_list oh visits sends)

module _ {H P : Type 0} (hdr : Hdr H P) {c : Config} (ok_config : IsRingConfig c)
    (warmup measured oh : ℕ) where
  -- When the ring is at rest after some of the messages at each of the consumer's accesses, the
  -- message it is at is published in one of the rounds of its `read_blocking`, and the ring is at
  -- most Capacity ahead of it: the consumer of the latency run ends after warmup + measured turns
  -- with as many messages counted, and the histogram holds exactly `measured` samples more than a
  -- new one. They are those of the messages after the warmup, in order, each the time between that
  -- message's own send time, as the producer wrote it into the payload, and its receipt, less the
  -- overhead of the clock, or 1 if this is not positive. Send times are below 2^63, and there are
  -- fewer than writing_seq messages.
  pub run_consumer-samples :
      (r : Ring) (visits : List Visit) (sends : List ℕ)
      → length sends < writing_seq
      → length sends ≡ warmup + measured
      → length visits ≡ length sends
      → ((i send : ℕ) → get_elem? sends i ≡ some send → send < 2 ^ 63)
      → AllServed c (map message sends) 0 visits
      → (m : Meter H) × (run_consumer hdr c (warmup + measured) warmup oh r visits ≡ some m)
        × (m.seen ≡ warmup + measured)
        × (length (kept_samples warmup oh visits sends) ≡ measured)
        × (m.hist
            ≡ recorded hdr (kept_samples warmup oh visits sends) (histogram hdr hist_max_ns 3))
  unfolding run_consumer attach
  run_consumer-samples r visits sends short all same small served =
      let start : Meter H = record {
        seen = 0;
        consumer = (attach c r).0;
        hist = histogram hdr hist_max_ns 3;
        ring = (attach c r).1;
      } in
      let run =
        run-Recorded hdr ok_config (map message sends) (omega (arith, length-map sends, short))
          (warmup + measured) warmup oh visits sends start same (omega (arith, all, same))
          (attach_for-next c.overflow c r) served
          (λ i send e. (
            small i send e,
            ap (get_elem? (map message sends)) {x = 0 + i} {y = i} (omega arith)
                ∙ get_elem?-map sends i send e,
          )) in
      (
        run.m',
        run.ends,
        run.seen,
        omega (
          arith,
          length-drop warmup (sample_list oh visits sends),
          length-sample_list oh visits sends same,
          all,
        ),
        run.hist
            ∙ ap (λ (t : ℕ). recorded hdr (drop t (sample_list oh visits sends)) start.hist)
                {x = warmup - 0} {y = warmup} (omega arith),
      )

-- A turn that finds `lapped` after a commit leaves the consumer at the same message, and counts
-- nothing.
turn-lapped :
    {H P : Type 0} (hdr : Hdr H P) (c : Config) (total warmup oh : ℕ) (v : Visit) (view : List ℕ)
    (k : Consumer) (m : Meter H)
    → k.next ≡ u64 (k.read_seq + 1)
    → let m' = turn hdr c total warmup oh lapped v view k m in
      (m'.consumer.next ≡ k.next) × (m'.seen ≡ m.seen) × (m'.hist ≡ m.hist)
unfolding turn commit
turn-lapped hdr c total warmup oh v view k m e = (sym e, refl, refl)
