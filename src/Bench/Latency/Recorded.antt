-- ===== src/Bench/Latency/Recorded.antt =====
-- What the samples of bench/latency_bench.cpp are, and what the histogram then holds.
use shimmy.Common.{
  ℕ, suc, ◌+◌, ◌-◌, ◌^◌, ◌<◌, ◌≡◌, refl, ap, ◌∙◌, List, [], ◌∷◌, Option, none, some, ltb,
  if◌then◌else◌, length, get_elem?, pos, minus, arith,
}
use shimmy.Config.{Config}
use shimmy.Ring.Log.{Log}
use shimmy.Bench.Timing.{Hdr, record_value, at_least_one}
use shimmy.Bench.Latency.{message, latency, Visit, Meter}
use shimmy.Bench.Latency.Visits.{Served}

-- What is recorded of a message that was sent at `send` and received at `recv`.
abbrev pub sample : ℕ → ℕ → ℕ → ℕ
sample oh recv send = if ltb (send + oh) recv then recv - send - oh else 1

abbrev pub sample_list : ℕ → List Visit → List ℕ → List ℕ
sample_list oh [] sends = []
sample_list oh (v ∷ visits) [] = []
sample_list oh (v ∷ visits) (send ∷ sends) = sample oh v.recv send ∷ sample_list oh visits sends

pub length-sample_list :
    (oh : ℕ) (visits : List Visit) (sends : List ℕ)
    → length visits ≡ length sends
    → length (sample_list oh visits sends) ≡ length sends
length-sample_list oh [] sends e = e
length-sample_list oh (v ∷ visits) [] e = absurd (omega (arith, e))
length-sample_list oh (v ∷ visits) (send ∷ sends) e =
    ap suc (length-sample_list oh visits sends (omega (arith, e)))

module _ {H P : Type 0} (hdr : Hdr H P) where
  -- A histogram, if there is one, with these values recorded in turn.
  abbrev pub recorded : List ℕ → Option H → Option H
  recorded values none = none
  recorded [] (some h) = some h
  recorded (x ∷ values) (some h) = recorded values (some (hdr.hdr_record_value h x))

  recorded-none : (values : List ℕ) → recorded values none ≡ none
  recorded-none [] = refl
  recorded-none (x ∷ values) = refl

  pub recorded-nil : (h : Option H) → recorded [] h ≡ h
  recorded-nil none = refl
  recorded-nil (some h) = refl

  pub recorded-cons :
      (x : ℕ) (values : List ℕ) (h : Option H)
      → recorded values (recorded (x ∷ []) h) ≡ recorded (x ∷ values) h
  recorded-cons x values none = recorded-none values
  recorded-cons x values (some h) = refl

  pub recorded-record_value :
      (oh recv send : ℕ) (values : List ℕ) (h : Option H)
      → recorded values (record_value hdr h (latency recv (pos send) oh))
        ≡ recorded (sample oh recv send ∷ values) h
  unfolding record_value latency
  recorded-record_value oh recv send values none = recorded-none values
  recorded-record_value oh recv send values (some h) =
      let same : at_least_one (minus recv (send + oh)) ≡ sample oh recv send = ground arith in
      ap (λ t. recorded values (some (hdr.hdr_record_value h t))) same

-- Every turn of the consumer is served, from message `n` on.
abbrev pub AllServed : Config → Log → ℕ → List Visit → Type 0
AllServed c log n [] = Unit {0}
AllServed c log n (v ∷ visits) = Served c log n v × AllServed c log (n + 1) visits

-- From message `n` on the log has messages with these send times.
abbrev pub IsSent : Log → ℕ → List ℕ → Type 0
IsSent log n sends =
    (i send : ℕ)
    → get_elem? sends i ≡ some send
    → (send < 2 ^ 63) × (get_elem? log (n + i) ≡ some (message send))

pub IsSent-tail :
    (log : Log) (n send : ℕ) (sends : List ℕ)
    → IsSent log n (send ∷ sends)
    → IsSent log (n + 1) sends
IsSent-tail log n send sends sent i s e =
    let (small, at) = sent (suc i) s e in
    (small, ap (get_elem? log) {x = n + 1 + i} {y = n + suc i} (omega arith) ∙ at)

pub some_number : {a b : ℕ} → some a ≡ some b → a ≡ b
some_number e = cc

pub some_same : {a b : List ℕ} → some a ≡ some b → a ≡ b
some_same e = cc

pub record Recorded {H P : Type 0} (hdr : Hdr H P) (total : ℕ) (values : List ℕ) (m : Meter H)
    (o : Option (Meter H)) : Type 0 where
  pub m' : Meter H
  pub ends : o ≡ some m'
  pub seen : m'.seen ≡ total
  pub next : m'.consumer.next ≡ total
  pub hist : m'.hist ≡ recorded hdr values m.hist
