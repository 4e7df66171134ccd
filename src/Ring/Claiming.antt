-- ===== src/Ring/Claiming.antt =====
-- `register_consumer` and `unregister_consumer` of include/shimmy/ring.hpp called by many consumers
-- at once, one atomic access at a time, in any order.
use shimmy.Common.{
  ℕ, ◌+◌, ◌≤◌, ◌<◌, ◌≡◌, ◌≢◌, refl, sym, ap, ◌∙◌, true, false, Option, none, some, update,
  update_self, update_ne, max_u64,
}
use shimmy.Config.{Config}
use shimmy.Ring.{Cursor}
use shimmy.Ring.Seats.{
  Seats, Seats-same, Seats-claim, Seats-release, store_in_use, store_value, store_value-in_use,
}

-- Where a consumer stands in its life.
pub data Claimant : Type 0 where
  outside : Claimant
  trying : (i : ℕ) → Claimant  -- before the compare-exchange on `cursors_[i].in_use`
  starting : (id : ℕ) → Claimant  -- before the store of 0 to the cursor that it has claimed
  registered : (id : ℕ) → Claimant
  departing : (id : ℕ) → Claimant  -- between the two stores of `unregister_consumer`
  turned_away : Claimant  -- `register_consumer` answered MaxConsumers

-- A step of one consumer: the cursors after it, and where it stands.
pub data Claim (c : Config) (cursors : ℕ → Cursor)
    : Claimant → (ℕ → Cursor) → Claimant → Type 0 where
  enter : Claim c cursors outside cursors (trying 0)
  exchange :
      {i : ℕ}
      → i < c.max_consumers
      → (cursors i).in_use ≡ false
      → Claim c cursors (trying i) (store_in_use cursors i true) (starting i)
  refused :
      {i : ℕ}
      → i < c.max_consumers
      → (cursors i).in_use ≡ true
      → Claim c cursors (trying i) cursors (trying (i + 1))
  turn_away : {i : ℕ} → c.max_consumers ≤ i → Claim c cursors (trying i) cursors turned_away
  start : {id : ℕ} → Claim c cursors (starting id) (store_value cursors id 0) (registered id)
  move_cursor :
      {id : ℕ} (v : ℕ) → Claim c cursors (registered id) (store_value cursors id v) (registered id)
  depart :
      {id : ℕ} → Claim c cursors (registered id) (store_value cursors id max_u64) (departing id)
  release : {id : ℕ} → Claim c cursors (departing id) (store_in_use cursors id false) outside

pub record Crowd : Type 0 where
  pub cursors : ℕ → Cursor
  pub claimants : ℕ → Claimant

pub data Jostle (c : Config) (s : Crowd) : Crowd → Type 0 where
  act :
      (i : ℕ) {cursors : ℕ → Cursor} {q : Claimant}
      → Claim c s.cursors (s.claimants i) cursors q
      → Jostle c s (record s { cursors = cursors; claimants = update s.claimants i q })

-- From the free cursors that `init` leaves.
abbrev pub nobody : Crowd
nobody = record { cursors = λ _. record { value = 0; in_use = false }; claimants = λ _. outside }

pub data Arises (c : Config) : Crowd → Type 0 where
  begin : Arises c nobody
  later : {s t : Crowd} → Arises c s → Jostle c s t → Arises c t

-- The cursor that a consumer holds.
abbrev pub holds : Claimant → Option ℕ
holds outside = none
holds (trying i) = none
holds (starting id) = some id
holds (registered id) = some id
holds (departing id) = some id
holds turned_away = none

-- The account of the cursors, as the consumers stand.
abbrev Orderly : Config → Crowd → Type 0
Orderly c s = Seats c.max_consumers s.cursors (λ i. holds (s.claimants i))

others_hold :
    (s : Crowd) (i : ℕ) (q : Claimant) (j : ℕ)
    → j ≢ i
    → holds (update s.claimants i q j) ≡ holds (s.claimants j)
others_hold s i q j away = ap holds (update_ne s.claimants i q j (λ e. away (sym e)))

Orderly-same :
    (c : Config) (s : Crowd) (i : ℕ) (q : Claimant) {cursors : ℕ → Cursor}
    → Orderly c s
    → ((id : ℕ) → (cursors id).in_use ≡ (s.cursors id).in_use)
    → holds (s.claimants i) ≡ holds q
    → Orderly c (record s { cursors = cursors; claimants = update s.claimants i q })
Orderly-same c s i q v flags e =
    Seats-same v i _ (others_hold s i q) _ flags (ap holds (update_self s.claimants i q) ∙ sym e)

module _ {c : Config} where
  Claim-Orderly :
      (s : Crowd) (i : ℕ) {p q : Claimant} {cursors : ℕ → Cursor}
      → Orderly c s
      → s.claimants i ≡ p
      → Claim c s.cursors p cursors q
      → Orderly c (record s { cursors = cursors; claimants = update s.claimants i q })
  Claim-Orderly s i v e enter = Orderly-same c s i (trying 0) v (λ id. refl) (ap holds e)
  Claim-Orderly s i v e (exchange {i = k} lt free) =
      Seats-claim v i _ (others_hold s i (starting k)) k lt free (ap holds e)
        (ap holds (update_self s.claimants i (starting k)))
  Claim-Orderly s i v e (refused {i = k} lt used) =
      Orderly-same c s i (trying (k + 1)) v (λ id. refl) (ap holds e)
  Claim-Orderly s i v e (turn_away {i = k} end) =
      Orderly-same c s i turned_away v (λ id. refl) (ap holds e)
  Claim-Orderly s i v e (start {id}) =
      Orderly-same c s i (registered id) v (store_value-in_use s.cursors id 0) (ap holds e)
  Claim-Orderly s i v e (move_cursor {id} value) =
      Orderly-same c s i (registered id) v (store_value-in_use s.cursors id value) (ap holds e)
  Claim-Orderly s i v e (depart {id}) =
      Orderly-same c s i (departing id) v (store_value-in_use s.cursors id max_u64) (ap holds e)
  Claim-Orderly s i v e (release {id}) =
      Seats-release v i _ (others_hold s i outside) id (ap holds e)
        (ap holds (update_self s.claimants i outside))

  Arises-Orderly : {s : Crowd} → Arises c s → Orderly c s
  Arises-Orderly begin = record {
    in_range = λ i id e. absurd (cc);
    single = λ i j id e f. absurd (cc);
    occupied = λ id lt u. absurd (cc);
  }
  Arises-Orderly (later {s} before (act i step)) =
      Claim-Orderly s i (Arises-Orderly before) refl step

  -- However many consumers call `register_consumer`, `set_cursor` and `unregister_consumer` at
  -- once, one access at a time in any order from a fresh ring: two that hold the same cursor are
  -- one and the same, and a cursor that is held is below max_consumers and in use.
  pub holds-single :
      {s : Crowd}
      → Arises c s
      → (i j id : ℕ) → holds (s.claimants i) ≡ some id
      → holds (s.claimants j) ≡ some id
      → (i ≡ j) × (id < c.max_consumers) × ((s.cursors id).in_use ≡ true)
  holds-single arisen i j id e f =
      let inv = Arises-Orderly arisen in
      let (lt, used) = inv.in_range i id e in (inv.single i j id e f, lt, used)
