-- ===== src/Ring/Seats.antt =====
-- Who holds which cursor of include/shimmy/ring.hpp: the account that the claims and releases of
-- cursors are held against.
use shimmy.Common.{
  ℕ, ◌<◌, ◌≡◌, ◌≢◌, ◌⊎◌, inl, inr, sym, ap, ◌∙◌, Bool, true, false, Option, none, some, arith,
  update,
}
use native.Mathlib.Decide.{ℕ_discrete}
use shimmy.Ring.{Cursor}

-- A store to a cursor's flag, and one to its value.
abbrev pub store_in_use : (ℕ → Cursor) → ℕ → Bool → ℕ → Cursor
store_in_use cursors id b = update cursors id (record (cursors id) { in_use = b })

abbrev pub store_value : (ℕ → Cursor) → ℕ → ℕ → ℕ → Cursor
store_value cursors id v = update cursors id (record (cursors id) { value = v })

pub store_value-in_use :
    (cursors : ℕ → Cursor) (id v j : ℕ) → (store_value cursors id v j).in_use ≡ (cursors j).in_use
store_value-in_use cursors id v j = ground arith

-- A held cursor exists and is in use, it has one holder, and a cursor in use is held.
pub record Seats (n : ℕ) (cursors : ℕ → Cursor) (held : ℕ → Option ℕ) : Type 0 where
  pub in_range : (i id : ℕ) → held i ≡ some id → (id < n) × ((cursors id).in_use ≡ true)
  pub single : (i j id : ℕ) → held i ≡ some id → held j ≡ some id → i ≡ j
  pub occupied : (id : ℕ) → id < n → (cursors id).in_use ≡ true → (i : ℕ) × (held i ≡ some id)

module _ {n : ℕ} {cursors : ℕ → Cursor} {held : ℕ → Option ℕ} (v : Seats n cursors held) (i : ℕ)
    (held' : ℕ → Option ℕ) (others : (j : ℕ) → j ≢ i → held' j ≡ held j) where
  -- A step of consumer `i` that leaves the flags alone, and it with what it held.
  pub Seats-same :
      (cursors' : ℕ → Cursor)
      → ((id : ℕ) → (cursors' id).in_use ≡ (cursors id).in_use)
      → held' i ≡ held i
      → Seats n cursors' held'
  Seats-same cursors' flags same =
      let all : (j : ℕ) → held' j ≡ held j = λ j. elim (ℕ_discrete i j) [
        | yes e ↦ ap held' (sym e) ∙ same ∙ ap held e
        | no away ↦ others j (λ e. away (sym e))
      ] in
      record {
        in_range =
            λ j id e. let (lt, used) = v.in_range j id (sym (all j) ∙ e) in (lt, flags id ∙ used);
        single = λ j k id e f. v.single j k id (sym (all j) ∙ e) (sym (all k) ∙ f);
        occupied = λ id lt u. let (j, e) = v.occupied id lt (sym (flags id) ∙ u) in (j, all j ∙ e);
      }

  -- Who holds what after the step: consumer `i`, or somebody else as before.
  after_step :
      (j id : ℕ)
      → held' j ≡ some id
      → ((j ≡ i) × (held' i ≡ some id)) ⊎ (j ≢ i) × (held j ≡ some id)
  after_step j id e = elim (ℕ_discrete i j) [
    | yes same ↦ inl (sym same, ap held' same ∙ e)
    | no away ↦ inr (λ t. away (sym t), sym (others j (λ t. away (sym t))) ∙ e)
  ]

  -- Consumer `i`, which held nothing, claims a free cursor.
  pub Seats-claim :
      (id : ℕ)
      → id < n
      → (cursors id).in_use ≡ false
      → held i ≡ none
      → held' i ≡ some id
      → Seats n (store_in_use cursors id true) held'
  Seats-claim id lt free before now = record {
    in_range = λ j k e. elim (after_step j k e) [
      | inl (same, mine) ↦ ground arith
      | inr (away, old) ↦ ground (arith, v.in_range j k old)
    ];
    single = λ j k m e f. elim (after_step j m e) [
      | inl (same, mine) ↦ elim (after_step k m f) [
        | inl (same', mine') ↦ same ∙ sym same'
        | inr (away, old) ↦ absurd (free_held k m mine old)
      ]
      | inr (away, old) ↦ elim (after_step k m f) [
        | inl (same', mine') ↦ absurd (free_held j m mine' old)
        | inr (away', old') ↦ v.single j k m old old'
      ]
    ];
    occupied = λ k lt' u. elim (ℕ_discrete id k) [
      | yes same ↦ (i, now ∙ ap some same)
      | no other ↦
          let (j, e) = v.occupied k lt' (ground arith) in
          (j, others j (λ t. ground (arith, ap held t)) ∙ e)
    ];
  }
    where
      free_held : (k m : ℕ) → held' i ≡ some m → held k ≡ some m → ⊥
      free_held k m mine old =
          ground (arith, v.in_range k m old, ap (λ (t : ℕ). (cursors t).in_use) {x = id} {y = m})

  -- Consumer `i` gives its cursor back.
  pub Seats-release :
      (id : ℕ) → held i ≡ some id → held' i ≡ none → Seats n (store_in_use cursors id false) held'
  Seats-release id mine now = record {
    in_range = λ j k e. elim (after_step j k e) [
      | inl (same, none_) ↦ absurd (ground arith)
      | inr (away, old) ↦ elim (ℕ_discrete id k) [
        | yes same ↦ absurd (away (v.single j i k old (mine ∙ ap some same)))
        | no other ↦ ground (arith, v.in_range j k old)
      ]
    ];
    single = λ j k m e f. elim (after_step j m e) [
      | inl (same, none_) ↦ absurd (ground arith)
      | inr (away, old) ↦ elim (after_step k m f) [
        | inl (same', none_) ↦ absurd (ground arith)
        | inr (away', old') ↦ v.single j k m old old'
      ]
    ];
    occupied = λ k lt' u. elim (ℕ_discrete id k) [
      | yes same ↦ absurd (ground arith)
      | no other ↦
          let (j, e) = v.occupied k lt' (ground arith) in
          (j, others j (λ t. ground (arith, ap held t)) ∙ e)
    ];
  }
