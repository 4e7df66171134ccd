-- ===== src/Membership/Showing.antt =====
-- What a consumer's `publish_cursor` (include/shimmy/ring.hpp) does to the cursors of all.
use shimmy.Common.{ℕ, ◌≤◌, ◌<◌, ◌≡◌, ◌≢◌, refl, ap, List, Option, arith}
use native.Mathlib.Decide.{dec_lt}
use shimmy.Config.{Config, Overflow, overwrite, backpressure}
use shimmy.Ring.{Ring}
use shimmy.Consumer.{publish_cursor, publish_cursor_for}
use shimmy.System.{
  ReaderPc, at_next, Consume, find_ok, find_empty, find_lapped, load_len, load_byte, validate_true,
  validate_false, commit, resync,
}
use shimmy.System.Invariant.{next_of}
use shimmy.System.Moves.{publish_cursor-cursors, publish_cursor-Moves}
use shimmy.Membership.{with_cursors}

-- What `publish_cursor` does to the cursors, for a consumer with a cursor or without.
pub record Shows (c : Config) (r : Ring) (id next : ℕ) (r' : Ring) : Type 0 where
  pub ring : r' ≡ with_cursors r r'.cursors
  pub flags : (j : ℕ) → (r'.cursors j).in_use ≡ (r.cursors j).in_use
  pub others : (j : ℕ) → j ≢ id → (r'.cursors j).value ≡ (r.cursors j).value
  pub mine : c.overflow ≡ backpressure → id < c.max_consumers → (r'.cursors id).value ≡ next

publish_cursor_for-off :
    (o : Overflow) (c : Config) (r : Ring) (id next : ℕ)
    → c.max_consumers ≤ id
    → publish_cursor_for o c r (at_next id next) ≡ r
unfolding publish_cursor_for
publish_cursor_for-off overwrite c r id next off = refl
publish_cursor_for-off backpressure c r id next off = ground arith

pub publish_cursor-Shows :
    (c : Config) (r : Ring) (id next : ℕ) → Shows c r id next (publish_cursor c r (at_next id next))
unfolding publish_cursor
publish_cursor-Shows c r id next = elim (dec_lt id c.max_consumers) [
  | yes lt ↦
      let moves = publish_cursor-Moves c r id next (λ o. lt) in
      record {
        ring = publish_cursor-cursors c r id next;
        flags = moves.used;
        others = moves.other;
        mine = λ o lt. moves.here o;
      }
  | no off ↦
      let same = publish_cursor_for-off c.overflow c r id next (omega arith) in
      record {
        ring = publish_cursor-cursors c r id next;
        flags = λ j. ap (λ (t : Ring). (t.cursors j).in_use) same;
        others = λ j away. ap (λ (t : Ring). (t.cursors j).value) same;
        mine = λ o lt. absurd (off lt);
      }
]

-- What a reader's step does to the cursors: it shows the message that the reader is at.
pub Consume-Shows :
    {c : Config} {r : Ring} {id : ℕ} {q q' : ReaderPc} {r' : Ring} {o : Option (ℕ × List ℕ)}
    → (c.overflow ≡ backpressure → id < c.max_consumers → (r.cursors id).value ≡ next_of q)
    → Consume c id r q r' q' o
    → Shows c r id (next_of q') r'
Consume-Shows here (find_ok h) = record {
  ring = refl;
  flags = λ j. refl;
  others = λ j away. refl;
  mine = here;
}
Consume-Shows here (find_empty h) = record {
  ring = refl;
  flags = λ j. refl;
  others = λ j away. refl;
  mine = here;
}
Consume-Shows here (find_lapped h) = record {
  ring = refl;
  flags = λ j. refl;
  others = λ j away. refl;
  mine = here;
}
Consume-Shows here load_len = record {
  ring = refl;
  flags = λ j. refl;
  others = λ j away. refl;
  mine = here;
}
Consume-Shows here (load_byte h) = record {
  ring = refl;
  flags = λ j. refl;
  others = λ j away. refl;
  mine = here;
}
Consume-Shows here (validate_true h k) = record {
  ring = refl;
  flags = λ j. refl;
  others = λ j away. refl;
  mine = here;
}
Consume-Shows here (validate_false h) = record {
  ring = refl;
  flags = λ j. refl;
  others = λ j away. refl;
  mine = here;
}
Consume-Shows {c} {r} {id} here (commit {want} {bytes}) = publish_cursor-Shows c r id _
Consume-Shows {c} {r} {id} here (resync {next}) = publish_cursor-Shows c r id _
