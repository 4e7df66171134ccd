-- ===== src/Membership/TurnedAway.antt =====
-- A run of include/shimmy/ring.hpp under Backpressure with two slots and one cursor, in which a second
-- consumer comes when the cursor is taken.
use shimmy.Common.{◌<◌, ◌≤◌, ℕ, ◌≡◌, refl, List, [], ◌∷◌, some, arith, get_elem?}
use shimmy.Config.{Config}
use shimmy.Ring.{init}
use shimmy.Ring.Tests.{zeroed, lossless}
use shimmy.Consumer.{publish_cursor, status_of}
use shimmy.System.{
  call_first, call_waiting, see_claimed, see_past, all_past, set_len, set_byte, stamp, count,
  accepted, find_ok, load_len, load_byte, validate_true,
}
use shimmy.Membership.{
  reading, construct, exchange, refused, turn_away, start, look, seek, begin_at_zero, read,
  Gathering, produce, attend, Unfolds, begin, later,
}

-- Two slots, one cursor.
abbrev single : Config
single = record lossless { capacity = 2; max_consumers = 1 }

abbrev first_message : List ℕ
first_message = 1 ∷ 2 ∷ []

abbrev third_message : List ℕ
third_message = 8 ∷ 9 ∷ []

free : 0 < 1
free = omega arith

full : 1 ≤ 1
full = omega arith

fits : 2 ≤ 64
fits = omega arith

fits_nothing : 0 ≤ 64
fits_nothing = omega arith

early : 0 < 2
early = omega arith

second : 1 < 2
second = omega arith

late : 2 ≤ 2
late = omega arith

-- Consumer 1 is turned away and reads on. It reads the first byte of message 0, and the second after
-- the producer, which does not wait for it, has come round to the slot; `validate` says true of bytes
-- that were never published together.
torn :
    (s : Gathering) × Unfolds single s
    × (s.members 1 ≡ reading 1 0 (accepted 0 (1 ∷ 9 ∷ [])))
    × (get_elem? s.log 0 ≡ some first_message)
unfolding init status_of publish_cursor
torn =
    let held =
      later (later (begin zeroed) (attend 0 (construct refl))) (attend 0 (exchange free refl)) in
    let sits = later held (attend 0 start) in
    let tries = later (later sits (attend 1 (construct refl))) (attend 1 (refused free refl)) in
    let away = later tries (attend 1 (turn_away full)) in
    let starts = later away (attend 1 (begin_at_zero (λ o. early))) in
    let called = later starts (produce (call_first first_message fits refl early)) in
    let filled =
      later (later (later called (produce set_len)) (produce (set_byte 1 refl)))
        (produce (set_byte 2 refl)) in
    let one = later (later filled (produce (stamp refl))) (produce count) in
    let found = later (later one (attend 1 (read (find_ok refl)))) (attend 1 (read load_len)) in
    let half = later found (attend 1 (read (load_byte early))) in
    let ahead = later (later half (attend 0 look)) (attend 0 seek) in
    let called_two = later ahead (produce (call_first [] fits_nothing refl second)) in
    let filled_two = later (later called_two (produce set_len)) (produce (stamp refl)) in
    let two = later filled_two (produce count) in
    let waits = later two (produce (call_waiting third_message fits refl late)) in
    let passes = later (later waits (produce (see_claimed free refl))) (produce (see_past free)) in
    let writes = later (later passes (produce (all_past refl))) (produce set_len) in
    let over = later (later writes (produce (set_byte 8 refl))) (produce (set_byte 9 refl)) in
    let whole = later over (attend 1 (read (load_byte second))) in
    (
      _,
      later whole
          (attend 1 (read (validate_true {want = 0} {len = 2} {bytes = 1 ∷ 9 ∷ []} refl refl))),
      refl,
      refl,
    )
