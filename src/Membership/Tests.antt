-- ===== src/Membership/Tests.antt =====
-- Runs of include/shimmy/ring.hpp, access by access, in which a consumer attaches to a Backpressure
-- ring of two slots: one after the first message, as `attach_consumer_at_current` does it, and one
-- before it.
use shimmy.Common.{
  ◌<◌, ◌≤◌, ℕ, ◌≡◌, ◌≢◌, refl, true, List, [], ◌∷◌, ◌++◌, some, arith, get_elem?, take, update,
}
use shimmy.Config.{IsRingConfig, Config}
use shimmy.Ring.{advance, Ring, init, slot_at, store_seq, store_len, store_byte}
use shimmy.Ring.Log.{Log}
use shimmy.Ring.Seats.{store_in_use, store_value}
use shimmy.Ring.Tests.{zeroed, lossless}
use shimmy.Consumer.{publish_cursor, status_of}
use shimmy.System.{
  call_first, call_waiting, see_claimed, set_len, set_byte, stamp, count, comparing, ReaderPc,
  polling, holding, viewing, accepted, lapsed, Got, at_next, find_ok, load_len, load_byte,
  validate_true, commit,
}
use shimmy.System.Safety.{messages}
use shimmy.Membership.{
  Member, starting, seated, seeking, reading, trying, with_cursors, construct, exchange, start,
  look, seek, begin_at_zero, read, Gathering, produce, attend, opening, Unfolds, begin, later,
}
use shimmy.Membership.Safety.{
  IsDue, attached-message, attached-lossless, attached-stamp, attached-holder,
}

abbrev pair : Config
pair = record lossless { capacity = 2 }

pair-IsRingConfig : IsRingConfig pair
pair-IsRingConfig = record {
  at_least_two = omega arith;
  power_of_two = refl;
  aligned_blocks = refl;
  has_cursor = omega arith;
  fits = omega arith;
}

abbrev seven : List ℕ
seven = 7 ∷ []

-- A whole `publish` of `seven` that does not wait.
abbrev published : Gathering → Gathering
published s =
    let seq = s.ring.next_publish in
    let filled = store_byte pair (store_len pair s.ring seq 1) seq 0 7 in
    record s { ring = advance (store_seq pair filled seq seq) seq; log = s.log ++ (seven ∷ []) }

-- Consumer 0 goes on.
abbrev moved : Gathering → Ring → Member → Got → Gathering
moved s r m g = record s { ring = r; members = update s.members 0 m; got = update s.got 0 g }

abbrev claimed : Gathering → Gathering
claimed s =
    moved (moved s s.ring (trying 0) []) (with_cursors s.ring (store_in_use s.ring.cursors 0 true))
      (starting 0) []

abbrev constructed : Gathering → Gathering
constructed s =
    let t = claimed s in
    moved t (with_cursors t.ring (store_value t.ring.cursors 0 0)) (seated 0) []

abbrev looked : Gathering → Gathering
looked s = moved s s.ring (seeking 0 s.ring.next_publish) []

abbrev attached : Gathering → Gathering
attached s =
    let t = looked (constructed s) in
    moved t (publish_cursor pair t.ring (at_next 0 1)) (reading 0 1 (polling 1)) []

abbrev opened : Gathering
opened = opening pair zeroed

one-Unfolds : Unfolds pair (published opened)
unfolding init
one-Unfolds =
    let called =
      later (begin zeroed) (produce (call_first seven (omega arith) refl (omega arith))) in
    let filled = later (later called (produce set_len)) (produce (set_byte 7 refl)) in
    later (later filled (produce (stamp refl))) (produce count)

abbrev late : Gathering
late = attached (published opened)

late-Unfolds : Unfolds pair late
unfolding init publish_cursor
late-Unfolds =
    let tries = later one-Unfolds (attend 0 (construct refl)) in
    let has = later tries (attend 0 (exchange (omega arith) refl)) in
    let sits = later has (attend 0 start) in later (later sits (attend 0 look)) (attend 0 seek)

-- The second message is published after the consumer has attached.
abbrev fresh : Gathering
fresh = published late

fresh-Unfolds : Unfolds pair fresh
unfolding init publish_cursor
fresh-Unfolds =
    let called = later late-Unfolds (produce (call_first seven (omega arith) refl (omega arith))) in
    let filled = later (later called (produce set_len)) (produce (set_byte 7 refl)) in
    later (later filled (produce (stamp refl))) (produce count)

-- The consumer reads it.
abbrev reads : Gathering → ReaderPc → Gathering
reads s q = moved s s.ring (reading 0 1 q) []

abbrev seen : Gathering
seen = reads (reads (reads fresh (holding 1)) (viewing 1 1 [])) (viewing 1 1 seven)

seen-Unfolds : Unfolds pair seen
unfolding init publish_cursor status_of
seen-Unfolds =
    let found = later fresh-Unfolds (attend 0 (read (find_ok refl))) in
    later (later found (attend 0 (read load_len))) (attend 0 (read (load_byte (omega arith))))

-- It commits it.
abbrev kept : Gathering
kept =
    let t = reads seen (accepted 1 seven) in
    moved t (publish_cursor pair t.ring (at_next 0 2)) (reading 0 1 (polling 2)) ((1, seven) ∷ [])

kept-Unfolds : Unfolds pair kept
unfolding init publish_cursor status_of
kept-Unfolds =
    let checked =
      later seen-Unfolds
        (attend 0 (read (validate_true {want = 1} {len = 1} {bytes = seven} refl refl))) in
    later checked (attend 0 (read commit))

attached-message_example : get_elem? (seven ∷ seven ∷ []) 1 ≡ some seven
unfolding init publish_cursor
attached-message_example =
    attached-message pair-IsRingConfig seen-Unfolds (omega arith) 0 0 1 1 1 seven (λ o. omega arith)
      refl refl refl

attached-lossless_example :
    (1 ≤ 2)
    × (take 1 (seven ∷ seven ∷ []) ++ messages ((1, seven) ∷ []) ≡ take 2 (seven ∷ seven ∷ []))
attached-lossless_example =
    attached-lossless pair-IsRingConfig kept-Unfolds (omega arith) 0 0 1 (polling 2) refl
      (omega arith) refl

attached-stamp_example :
    ((next : ℕ) → polling 1 ≢ lapsed next) × (1 < 2 → (slot_at pair fresh.ring 1).seq ≡ 1)
attached-stamp_example =
    attached-stamp pair-IsRingConfig fresh-Unfolds (omega arith) 0 0 1 (polling 1) refl
      (omega arith) refl

-- A consumer that has read nothing of a full ring: the third `publish` waits for it.
abbrev early : Gathering
early = let s = constructed opened in moved s s.ring (reading 0 0 (polling 0)) []

early-Unfolds : Unfolds pair early
unfolding init
early-Unfolds =
    let tries = later (begin zeroed) (attend 0 (construct refl)) in
    let has = later tries (attend 0 (exchange (omega arith) refl)) in
    let sits = later has (attend 0 start) in later sits (attend 0 (begin_at_zero (λ o. first)))
  where
    first : 0 < 2
    first = omega arith

abbrev early_at : Ring → Log → Gathering
early_at r log = record early { ring = r; log = log }

one_more-Unfolds :
    (r : Ring) (log : Log)
    → r.next_publish < 2
    → Unfolds pair (early_at r log)
    → Unfolds pair (published (early_at r log))
one_more-Unfolds r log free before =
    let called = later before (produce (call_first seven (omega arith) refl free)) in
    let filled = later (later called (produce set_len)) (produce (set_byte 7 refl)) in
    later (later filled (produce (stamp refl))) (produce count)

abbrev waiting : Gathering
waiting = record (published (published early)) { pc = comparing 2 seven 0 }

waiting-Unfolds : Unfolds pair waiting
unfolding init
waiting-Unfolds =
    let one = one_more-Unfolds early.ring [] (omega arith) early-Unfolds in
    let two = one_more-Unfolds (published early).ring (seven ∷ []) (omega arith) one in
    later (later two (produce (call_waiting seven (omega arith) refl (omega arith))))
      (produce (see_claimed (omega arith) refl))

attached-holder_example : (i : ℕ) × IsDue pair waiting 0 (waiting.members i)
unfolding init
attached-holder_example =
    attached-holder pair-IsRingConfig waiting-Unfolds (omega arith) 2 0 seven refl (omega arith)
