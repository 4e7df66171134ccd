-- ===== src/Ring/Tests.antt =====
-- Runs of the ring on small inputs, as in tests/ring_basic_test.cpp and tests/ring_lap_test.cpp.
use shimmy.Common.{
  ◌<◌, ℕ, ◌%◌, ◌≡◌, refl, true, false, if◌then◌else◌, ltb, ◌==◌, List, [], ◌∷◌, some, arith, update,
}
use shimmy.Config.{Config, IsRingConfig, overwrite, backpressure, spin, futex, index}
use shimmy.Config.Index.{index-mod}
use shimmy.Ring.{
  Ring, Cursor, Outcome, init, publish, stalled, published, out_of_bounds, await_consumers_past,
  register_consumer,
}
use shimmy.Ring.Cursors.{Awaited, await_consumers_past_lem}
use shimmy.Ring.Publish.{init-Logs}
use shimmy.Ring.Outcomes.{Ensures, publish-Ensures}
use shimmy.Ring.Seats.{store_in_use}
use shimmy.Ring.Claiming.{
  Crowd, nobody, trying, starting, enter, exchange, refused, Arises, begin, later, act,
  holds-single,
}
use shimmy.Ring.Registration.{
  Registered, claimed, register_consumer-Registered, publish-register_consumer_late,
}

-- A region as the operating system hands it over: all zero.
abbrev pub zeroed : Ring
zeroed = record {
  next_publish = 0;
  cursors = λ _. record { value = 0; in_use = false };
  slots = λ _. record { seq = 0; len = 0; payload = λ _. 0 };
  waiters = 0;
}

abbrev pub lossy : Config
lossy = record {
  block_size = 64;
  capacity = 4;
  overflow = overwrite;
  max_consumers = 2;
  wait = spin;
}

abbrev pub lossless : Config
lossless = record lossy { overflow = backpressure; wait = futex }

abbrev after : Outcome → Ring
after (published seq woke r) = r
after stalled = zeroed
after out_of_bounds = zeroed

abbrev send : Config → Ring → List ℕ → Ring
unfolding publish
send c r bytes = after (publish c 1 (λ _. r.cursors) r bytes 2)

five_sent :
    let r =
      send lossy
        (send lossy
          (send lossy
            (send lossy (send lossy (init lossy zeroed) (1 ∷ 2 ∷ [])) (3 ∷ 4 ∷ []))
            (5 ∷ 6 ∷ []))
          (7 ∷ 8 ∷ []))
        (9 ∷ 10 ∷ []) in
    (r.next_publish ≡ 5)
    × ((r.slots 0).seq ≡ 4)
    × ((r.slots 1).seq ≡ 1)
    × ((r.slots 0).payload 1 ≡ 10)
unfolding init publish
five_sent = (refl, refl, refl, refl)

pub lossy-IsRingConfig : IsRingConfig lossy
lossy-IsRingConfig = record {
  at_least_two = omega arith;
  power_of_two = refl;
  aligned_blocks = refl;
  has_cursor = omega arith;
  fits = omega arith;
}

pub lossless-IsRingConfig : IsRingConfig lossless
lossless-IsRingConfig = record {
  at_least_two = omega arith;
  power_of_two = refl;
  aligned_blocks = refl;
  has_cursor = omega arith;
  fits = omega arith;
}

index-mod_example : index lossy 7 ≡ 7 % 4
index-mod_example = index-mod lossy-IsRingConfig 7

publish-Ensures_example :
    Ensures lossy 1
      (λ _. zeroed.cursors)
      []
      (init lossy zeroed)
      (1 ∷ 2 ∷ 3 ∷ [])
      2
      (publish lossy 1 (λ _. zeroed.cursors) (init lossy zeroed) (1 ∷ 2 ∷ 3 ∷ []) 2)
publish-Ensures_example =
    publish-Ensures lossy 1 (λ _. zeroed.cursors) [] (init lossy zeroed) (1 ∷ 2 ∷ 3 ∷ []) 2
      (omega arith) (init-Logs zeroed lossy-IsRingConfig)

-- A reader that passes message 0 in the third round.
abbrev slow : ℕ → ℕ → Cursor
slow k i = record { value = if ltb k 2 then 0 else 1; in_use = i == 0 }

await_consumers_past_lem_example : Awaited lossless 5 slow 0 0 (some 2)
unfolding await_consumers_past
await_consumers_past_lem_example = await_consumers_past_lem lossless slow 0 5 0

register_consumer-Registered_example :
    Registered 2 zeroed 0 (record zeroed { cursors = update zeroed.cursors 0 claimed })
unfolding register_consumer
register_consumer-Registered_example = register_consumer-Registered lossless zeroed

-- A ring of which four messages have been published.
abbrev full : Ring
full = record zeroed { next_publish = 4 }

publish-register_consumer_late_example :
    publish lossless 9
      (λ _. (register_consumer lossless full).1.cursors)
      (register_consumer lossless full).1
      (1 ∷ [])
      1
    ≡ stalled
unfolding register_consumer
publish-register_consumer_late_example =
    publish-register_consumer_late lossless full 9
      (λ _. (register_consumer lossless full).1.cursors) (1 ∷ []) 1 refl (omega arith) (omega arith)
      (λ q. refl)

-- Two consumers, of which the second is refused the first cursor.
abbrev crowd : Crowd
crowd = record {
  cursors = store_in_use (store_in_use nobody.cursors 0 true) 1 true;
  claimants =
      update
        (update (update (update (update nobody.claimants 0 (trying 0)) 0 (starting 0)) 1 (trying 0))
          1 (trying 1))
        1 (starting 1);
}

crowd-Arises : Arises lossless crowd
crowd-Arises =
    later
      (later
        (later (later (later begin (act 0 enter)) (act 0 (exchange (omega arith) refl)))
          (act 1 enter))
        (act 1 (refused (omega arith) refl)))
      (act 1 (exchange (omega arith) refl))

-- The number of the second consumer.
abbrev second : ℕ
second = 1

holds-single_example : (second ≡ second) × (1 < 2) × (true ≡ true)
holds-single_example = holds-single crowd-Arises second second 1 refl refl
