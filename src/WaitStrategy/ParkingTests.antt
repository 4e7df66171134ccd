-- ===== src/WaitStrategy/ParkingTests.antt =====
-- Runs of a ring with two slots and one reader that blocks by `Futex`, as tests/ring_concurrency_test.cpp
-- lets it: the producer that waits for the reader, and the reader that sleeps on the stamp of message 0.
use shimmy.Common.{ℕ, ◌+◌, ◌<◌, ◌≡◌, ◌≢◌, refl, [], ◌∷◌, ◌++◌, update, arith}
use shimmy.Config.{Config, IsRingConfig}
use shimmy.Ring.{Ring, init, slot_at, store_len, store_seq, advance}
use shimmy.Ring.Log.{Log}
use shimmy.Ring.Tests.{zeroed, lossless}
use shimmy.Consumer.{ok, status_of, publish_cursor}
use shimmy.System.{
  idle, comparing, ReaderPc, polling, holding, viewing, accepted, at_next, Got, call_first,
  call_waiting, see_claimed, set_len, stamp, count, find_ok, load_len, validate_true, commit, start,
}
use shimmy.WaitStrategy.Eventcount.{
  away, announced, deciding, asleep, announce, see_behind, fall_asleep,
}
use shimmy.WaitStrategy.Parking.{
  Parking, nothing_due, produce, nobody_waits, consume, wait, Parks, begin, later,
}
use shimmy.WaitStrategy.Deadlock.{asleep-unpublished, held_back-awake}

abbrev pair : Config
pair = record lossless { capacity = 2 }

pair-IsRingConfig : IsRingConfig pair
pair-IsRingConfig = record {
  at_least_two = omega arith;
  power_of_two = refl;
  aligned_blocks = refl;
  has_cursor = omega arith;
  fits = omega arith;
}

-- Nobody is in `wait`, and the producer rests.
abbrev at_rest : Ring → (ℕ → ReaderPc) → (ℕ → Got) → Log → Parking
at_rest r readers got log = record {
  system = record { ring = r; pc = idle; readers = readers; got = got; log = log };
  waiters = 0;
  notice = nothing_due;
  sleepers = λ _. away;
}

-- An empty message.
abbrev stored : Ring → Ring
stored r = let seq = r.next_publish in advance (store_seq pair (store_len pair r seq 0) seq seq) seq

send :
    {r : Ring} {readers : ℕ → ReaderPc} {got : ℕ → Got} {log : Log}
    → r.next_publish < 2
    → Parks pair 1 (at_rest r readers got log)
    → Parks pair 1 (at_rest (stored r) readers got (log ++ ([] ∷ [])))
send early before =
    let called = later before (produce refl (call_first [] (omega arith) refl early)) in
    let written = later (later called (produce refl set_len)) (produce refl (stamp refl)) in
    later (later written (produce refl count)) (nobody_waits refl refl)

abbrev empty_ring : Ring
empty_ring = (start pair 1 zeroed).ring

abbrev full : Parking
full = at_rest (stored (stored empty_ring)) (λ _. polling 0) (λ _. []) ([] ∷ [] ∷ [])

full-Parks : Parks pair 1 full
unfolding init
full-Parks = send (omega arith) (send (omega arith) (begin zeroed))

-- The third `publish` waits for the reader.
abbrev held_back : Parking
held_back = record full { system = record full.system { pc = comparing 2 [] 0 } }

held_back-Parks : Parks pair 1 held_back
unfolding init
held_back-Parks =
    later (later full-Parks (produce refl (call_waiting [] (omega arith) refl (omega arith))))
      (produce refl (see_claimed (omega arith) refl))

abbrev reads : Parking → ReaderPc → Parking
reads s q = record s {
  system = record s.system {
    readers = update s.system.readers 0 q;
    got = update s.system.got 0 (s.system.got 0);
  };
}

abbrev commits : Parking → ℕ → Parking
commits s want = record s {
  system = record s.system {
    ring = publish_cursor pair s.system.ring (at_next 0 (want + 1));
    readers = update s.system.readers 0 (polling (want + 1));
    got = update s.system.got 0 ((want, []) ∷ s.system.got 0);
  };
}

-- The reader reads an empty message.
abbrev takes : Parking → ℕ → Parking
takes s want =
    commits (reads (reads (reads s (holding want)) (viewing want 0 [])) (accepted want [])) want

first_taken-Parks : Parks pair 1 (takes full 0)
unfolding init status_of publish_cursor
first_taken-Parks =
    let opened =
      later (later full-Parks (consume 0 (omega arith) refl (find_ok refl)))
        (consume 0 (omega arith) refl load_len) in
    later
      (later opened
        (consume 0 (omega arith) refl (validate_true {want = 0} {len = 0} {bytes = []} refl refl)))
      (consume 0 (omega arith) refl commit)

second_taken-Parks : Parks pair 1 (takes (takes full 0) 1)
unfolding init status_of publish_cursor
second_taken-Parks =
    let opened =
      later (later first_taken-Parks (consume 0 (omega arith) refl (find_ok refl)))
        (consume 0 (omega arith) refl load_len) in
    later
      (later opened
        (consume 0 (omega arith) refl (validate_true {want = 1} {len = 0} {bytes = []} refl refl)))
      (consume 0 (omega arith) refl commit)

-- It waits for message 2, and sleeps on the stamp of message 0.
abbrev sleeping : Parking
sleeping =
    let s = takes (takes full 0) 1 in
    record s {
      waiters = 1;
      sleepers = update (update (update s.sleepers 0 announced) 0 (deciding 0)) 0 (asleep 0);
    }

sleeping-Parks : Parks pair 1 sleeping
unfolding init publish_cursor
sleeping-Parks =
    let counted = later second_taken-Parks (wait 0 (omega arith) refl announce) in
    later (later counted (wait 0 (omega arith) refl (see_behind (omega arith))))
      (wait 0 (omega arith) refl (fall_asleep refl))

asleep-unpublished_example : (slot_at pair sleeping.system.ring 2).seq ≢ 2
asleep-unpublished_example =
    asleep-unpublished pair-IsRingConfig (omega arith) (λ o. omega arith) sleeping-Parks
      (omega arith) 0 0 (omega arith) refl (λ seq e. absurd (cc))

held_back-awake_example :
    (0 < 1)
    × (status_of (slot_at pair full.system.ring 0).seq 0 ≡ ok)
    × ((seen : ℕ) → away ≢ asleep seen)
held_back-awake_example =
    held_back-awake pair-IsRingConfig (omega arith) (λ o. omega arith) held_back-Parks (omega arith)
      2 0 [] refl (omega arith)
