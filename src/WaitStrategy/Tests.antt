-- ===== src/WaitStrategy/Tests.antt =====
-- A reader that blocks for two rounds, as in tests/ring_concurrency_test.cpp, and one that goes to
-- sleep on the stamp of an old message.
use shimmy.Common.{ℕ, zero, suc, ◌<◌, ◌≡◌, refl, [], length, arith, update, u32}
use shimmy.Ring.{Ring, init, writing_seq}
use shimmy.Ring.Log.{Log}
use shimmy.Ring.Publish.{Logs, init-Logs}
use shimmy.Ring.Tests.{zeroed, lossy, lossy-IsRingConfig}
use shimmy.Consumer.Tests.{five, sent, sent-Logs, at_two}
use shimmy.WaitStrategy.{read_blocking}
use shimmy.WaitStrategy.Blocking.{Awaits, read_blocking-Awaits}
use shimmy.WaitStrategy.Eventcount.{
  Slotwise, quiet, announced, deciding, asleep, resting, publish, nobody_waits, announce,
  see_behind, fall_asleep, producer, reader, Leads, begin, later,
}
use shimmy.WaitStrategy.Sleepers.{insiders}
use shimmy.WaitStrategy.StoreBuffer.{
  Buffered, publish as publishes, drain, nobody_waits as nobody, producer as stores,
  reader as reads, BufferedLeads, begin as begins, later as goes_on, at_first,
}
use shimmy.WaitStrategy.LostWakeup.{asleep-hasty, lost-wakeup}
use shimmy.WaitStrategy.Wakeups.{waiters-insiders}

-- Nothing is published in the first two rounds.
abbrev logs : ℕ → Log
logs zero = []
logs (suc zero) = []
logs (suc (suc q)) = five

abbrev rings : ℕ → Ring
rings zero = init lossy zeroed
rings (suc zero) = init lossy zeroed
rings (suc (suc q)) = sent

rings-Logs : (q : ℕ) → Logs lossy (logs q) (rings q)
rings-Logs zero = init-Logs zeroed lossy-IsRingConfig
rings-Logs (suc zero) = init-Logs zeroed lossy-IsRingConfig
rings-Logs (suc (suc q)) = sent-Logs

logs-short : (q : ℕ) → length (logs q) < writing_seq
logs-short zero = omega arith
logs-short (suc zero) = omega arith
logs-short (suc (suc q)) = omega arith

read_blocking-Awaits_example : Awaits lossy logs 8 0 1 (read_blocking lossy 8 rings at_two)
read_blocking-Awaits_example =
    read_blocking-Awaits lossy logs lossy-IsRingConfig rings rings-Logs logs-short 8 at_two
      (omega arith)

-- Message 0 has been published, and reader 0 sleeps until message 4 takes its slot.
abbrev sleeping : Slotwise
sleeping = record quiet {
  stamp = 0;
  waiters = 1;
  sleepers = update (update (update quiet.sleepers 0 announced) 0 (deciding 0)) 0 (asleep 0);
}

sleeping-Leads : Leads 1 (λ _. 4) sleeping
sleeping-Leads =
    let stamped =
      later (later begin (producer (publish 0 refl))) (producer (nobody_waits refl refl)) in
    let counted = later stamped (reader 0 (omega arith) announce) in
    later (later counted (reader 0 (omega arith) (see_behind (omega arith))))
      (reader 0 (omega arith) (fall_asleep refl))

waiters-insiders_example : 1 ≡ insiders sleeping.sleepers 1
waiters-insiders_example = waiters-insiders (omega arith) sleeping-Leads

-- On x86-64: message 0 has been published, and reader 0 sleeps until message 4 takes its slot.
abbrev dozing : Buffered
dozing = record at_first {
  stamp = 0;
  waiters = 1;
  sleepers = update (update (update at_first.sleepers 0 announced) 0 (deciding 0)) 0 (asleep 0);
}

dozing-BufferedLeads : BufferedLeads 1 (λ _. 4) dozing
dozing-BufferedLeads =
    let stored = goes_on (goes_on begins (stores (publishes 0 refl))) (stores (drain refl)) in
    let counted =
      goes_on (goes_on stored (stores (nobody refl refl))) (reads 0 (omega arith) announce) in
    goes_on (goes_on counted (reads 0 (omega arith) (see_behind (omega arith))))
      (reads 0 (omega arith) (fall_asleep refl))

asleep-hasty_example : (0 < 4) × (u32 0 ≡ u32 0) × (dozing.pending ≡ [])
asleep-hasty_example =
    asleep-hasty (omega arith) dozing-BufferedLeads 0 0 (omega arith) refl refl refl

lost-wakeup_example :
    (s : Buffered) × BufferedLeads 1 (λ _. 4) s
    × (s.sleepers 0 ≡ asleep 0)
    × (s.stamp ≡ 4)
    × (s.pending ≡ [])
    × (s.waker ≡ resting)
lost-wakeup_example = lost-wakeup 0 0 (omega arith) (omega arith)
