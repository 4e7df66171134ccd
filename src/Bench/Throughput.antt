-- ===== src/Bench/Throughput.antt =====
-- The runs of bench/throughput_bench.cpp: a producer that publishes without waiting, readers that
-- drain the ring, and the best of the repetitions.
pub mod Drained
pub mod Report
pub mod Rows
use shimmy.Common.{
  ℕ, zero, suc, ◌+◌, Bool, ◌&&◌, List, [], ◌∷◌, Option, none, some, ltb, ◌==◌, if◌then◌else◌,
  length, map, ℤ,
}
use shimmy.Config.{Config}
use shimmy.Ring.{Ring, Outcome, published, stalled, out_of_bounds, publish, init}
use shimmy.Consumer.{Consumer, Status, ok, empty, lapped, read, commit, resync}
use shimmy.Bench.Timing.{max_i64, best_of}

-- The rates, of type `double`, are in Bench/Throughput/Report.antt.
pub record Cell : Type 0 where
  pub block_size : ℕ
  pub consumers : ℕ
  pub messages : ℤ
  pub best_elapsed_ns : ℕ

-- A turn of a reader behind its read, by `status()`; `got` counts what it has read.
abbrev pub drain_for : Status → Config → Ring → ℕ → Consumer → ℕ → Consumer × ℕ
drain_for ok c r count k got = ((commit c r k).0, got + 1)
drain_for lapped c r count k got = ((resync c r k count).0, got)
drain_for empty c r count k got = (k, got)

-- A reader's loop until it is stopped: the ring at each of its reads, and the count of messages that
-- a `resync` after it is given.
unfoldable pub drain : Config → List (Ring × ℕ) → Consumer → ℕ → Consumer × ℕ
unfolding read commit resync
drain c [] k got = (k, got)
drain c ((r, count) ∷ rings) k got =
    let (view, k') = read c r k in
    let (k'', got') = drain_for k'.last_status c r count k' got in drain c rings k'' got'

-- The ring behind a `publish` whose result is dropped.
abbrev pub ring_after : Ring → Outcome → Ring
ring_after r (published seq woke r') = r'
ring_after r stalled = r
ring_after r out_of_bounds = r

-- The loops of the warmup and of the timed part; under Overwrite one round is enough to publish.
unfoldable pub publish_times : Config → List ℕ → ℕ → Ring → Ring
unfolding publish
publish_times c msg zero r = r
publish_times c msg (suc n) r =
    publish_times c msg n (ring_after r (publish c 1 (λ _. r.cursors) r msg (length msg)))

-- The ring of one repetition, at its end.
abbrev pub repetition : Config → ℕ → ℕ → List ℕ → Ring → Ring
repetition c warmup messages msg region =
    publish_times c msg messages (publish_times c msg warmup (init c region))

-- `clocks` are the readings around the timed loop, one pair for each repetition.
unfoldable pub run_cell : ℕ → ℕ → ℤ → List (ℕ × ℕ) → Cell
unfolding best_of
run_cell block_size consumers messages clocks = record {
  block_size = block_size;
  consumers = consumers;
  messages = messages;
  best_elapsed_ns = best_of max_i64 clocks;
}

abbrev pub consumer_counts : List ℕ
consumer_counts = 0 ∷ 1 ∷ 2 ∷ 4 ∷ []

-- The sweep over the counts of consumers; those that want more cores than there are, are skipped.
unfoldable pub sweep : (ℕ → ℕ → Cell) → ℕ → ℕ → List ℕ → List Cell
sweep cell first_consumer_cpu ncpu [] = []
sweep cell first_consumer_cpu ncpu (cc ∷ counts) =
    let rest = sweep cell first_consumer_cpu ncpu counts in
    if ltb 0 cc && ltb ncpu (first_consumer_cpu + cc)
    then rest
    else cell 64 cc ∷ cell 256 cc ∷ cell 1024 cc ∷ cell 4096 cc ∷ rest
