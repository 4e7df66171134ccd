-- ===== src/Bench/Micro.antt =====
-- The bodies of bench/ring_bench.cpp: publishing alone, and one message to and fro in one thread.
pub mod PingPong
use shimmy.Common.{ℕ, zero, suc, Bool, List, [], ◌∷◌, length}
use shimmy.Config.{Config}
use shimmy.Ring.{Ring, publish, init}
use shimmy.Consumer.{Consumer, attach, read, validate, commit}
use shimmy.Bench.Throughput.{ring_after, publish_times}

-- `BM_Publish64`, after so many iterations.
abbrev publish_64 : Config → List ℕ → ℕ → Ring → Ring
publish_64 c msg iterations region = publish_times c msg iterations (init c region)

-- One iteration of `BM_PublishReadValidate64`: the view, what `validate` says, the consumer, the ring.
unfoldable pub ping : Config → List ℕ → Ring → Consumer → List ℕ × Bool × Consumer × Ring
unfolding publish read validate commit
ping c msg r k =
    let r' = ring_after r (publish c 1 (λ _. r.cursors) r msg (length msg)) in
    let (view, k') = read c r' k in
    let (k'', r'') = commit c r' k' in (view, validate c r' k', k'', r'')

-- The iterations: each one's view and validity, the last first, and the consumer and the ring.
unfoldable pub ping_pong :
    Config → List ℕ → ℕ → Ring → Consumer → List (List ℕ × Bool) × Consumer × Ring
unfolding ping
ping_pong c msg zero r k = ([], k, r)
ping_pong c msg (suc n) r k =
    let (seen, k', r') = ping_pong c msg n r k in
    let (view, valid, k'', r'') = ping c msg r' k' in ((view, valid) ∷ seen, k'', r'')
