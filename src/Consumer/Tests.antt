-- ===== src/Consumer/Tests.antt =====
-- Reads of a ring of four slots in which five messages have been published, as in
-- tests/ring_lap_test.cpp: message 0 is gone.
use shimmy.Common.{ℕ, ◌≤◌, ◌<◌, ◌≡◌, List, [], ◌∷◌, ◌++◌, arith, length, take}
use shimmy.Ring.{Ring, init, write_slot, produced}
use shimmy.Ring.Log.{Log}
use shimmy.Ring.Publish.{Logs, init-Logs, write_slot-Logs}
use shimmy.Ring.Tests.{zeroed, lossless, lossy, lossy-IsRingConfig}
use shimmy.Consumer.{attach, detach, move, Consumer, ok, lapped, fresh, read, read_copy, resync}
use shimmy.Consumer.Channel.{answer}
use shimmy.Consumer.Refine.{read-answer, read_copy-answer, resync-oldest}
use shimmy.Consumer.Lifetime.{Restored, detach-move}

abbrev pub five : Log
five = (1 ∷ []) ∷ (2 ∷ 3 ∷ []) ∷ [] ∷ (4 ∷ []) ∷ (5 ∷ 6 ∷ []) ∷ []

abbrev pub one_more : Ring → ℕ → List ℕ → Ring
one_more r seq bytes = write_slot lossy r seq bytes (length bytes)

abbrev pub sent : Ring
sent =
    one_more
      (one_more (one_more (one_more (one_more (init lossy zeroed) 0 (1 ∷ [])) 1 (2 ∷ 3 ∷ [])) 2 [])
        3 (4 ∷ []))
      4 (5 ∷ 6 ∷ [])

one_more-Logs :
    (log : Log) (r : Ring) (bytes : List ℕ)
    → length log < 5
    → Logs lossy log r
    → Logs lossy (log ++ (take (length bytes) bytes ∷ [])) (one_more r (length log) bytes)
one_more-Logs log r bytes few v =
    write_slot-Logs (omega arith) r bytes (length bytes) v.slots (omega arith)

pub sent-Logs : Logs lossy five sent
sent-Logs =
    let one =
      one_more-Logs [] (init lossy zeroed) (1 ∷ []) (omega arith)
        (init-Logs zeroed lossy-IsRingConfig) in
    let two = one_more-Logs _ _ (2 ∷ 3 ∷ []) (omega arith) one in
    let three = one_more-Logs _ _ [] (omega arith) two in
    let four = one_more-Logs _ _ (4 ∷ []) (omega arith) three in
    one_more-Logs _ _ (5 ∷ 6 ∷ []) (omega arith) four

abbrev pub at_two : Consumer
at_two = record (fresh 2) { next = 1; read_seq = 1 }

read-answer_example :
    let (view, k') = read lossy sent at_two in
    ((k'.last_status, view) ≡ answer 4 five 1) × (k'.next ≡ 1) × (k'.cursor_id ≡ 2)
read-answer_example = read-answer lossy-IsRingConfig (omega arith) sent-Logs at_two (omega arith)

read_copy-answer_example :
    let (out, k', r') = read_copy lossy sent at_two 1 in
    let (st, m) = answer 4 five 1 in
    (k'.last_status ≡ st)
    × (out ≡ take 1 m)
    × (k'.next ≡ (elim st [ ok ↦ 2 | _ ↦ 1 ]))
    × (r'.slots ≡ sent.slots)
read_copy-answer_example =
    read_copy-answer lossy-IsRingConfig (omega arith) sent-Logs at_two (omega arith) 1

resync-oldest_example :
    let (k', r') = resync lossy sent at_two (produced sent) in
    (k'.next ≤ 2 → (answer 4 five 2).0 ≡ ok) × (2 < k'.next → (answer 4 five 2).0 ≡ lapped)
resync-oldest_example =
    resync-oldest lossy-IsRingConfig (omega arith) sent-Logs at_two (omega arith) 2 (omega arith)

detach-move_example :
    let (k, r') = attach lossless zeroed in
    let (target, source) = move lossless k in
    (detach lossless r' source ≡ r')
    × Restored zeroed (detach lossless (detach lossless r' source) target)
detach-move_example = detach-move lossless zeroed
