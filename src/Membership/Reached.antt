-- ===== src/Membership/Reached.antt =====
-- The invariant in every state that the producer and consumers of include/shimmy/ring.hpp that come
-- and go bring about, from a ring after `init` that nobody has attached to.
use shimmy.Common.{◌≤◌, ◌<◌, none, arith, length}
use shimmy.Config.{Config, IsRingConfig}
use shimmy.Ring.{Ring, init, writing_seq}
use shimmy.Ring.Publish.{init-Logs}
use shimmy.Ring.Seats.{Seats}
use shimmy.System.Reached.{log-grows}
use shimmy.Membership.{Gathering, Happen, produce, attend, opening, Unfolds, begin, later}
use shimmy.Membership.Invariant.{MembersInv}
use shimmy.Membership.Producer.{Produce-Members}
use shimmy.Membership.Attending.{Attend-Members}

-- The invariant of a state of the whole.
abbrev pub GatheringInv : Config → Gathering → Type 0
GatheringInv c s = MembersInv c s.ring s.pc s.members s.got s.log

-- After `init` no cursor is claimed.
init-Seats :
    (c : Config) (region : Ring) → Seats c.max_consumers (init c region).cursors (λ i. none)
unfolding init
init-Seats c region = record {
  in_range = λ i id e. absurd (cc);
  single = λ i j id e f. absurd (cc);
  occupied = λ id lt u. absurd (ground arith);
}

module _ {c : Config} (v : IsRingConfig c) where
  opening-Members : (region : Ring) → GatheringInv c (opening c region)
  opening-Members region = record {
    slots = (init-Logs region v).slots;
    producer = (init-Logs region v).counted;
    seats = init-Seats c region;
    member = λ i. tt;
  }

  Happen-log : {s t : Gathering} → Happen c s t → length s.log ≤ length t.log
  Happen-log (produce step) = log-grows step
  Happen-log (attend i step) = omega arith

  Happen-Members :
      {s t : Gathering}
      → length s.log < writing_seq
      → GatheringInv c s
      → Happen c s t
      → GatheringInv c t
  Happen-Members short inv (produce step) = Produce-Members short step inv
  Happen-Members short inv (attend i step) = Attend-Members v short inv i step

  pub Unfolds-Members :
      {s : Gathering} → Unfolds c s → length s.log < writing_seq → GatheringInv c s
  Unfolds-Members (begin region) short = opening-Members region
  Unfolds-Members (later {s} {t} before step) short =
      let old : length s.log < writing_seq = omega (arith, Happen-log step) in
      Happen-Members old (Unfolds-Members before old) step
