-- ===== src/WaitStrategy/Parking.antt =====
-- A ring of include/shimmy/ring.hpp whose readers block by `Futex` of include/shimmy/wait_strategy.hpp: the
-- steps of the interleaved ring, and between them those of `Wait::wait` on the slot of the message
-- that a reader wants, and of `Wait::notify` at the end of `publish`. Every access is seen at once by
-- all (sequentially consistent); WaitStrategy/StoreBuffer has one slot with the store buffer of x86-64.
use shimmy.Common.{ℕ, ◌<◌, ◌≡◌, ◌≢◌, Bool, ◌==◌, if◌then◌else◌, Option, List, update}
use shimmy.Config.{Config, index}
use shimmy.Ring.{Ring, slot_at}
use shimmy.Ring.Log.{Log}
use shimmy.System.{System, Pc, advancing, ReaderPc, polling, Produce, Consume, add_got, start}
use shimmy.System.Invariant.{next_of}
use shimmy.WaitStrategy.Eventcount.{Sleeper, away, woken, Sleep}

-- What is left of `publish` behind its last store.
pub data Notice : Type 0 where
  nothing_due : Notice
  due : (seq : ℕ) → Notice  -- before the load of `waiters`
  rousing : (seq : ℕ) → Notice  -- the load was not 0; before FUTEX_WAKE on the slot's word

abbrev pub due_after : Pc → Notice
due_after (advancing seq) = due seq
due_after _ = nothing_due

pub record Parking : Type 0 where
  pub system : System
  pub waiters : ℕ
  pub notice : Notice
  pub sleepers : ℕ → Sleeper

-- Two messages have the same slot.
abbrev pub on_slot : Config → ℕ → ℕ → Bool
on_slot c seq next = index c seq == index c next

pub data Park (c : Config) (n : ℕ) (s : Parking) : Parking → Type 0 where
  produce :
      {r : Ring} {p : Pc} {log : Log}
      → s.notice ≡ nothing_due
      → Produce c s.system.ring s.system.log s.system.pc r p log
      → Park c n s (record s {
        system = record s.system { ring = r; pc = p; log = log };
        notice = due_after s.system.pc;
      })
  nobody_waits :
      {seq : ℕ}
      → s.notice ≡ due seq
      → s.waiters ≡ 0
      → Park c n s (record s { notice = nothing_due })
  somebody_waits :
      {seq : ℕ}
      → s.notice ≡ due seq
      → s.waiters ≢ 0
      → Park c n s (record s { notice = rousing seq })
  wake_all :
      {seq : ℕ}
      → s.notice ≡ rousing seq
      → Park c n s (record s {
        notice = nothing_due;
        sleepers = λ i.
            if on_slot c seq (next_of (s.system.readers i))
            then woken (s.sleepers i)
            else s.sleepers i;
      })
  -- A reader reads on when it is not in `wait`.
  consume :
      (i : ℕ) {r : Ring} {q : ReaderPc} {o : Option (ℕ × List ℕ)}
      → i < n
      → s.sleepers i ≡ away
      → Consume c i s.system.ring (s.system.readers i) r q o
      → Park c n s (record s {
        system = record s.system {
          ring = r;
          readers = update s.system.readers i q;
          got = update s.system.got i (add_got o (s.system.got i));
        };
      })
  -- `Wait::wait(slot.seq, next_, ...)`
  wait :
      (i : ℕ) {next w : ℕ} {q : Sleeper}
      → i < n
      → s.system.readers i ≡ polling next
      → Sleep (slot_at c s.system.ring next).seq s.waiters next (s.sleepers i) w q
      → Park c n s (record s { waiters = w; sleepers = update s.sleepers i q })

abbrev pub nobody_parked : Config → ℕ → Ring → Parking
nobody_parked c n region = record {
  system = start c n region;
  waiters = 0;
  notice = nothing_due;
  sleepers = λ _. away;
}

pub data Parks (c : Config) (n : ℕ) : Parking → Type 0 where
  begin : (region : Ring) → Parks c n (nobody_parked c n region)
  later : {s t : Parking} → Parks c n s → Park c n s t → Parks c n t
