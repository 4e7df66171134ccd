-- ===== src/WaitStrategy/Attentive.antt =====
-- The invariant of the readers that sleep in `Futex::wait` (include/shimmy/wait_strategy.hpp) while the
-- producer of include/shimmy/ring.hpp publishes.
use shimmy.Common.{
  ℕ, ◌<◌, ◌≡◌, ◌⊎◌, ◌^◌, refl, sym, ap, inl, inr, false, if◌then◌else◌, Option, List, update,
  update_ne, u32,
}
use mathlib.Core.Path.{subst}
use shimmy.Config.{Config, index}
use shimmy.Ring.{Ring, slot_at}
use shimmy.Ring.Log.{Log}
use shimmy.System.{
  add_got, Pc, idle, ReaderPc, polling, Produce, call_overwrite, call_first, call_waiting,
  skip_free, see_claimed, see_behind, see_past, all_past, mark_slot, set_len, set_byte, stamp,
  count, Consume, find_ok, find_empty, find_lapped, load_len, load_byte, validate_true,
  validate_false, commit, resync, Reach, begin as starts, later as steps, produce as produces,
  consume as consumes,
}
use shimmy.System.Moves.{publish_cursor-cursors}
use shimmy.System.Invariant.{next_of}
use shimmy.WaitStrategy.Eventcount.{Sleep, Sleeper, away, woken}
use shimmy.WaitStrategy.Watched.{
  Watched, Watched-keep, Watched-nobody, Watched-roused, Watched-away, Watched-Sleep,
}
use shimmy.WaitStrategy.Parking.{
  Notice, nothing_due, due, rousing, due_after, Parking, on_slot, Park, produce, nobody_waits,
  somebody_waits, wake_all, consume, wait, Parks, begin, later,
}
use shimmy.WaitStrategy.Sleepers.{insiders-away}
use shimmy.WaitStrategy.Parked.{IsCalm, Produce-Holds}

-- `publish` notifies before it returns.
abbrev pub IsPrompt : Notice → Pc → Type 0
IsPrompt notice p = (notice ≡ nothing_due) ⊎ (p ≡ idle)

pub record Attentive (c : Config) (n : ℕ) (s : Parking) : Type 0 where
  pub follows : Reach c n s.system
  pub watched :
      Watched n
        (λ i. next_of (s.system.readers i))
        (λ i. IsCalm c s.notice s.system.pc (next_of (s.system.readers i)))
        (λ i. (slot_at c s.system.ring (next_of (s.system.readers i))).seq)
        s.waiters
        s.sleepers
  pub prompt : IsPrompt s.notice s.system.pc

-- The producer's step `count` alone leaves a notice due, and ends idle.
Produce-IsPrompt :
    {c : Config} {r r' : Ring} {p p' : Pc} {log log' : Log}
    → Produce c r log p r' p' log'
    → IsPrompt (due_after p) p'
Produce-IsPrompt (call_overwrite m fits o) = inl refl
Produce-IsPrompt (call_first m fits o early) = inl refl
Produce-IsPrompt (call_waiting m fits o late) = inl refl
Produce-IsPrompt (skip_free lt free) = inl refl
Produce-IsPrompt (see_claimed lt used) = inl refl
Produce-IsPrompt (see_behind low) = inl refl
Produce-IsPrompt (see_past above) = inl refl
Produce-IsPrompt (all_past end) = inl refl
Produce-IsPrompt mark_slot = inl refl
Produce-IsPrompt set_len = inl refl
Produce-IsPrompt (set_byte b e) = inl refl
Produce-IsPrompt (stamp e) = inl refl
Produce-IsPrompt count = inr refl

-- A reader's step leaves the slots.
Consume-slots :
    {c : Config} {i : ℕ} {r r' : Ring} {q q' : ReaderPc} {o : Option (ℕ × List ℕ)}
    → Consume c i r q r' q' o
    → r'.slots ≡ r.slots
Consume-slots (find_ok h) = refl
Consume-slots (find_empty h) = refl
Consume-slots (find_lapped h) = refl
Consume-slots load_len = refl
Consume-slots (load_byte h) = refl
Consume-slots (validate_true h k) = refl
Consume-slots (validate_false h) = refl
Consume-slots {c} {i} {r} (commit {want}) =
    ap (λ (t : Ring). t.slots) (publish_cursor-cursors c r i _)
Consume-slots {c} {i} {r} resync = ap (λ (t : Ring). t.slots) (publish_cursor-cursors c r i _)

module _ {c : Config} {n : ℕ} {s : Parking} (inv : Attentive c n s) where
  produce-Attentive :
      {r : Ring} {p : Pc} {log : Log}
      → s.notice ≡ nothing_due
      → Produce c s.system.ring s.system.log s.system.pc r p log
      → Attentive c n (record s {
        system = record s.system { ring = r; pc = p; log = log };
        notice = due_after s.system.pc;
      })
  produce-Attentive {r} {p} {log} idle_ step = record {
    follows = steps inv.follows (produces step);
    watched = Watched-keep inv.watched _ _ (λ i seen v calm.
        Produce-Holds (next_of (s.system.readers i)) step seen
          (λ still.
            v (
              subst (λ t. IsCalm c t s.system.pc (next_of (s.system.readers i))) (sym idle_) still))
          calm);
    prompt = Produce-IsPrompt step;
  }

  nobody-Attentive :
      {seq : ℕ}
      → s.notice ≡ due seq
      → s.waiters ≡ 0
      → Attentive c n (record s { notice = nothing_due })
  nobody-Attentive at none_inside = record {
    follows = inv.follows;
    watched = Watched-nobody inv.watched _ none_inside;
    prompt = inl refl;
  }

  -- The same message is in hand.
  somebody-Attentive :
      {seq : ℕ} → s.notice ≡ due seq → Attentive c n (record s { notice = rousing seq })
  somebody-Attentive {seq} at = record {
    follows = inv.follows;
    watched = Watched-keep inv.watched _ _ (λ i seen v calm.
        v (subst (λ t. IsCalm c t s.system.pc (next_of (s.system.readers i))) (sym at) calm));
    prompt = elim inv.prompt [ inl none_due ↦ absurd (cc (none_due, at)) | inr rests ↦ inr rests ];
  }

  rousing-IsCalm :
      {seq : ℕ} (next : ℕ)
      → s.notice ≡ rousing seq
      → on_slot c seq next ≡ false
      → IsCalm c s.notice s.system.pc next
  rousing-IsCalm {seq} next at other =
      subst (λ t. IsCalm c t s.system.pc next) (sym at)
        (λ seq' e.
          let same : seq ≡ seq' = cc (e) in subst (λ t. on_slot c t next ≡ false) same other)

  -- Those on other slots sleep on.
  woken-Attentive :
      {seq : ℕ}
      → s.notice ≡ rousing seq
      → Attentive c n (record s {
        notice = nothing_due;
        sleepers = λ i.
            if on_slot c seq (next_of (s.system.readers i))
            then woken (s.sleepers i)
            else s.sleepers i;
      })
  woken-Attentive {seq} at = record {
    follows = inv.follows;
    watched =
        Watched-roused inv.watched _ (λ i. on_slot c seq (next_of (s.system.readers i)))
          (λ i other seen v calm. v (rousing-IsCalm (next_of (s.system.readers i)) at other));
    prompt = inl refl;
  }

  consume-Attentive :
      (i : ℕ) {r : Ring} {q : ReaderPc} {o : Option (ℕ × List ℕ)}
      → i < n
      → s.sleepers i ≡ away
      → Consume c i s.system.ring (s.system.readers i) r q o
      → Attentive c n (record s {
        system = record s.system {
          ring = r;
          readers = update s.system.readers i q;
          got = update s.system.got i (add_got o (s.system.got i));
        };
      })
  consume-Attentive i {r} {q} {o} lt out step = record {
    follows = steps inv.follows (consumes i lt step);
    watched = Watched-away inv.watched _ _ _ i out (λ j other.
        let stays = update_ne s.system.readers i q j (λ e. other (sym e)) in
        (
          ap next_of stays,
          λ seen v calm.
              subst (λ t. u32 (r.slots (index c (next_of t))).seq ≡ u32 seen) (sym stays)
                (subst
                  (λ slots. u32 (slots (index c (next_of (s.system.readers j)))).seq ≡ u32 seen)
                  (sym (Consume-slots step))
                  (v (subst (λ t. IsCalm c s.notice s.system.pc (next_of t)) stays calm))),
        ));
    prompt = inv.prompt;
  }

  wait-Attentive :
      n < 2 ^ 31
      → (i : ℕ) {next w : ℕ} {q : Sleeper} → i < n
      → s.system.readers i ≡ polling next
      → Sleep (slot_at c s.system.ring next).seq s.waiters next (s.sleepers i) w q
      → Attentive c n (record s { waiters = w; sleepers = update s.sleepers i q })
  wait-Attentive few i {next} {w} {q} lt at step = record {
    follows = inv.follows;
    watched = Watched-Sleep inv.watched few i lt refl (
        subst (λ t. Sleep (slot_at c s.system.ring t).seq s.waiters t (s.sleepers i) w q)
          (sym (ap next_of at)) step);
    prompt = inv.prompt;
  }

module _ {c : Config} {n : ℕ} (few : n < 2 ^ 31) where
  Park-Attentive : {s t : Parking} → Attentive c n s → Park c n s t → Attentive c n t
  Park-Attentive inv (produce at step) = produce-Attentive inv at step
  Park-Attentive inv (nobody_waits at none_inside) = nobody-Attentive inv at none_inside
  Park-Attentive inv (somebody_waits at some_inside) = somebody-Attentive inv at
  Park-Attentive inv (wake_all at) = woken-Attentive inv at
  Park-Attentive inv (consume i lt out step) = consume-Attentive inv i lt out step
  Park-Attentive inv (wait i lt at step) = wait-Attentive inv few i lt at step

  pub Parks-Attentive : {s : Parking} → Parks c n s → Attentive c n s
  Parks-Attentive (begin region) = record {
    follows = starts region;
    watched = record { counted = insiders-away n; each = λ i lt. tt };
    prompt = inl refl;
  }
  Parks-Attentive (later before step) = Park-Attentive (Parks-Attentive before) step
