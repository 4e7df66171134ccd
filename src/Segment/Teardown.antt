-- ===== src/Segment/Teardown.antt =====
-- `create`, `open`, the destructor and the move assignment of include/shimmy/shm_segment.hpp: what
-- is released, and which names are unlinked, whatever the system answers.
use shimmy.Common.{
  ℕ, ◌+◌, ◌*◌, ◌≡◌, refl, Bool, true, false, List, ◌∷◌, Option, none, some, if◌then◌else◌, ltb,
  Bool-cases, inl, inr,
}
use shimmy.Ring.{Ring}
use shimmy.Segment.{
  Layout, SegmentHeader, Refusal, header_too_small, segment_bytes, header_sizeof, ring_offset,
  align_up,
}
use shimmy.Segment.Factory.{
  Call, open_fd, Answers, ShmSegment, has_name, reset, finish, create_map, create_shm, create_huge,
  create, open_checked, open_map, open_stat, open_shm, open_segment, move_assign, shm_open_failed,
  ftruncate_failed, mmap_failed, fstat_failed, layout_error,
}
use shimmy.Segment.Resources.{
  mapped, unlinks, IsProper, Released, Holds, open_fd-Holds, resize-Holds, map_at-Holds,
}
use shimmy.Segment.Torn.{
  destroyed, IsFresh, names_of, IsTorn, reset-IsTorn, unwind-IsTorn, building, mapping,
}

module _ (l : Layout) (before : List Call) (answers : Answers) (fresh : IsFresh before answers)
    (name : List ℕ) where
  nothing_held : IsProper before → Holds before none none 0 before
  nothing_held proper = record {
    proper = proper;
    fds = λ f. refl;
    fresh_fd = λ f e. absurd (cc);
    maps = λ a. refl;
    fresh_map = λ a e. absurd (cc);
  }

  create_map-IsTorn :
      (fd : Option ℕ) (region : Ring) (calls : List Call) (o : Option ℕ)
      → answers.map ≡ o
      → Holds before fd none 0 calls
      → unlinks calls ≡ unlinks before
      → IsTorn before
          (names_of (building name true fd) before)
          (destroyed (create_map l (building name true fd) region calls o))
  unfolding create_map finish
  create_map-IsTorn fd region calls none q v e =
      unwind-IsTorn before (building name true fd) calls mmap_failed v e
  create_map-IsTorn fd region calls (some address) q v e =
      reset-IsTorn before
        (record (mapping l (building name true fd) address) {
          ring = some (address + ring_offset l);
        })
        _ (map_at-Holds before fd 0 address (segment_bytes l) calls (fresh.new_map address q) v) e

  create_shm-IsTorn :
      (region : Ring) (o : Option ℕ)
      → answers.fd ≡ o
      → IsProper before
      → IsTorn before
          (names_of (building name true o) before)
          (destroyed (create_shm l (building name true none) answers region before o))
  unfolding create_shm
  create_shm-IsTorn region none q proper =
      unwind-IsTorn before (building name true none) before shm_open_failed (nothing_held proper)
        refl
  create_shm-IsTorn region (some fd) q proper =
      let opened = open_fd-Holds before 0 fd before (fresh.new_fd fd q) (nothing_held proper) in
      elim (Bool-cases answers.resized) [
        | inl fine ↦ rw fine (
            create_map-IsTorn (some fd) region _ answers.map refl
              (resize-Holds before 0 fd (segment_bytes l) _ opened) refl)
        | inr failed ↦ rw failed (
            unwind-IsTorn before (building name true (some fd)) (open_fd fd ∷ before)
              ftruncate_failed opened refl)
      ]

  -- The names that `create` and the destructor unlink together.
  abbrev pub unlinked_by : Bool → Option ℕ → List (List ℕ)
  unlinked_by true (some address) = unlinks before
  unlinked_by _ _ = if has_name name then name ∷ unlinks before else unlinks before

  create_huge-IsTorn :
      (region : Ring) (o : Option ℕ)
      → ((address : ℕ) → o ≡ some address → mapped before address ≡ none)
      → IsProper before
      → IsTorn before
          (unlinked_by true o)
          (destroyed (create_huge l (building name true none) answers region before o))
  unfolding create_huge finish
  create_huge-IsTorn region none q proper = create_shm-IsTorn region answers.fd refl proper
  create_huge-IsTorn region (some address) q proper =
      reset-IsTorn before
        (record (building name false none) {
          ring = some (address + ring_offset l);
          map = some address;
          map_bytes = align_up (segment_bytes l) (2 * 1024 * 1024);
          hugepages_active = true;
        })
        _ (map_at-Holds before none 0 address _ before (q address refl) (nothing_held proper)) refl

  create-IsTorn :
      (region : Ring) (hugepages : Bool)
      → IsProper before
      → IsTorn before
          (unlinked_by hugepages answers.huge)
          (destroyed (create l name hugepages answers region before))
  unfolding create
  create-IsTorn region true proper = create_huge-IsTorn region answers.huge fresh.new_huge proper
  create-IsTorn region false proper =
      create_huge-IsTorn region none (λ address q. absurd (cc)) proper

  -- When the kernel answers with a descriptor that is not open and addresses where nothing is
  -- mapped, and the calls before were proper: whatever fails in `create`, and after it succeeds
  -- once the segment is destroyed, the descriptors and mappings are those from before, nothing is
  -- closed or unmapped that is not open, and every mapping is unmapped at its full length.
  pub create-Released :
      (region : Ring) (hugepages : Bool)
      → IsProper before
      → Released before (destroyed (create l name hugepages answers region before))
  create-Released region hugepages proper = (create-IsTorn region hugepages proper).released

  -- When the kernel answers with a descriptor that is not open and addresses where nothing is
  -- mapped, and the calls before were proper: `create` and the destruction of its result unlink
  -- the name once, if it is not empty, on success and on every failure, a failed `shm_open`
  -- included. They unlink nothing when hugepages were asked for and obtained.
  pub create-unlinks :
      (region : Ring) (hugepages : Bool)
      → IsProper before
      → unlinks (destroyed (create l name hugepages answers region before))
        ≡ unlinked_by hugepages answers.huge
  create-unlinks region hugepages proper = (create-IsTorn region hugepages proper).unlinked

  open_checked-IsTorn :
      (fd : Option ℕ) (address : ℕ) (memory : SegmentHeader × Ring) (calls : List Call)
      (o : Option Refusal)
      → Holds before fd (some address) (segment_bytes l) calls
      → unlinks calls ≡ unlinks before
      → IsTorn before (unlinks before) (
          destroyed
            (open_checked l (mapping l (building name false fd) address) address memory calls o))
  unfolding open_checked
  open_checked-IsTorn fd address memory calls none v e =
      reset-IsTorn before
        (record (mapping l (building name false fd) address) {
          ring = some (address + ring_offset l);
        })
        calls v e
  open_checked-IsTorn fd address memory calls (some why) v e =
      unwind-IsTorn before (mapping l (building name false fd) address) calls (layout_error why) v e

  open_map-IsTorn :
      (fd : Option ℕ) (size : ℕ) (memory : SegmentHeader × Ring) (calls : List Call) (o : Option ℕ)
      → answers.map ≡ o
      → Holds before fd none 0 calls
      → unlinks calls ≡ unlinks before
      → IsTorn before
          (unlinks before)
          (destroyed (open_map l (building name false fd) size memory calls o))
  unfolding open_map
  open_map-IsTorn fd size memory calls none q v e =
      unwind-IsTorn before (building name false fd) calls mmap_failed v e
  open_map-IsTorn fd size memory calls (some address) q v e =
      open_checked-IsTorn fd address memory _ _
        (map_at-Holds before fd 0 address (segment_bytes l) calls (fresh.new_map address q) v) e

  open_stat-IsTorn :
      (fd : Option ℕ) (memory : SegmentHeader × Ring) (calls : List Call) (o : Option ℕ)
      → Holds before fd none 0 calls
      → unlinks calls ≡ unlinks before
      → IsTorn before
          (unlinks before)
          (destroyed (open_stat l (building name false fd) answers memory calls o))
  unfolding open_stat
  open_stat-IsTorn fd memory calls none v e =
      unwind-IsTorn before (building name false fd) calls fstat_failed v e
  open_stat-IsTorn fd memory calls (some size) v e = elim (Bool-cases (ltb size header_sizeof)) [
    | inl small ↦
        rw small
          (unwind-IsTorn before (building name false fd) calls (layout_error header_too_small) v e)
    | inr large ↦ rw large (open_map-IsTorn fd size memory calls answers.map refl v e)
  ]

  open_shm-IsTorn :
      (memory : SegmentHeader × Ring) (o : Option ℕ)
      → answers.fd ≡ o
      → IsProper before
      → IsTorn before
          (unlinks before)
          (destroyed (open_shm l (building name false none) answers memory before o))
  unfolding open_shm
  open_shm-IsTorn memory none q proper =
      unwind-IsTorn before (building name false none) before shm_open_failed (nothing_held proper)
        refl
  open_shm-IsTorn memory (some fd) q proper =
      open_stat-IsTorn (some fd) memory _ answers.file_size
        (open_fd-Holds before 0 fd before (fresh.new_fd fd q) (nothing_held proper)) refl

  -- When the kernel answers with a descriptor that is not open and an address where nothing is
  -- mapped, and the calls before were proper: whatever fails in `open`, the refusal of the header
  -- included, and after it succeeds once the segment is destroyed, the descriptors and mappings
  -- are those from before, by proper calls, and no name has been unlinked.
  pub open_segment-Released :
      (memory : SegmentHeader × Ring)
      → IsProper before
      → let after = destroyed (open_segment l name answers memory before) in
        Released before after × (unlinks after ≡ unlinks before)
  unfolding open_segment
  open_segment-Released memory proper =
      let torn = open_shm-IsTorn memory answers.fd refl proper in (torn.released, torn.unlinked)

-- A segment that has been moved from, or reset, releases nothing more.
pub reset-reset :
    (s : ShmSegment) (calls later : List Call) → (reset (reset s calls).0 later).1 ≡ later
unfolding reset
reset-reset s calls later = refl

pub reset-move_assign :
    (s other : ShmSegment) (calls : List Call)
    → let (target, source, moved) = move_assign false s other calls in
      (reset source (reset target moved).1).1 ≡ (reset other (reset s calls).1).1
unfolding move_assign reset
reset-move_assign s other calls = refl
