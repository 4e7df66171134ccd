-- ===== src/Segment/Torn.antt =====
-- `reset` at the end of a factory's work in include/shimmy/shm_segment.hpp: after an exception, or
-- when the segment that was returned is destroyed.
use shimmy.Common.{ℕ, ◌≡◌, ap, ◌∙◌, Bool, false, ◌&&◌, List, ◌∷◌, Option, none, some, if◌then◌else◌}
use shimmy.Segment.{Layout, segment_bytes}
use shimmy.Segment.Factory.{
  Call, Answers, ShmSegment, empty_segment, ShmError, Result, made, threw, has_name, reset, unwind,
}
use shimmy.Segment.Resources.{
  fd_open, mapped, unlinks, Released, Owns, reset-Released, unlinks-reset,
}

-- The calls made when the segment that a factory returned has been destroyed as well.
abbrev pub destroyed : Result × List Call → List Call
destroyed (made s memory, calls) = (reset s calls).1
destroyed (threw error, calls) = calls

-- What POSIX says of the answers: a descriptor that is not open, an address that is not mapped.
pub record IsFresh (before : List Call) (answers : Answers) : Type 0 where
  pub new_fd : (fd : ℕ) → answers.fd ≡ some fd → fd_open before fd ≡ false
  pub new_map : (address : ℕ) → answers.map ≡ some address → mapped before address ≡ none
  pub new_huge : (address : ℕ) → answers.huge ≡ some address → mapped before address ≡ none

-- The names unlinked when a segment is destroyed.
abbrev pub names_of : ShmSegment → List Call → List (List ℕ)
names_of s before =
    if s.owns_name && has_name s.name then s.name ∷ unlinks before else unlinks before

-- Everything is released, and these are the names unlinked.
pub record IsTorn (before : List Call) (names : List (List ℕ)) (calls : List Call) : Type 0 where
  pub released : Released before calls
  pub unlinked : unlinks calls ≡ names

module _ (before : List Call) where
  pub reset-IsTorn :
      (s : ShmSegment) (calls : List Call)
      → Owns before s calls
      → unlinks calls ≡ unlinks before
      → IsTorn before (names_of s before) (reset s calls).1
  reset-IsTorn s calls v e = record {
    released = reset-Released before s calls v;
    unlinked =
        unlinks-reset s calls
        ∙ ap (λ t. if s.owns_name && has_name s.name then s.name ∷ t else t) e;
  }

  pub unwind-IsTorn :
      (s : ShmSegment) (calls : List Call) (error : ShmError)
      → Owns before s calls
      → unlinks calls ≡ unlinks before
      → IsTorn before (names_of s before) (destroyed (unwind s calls error))
  unfolding unwind
  unwind-IsTorn s calls error v e = reset-IsTorn s calls v e

-- A segment that a factory is building, before it is mapped.
abbrev pub building : List ℕ → Bool → Option ℕ → ShmSegment
building name owns fd = record empty_segment { name = name; owns_name = owns; fd = fd }

abbrev pub mapping : Layout → ShmSegment → ℕ → ShmSegment
mapping l s address = record s { map = some address; map_bytes = segment_bytes l }
