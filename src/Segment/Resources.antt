-- ===== src/Segment/Resources.antt =====
-- What a sequence of system calls leaves open: the account that the teardown of
-- include/shimmy/shm_segment.hpp is held against.
use shimmy.Common.{
  ℕ, ◌≡◌, refl, ap, ◌∙◌, Bool, true, false, ◌&&◌, List, [], ◌∷◌, Option, none, some, if◌then◌else◌,
  ◌==◌, arith,
}
use shimmy.Segment.Factory.{
  Call, open_fd, resize, map_at, unmap, close, unlink, ShmSegment, has_name, reset, unmap_any,
  close_any,
}

-- A file descriptor is open.
abbrev pub fd_open : List Call → ℕ → Bool
fd_open [] f = false
fd_open (open_fd fd ∷ calls) f = if fd == f then true else fd_open calls f
fd_open (close fd ∷ calls) f = if fd == f then false else fd_open calls f
fd_open (resize fd bytes ∷ calls) f = fd_open calls f
fd_open (map_at address bytes ∷ calls) f = fd_open calls f
fd_open (unmap address bytes ∷ calls) f = fd_open calls f
fd_open (unlink name ∷ calls) f = fd_open calls f

-- What is mapped at an address, with its length.
abbrev pub mapped : List Call → ℕ → Option ℕ
mapped [] a = none
mapped (map_at address bytes ∷ calls) a = if address == a then some bytes else mapped calls a
mapped (unmap address bytes ∷ calls) a = if address == a then none else mapped calls a
mapped (open_fd fd ∷ calls) a = mapped calls a
mapped (close fd ∷ calls) a = mapped calls a
mapped (resize fd bytes ∷ calls) a = mapped calls a
mapped (unlink name ∷ calls) a = mapped calls a

-- The names that were unlinked, newest first.
abbrev pub unlinks : List Call → List (List ℕ)
unlinks [] = []
unlinks (unlink name ∷ calls) = name ∷ unlinks calls
unlinks (open_fd fd ∷ calls) = unlinks calls
unlinks (close fd ∷ calls) = unlinks calls
unlinks (resize fd bytes ∷ calls) = unlinks calls
unlinks (map_at address bytes ∷ calls) = unlinks calls
unlinks (unmap address bytes ∷ calls) = unlinks calls

-- Only what is open is closed or resized, and only what is mapped is unmapped, at its full length.
abbrev pub IsProper : List Call → Type 0
IsProper [] = Unit {0}
IsProper (close fd ∷ calls) = (fd_open calls fd ≡ true) × IsProper calls
IsProper (resize fd bytes ∷ calls) = (fd_open calls fd ≡ true) × IsProper calls
IsProper (unmap address bytes ∷ calls) = (mapped calls address ≡ some bytes) × IsProper calls
IsProper (open_fd fd ∷ calls) = (fd_open calls fd ≡ false) × IsProper calls
IsProper (map_at address bytes ∷ calls) = (mapped calls address ≡ none) × IsProper calls
IsProper (unlink name ∷ calls) = IsProper calls

-- Descriptors and mappings are as they were.
pub record Released (before after : List Call) : Type 0 where
  pub proper : IsProper after
  pub fds : (f : ℕ) → fd_open after f ≡ fd_open before f
  pub maps : (a : ℕ) → mapped after a ≡ mapped before a

abbrev pub is : Option ℕ → ℕ → Bool
is none n = false
is (some k) n = k == n

-- The calls since `before` have left open the descriptor and the mapping named, and nothing else.
pub record Holds (before : List Call) (fd map : Option ℕ) (bytes : ℕ) (calls : List Call)
    : Type 0 where
  pub proper : IsProper calls
  pub fds : (f : ℕ) → fd_open calls f ≡ (if is fd f then true else fd_open before f)
  pub fresh_fd : (f : ℕ) → is fd f ≡ true → fd_open before f ≡ false
  pub maps : (a : ℕ) → mapped calls a ≡ (if is map a then some bytes else mapped before a)
  pub fresh_map : (a : ℕ) → is map a ≡ true → mapped before a ≡ none

-- They have left open what the segment holds.
abbrev pub Owns : List Call → ShmSegment → List Call → Type 0
Owns before s calls = Holds before s.fd s.map s.map_bytes calls

module _ (before : List Call) where
  -- What is opened adds to what is held.
  pub open_fd-Holds :
      (bytes fd : ℕ) (calls : List Call)
      → fd_open before fd ≡ false
      → Holds before none none bytes calls
      → Holds before (some fd) none bytes (open_fd fd ∷ calls)
  open_fd-Holds bytes fd calls fresh h = record {
    proper = (h.fds fd ∙ fresh, h.proper);
    fds = λ f. ground (arith, h.fds f);
    fresh_fd = λ f e. ground (arith, ap (λ (t : ℕ). fd_open before t));
    maps = h.maps;
    fresh_map = h.fresh_map;
  }

  pub resize-Holds :
      (bytes fd size : ℕ) (calls : List Call)
      → Holds before (some fd) none bytes calls
      → Holds before (some fd) none bytes (resize fd size ∷ calls)
  resize-Holds bytes fd size calls h = record {
    proper = (ground (arith, h.fds fd), h.proper);
    fds = h.fds;
    fresh_fd = h.fresh_fd;
    maps = h.maps;
    fresh_map = h.fresh_map;
  }

  pub map_at-Holds :
      (fd : Option ℕ) (old address bytes : ℕ) (calls : List Call)
      → mapped before address ≡ none
      → Holds before fd none old calls
      → Holds before fd (some address) bytes (map_at address bytes ∷ calls)
  map_at-Holds fd old address bytes calls fresh h = record {
    proper = (h.maps address ∙ fresh, h.proper);
    fds = h.fds;
    fresh_fd = h.fresh_fd;
    maps = λ a. ground (arith, h.maps a);
    fresh_map = λ a e. ground (arith, ap (λ (t : ℕ). mapped before t));
  }

  -- The steps of `reset` give it back.
  unmap_any-Holds :
      (fd map : Option ℕ) (bytes : ℕ) (calls : List Call)
      → Holds before fd map bytes calls
      → Holds before fd none bytes (unmap_any map bytes calls)
  unmap_any-Holds fd none bytes calls h = h
  unmap_any-Holds fd (some address) bytes calls h = record {
    proper = (ground (arith, h.maps address), h.proper);
    fds = h.fds;
    fresh_fd = h.fresh_fd;
    maps = λ a. ground (arith, h.maps a, h.fresh_map a);
    fresh_map = λ a e. absurd (cc);
  }

  close_any-Released :
      (fd : Option ℕ) (bytes : ℕ) (calls : List Call)
      → Holds before fd none bytes calls
      → Released before (close_any fd calls)
  close_any-Released none bytes calls h = record { proper = h.proper; fds = h.fds; maps = h.maps }
  close_any-Released (some fd) bytes calls h = record {
    proper = (ground (arith, h.fds fd), h.proper);
    fds = λ f. ground (arith, h.fds f, h.fresh_fd f);
    maps = h.maps;
  }

  pub unlink_if-Released :
      (b : Bool) (name : List ℕ) (calls : List Call)
      → Released before calls
      → Released before (if b then unlink name ∷ calls else calls)
  unlink_if-Released true name calls v = record { proper = v.proper; fds = v.fds; maps = v.maps }
  unlink_if-Released false name calls v = v

  -- `reset` releases what the segment owns.
  pub reset-Released :
      (s : ShmSegment) (calls : List Call) → Owns before s calls → Released before (reset s calls).1
  unfolding reset
  reset-Released s calls v =
      unlink_if-Released (s.owns_name && has_name s.name) s.name _
        (close_any-Released s.fd s.map_bytes _ (unmap_any-Holds s.fd s.map s.map_bytes calls v))

close_any-unlinks :
    (fd : Option ℕ) (calls : List Call) → unlinks (close_any fd calls) ≡ unlinks calls
close_any-unlinks none calls = refl
close_any-unlinks (some fd) calls = refl

unmap_any-unlinks :
    (map : Option ℕ) (bytes : ℕ) (calls : List Call)
    → unlinks (unmap_any map bytes calls) ≡ unlinks calls
unmap_any-unlinks none bytes calls = refl
unmap_any-unlinks (some address) bytes calls = refl

unlinks_if :
    (b : Bool) (name : List ℕ) (calls : List Call)
    → unlinks (if b then unlink name ∷ calls else calls)
      ≡ (if b then name ∷ unlinks calls else unlinks calls)
unlinks_if true name calls = refl
unlinks_if false name calls = refl

-- `reset` unlinks the name if the segment owns it and it is not empty.
pub unlinks-reset :
    (s : ShmSegment) (calls : List Call)
    → unlinks (reset s calls).1
      ≡ (if s.owns_name && has_name s.name then s.name ∷ unlinks calls else unlinks calls)
unfolding reset
unlinks-reset s calls =
    unlinks_if (s.owns_name && has_name s.name) s.name _
    ∙ ap (λ t. if s.owns_name && has_name s.name then s.name ∷ t else t)
        (close_any-unlinks s.fd _ ∙ unmap_any-unlinks s.map s.map_bytes calls)
