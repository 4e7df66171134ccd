-- ===== src/Segment/Factory.antt =====
-- The class `ShmSegment` of include/shimmy/shm_segment.hpp: its members, its factories and its
-- teardown. A function gets the system calls made so far, newest first, and adds its own.
use shimmy.Common.{
  ℕ, ◌+◌, ◌*◌, Bool, true, false, ◌&&◌, List, [], ◌∷◌, Option, none, some, ltb, if◌then◌else◌,
}
use shimmy.Ring.{Ring}
use shimmy.Segment.{
  Layout, SegmentHeader, Refusal, header_too_small, validate_header, construct, align_up,
  ring_offset, segment_bytes, header_sizeof,
}

-- The system calls that succeeded and change what the process or the system holds.
pub data Call : Type 0 where
  open_fd : (fd : ℕ) → Call
  resize : (fd bytes : ℕ) → Call
  map_at : (address bytes : ℕ) → Call
  unmap : (address bytes : ℕ) → Call
  close : (fd : ℕ) → Call
  unlink : (name : List ℕ) → Call

-- What the system answers: `shm_open`, `ftruncate`, `fstat`, `mmap`, and `mmap` with MAP_HUGETLB.
pub record Answers : Type 0 where
  pub fd : Option ℕ
  pub resized : Bool
  pub file_size : Option ℕ
  pub map : Option ℕ
  pub huge : Option ℕ

-- `none` stands for a null pointer and for the file descriptor -1.
pub record ShmSegment : Type 0 where
  pub ring : Option ℕ
  pub map : Option ℕ
  pub map_bytes : ℕ
  pub fd : Option ℕ
  pub owns_name : Bool
  pub hugepages_active : Bool
  pub name : List ℕ

abbrev pub empty_segment : ShmSegment
empty_segment = record {
  ring = none;
  map = none;
  map_bytes = 0;
  fd = none;
  owns_name = false;
  hugepages_active = false;
  name = [];
}

-- `shm_os_error`, with the call that failed, and `shm_layout_error`.
pub data ShmError : Type 0 where
  shm_open_failed ftruncate_failed fstat_failed mmap_failed : ShmError
  layout_error : Refusal → ShmError

-- What a factory returns, with the memory that the segment shows, or what it throws.
pub data Result : Type 0 where
  made : ShmSegment → SegmentHeader × Ring → Result
  threw : ShmError → Result

abbrev pub has_name : List ℕ → Bool
has_name [] = false
has_name (c ∷ cs) = true

abbrev pub unmap_any : Option ℕ → ℕ → List Call → List Call
unmap_any none bytes calls = calls
unmap_any (some address) bytes calls = unmap address bytes ∷ calls

abbrev pub close_any : Option ℕ → List Call → List Call
close_any none calls = calls
close_any (some fd) calls = close fd ∷ calls

abbrev pub bytes_left : Option ℕ → ℕ → ℕ
bytes_left none bytes = bytes
bytes_left (some address) bytes = 0

-- `reset`, which is also the destructor.
unfoldable pub reset : ShmSegment → List Call → ShmSegment × List Call
reset s calls =
    let released = close_any s.fd (unmap_any s.map s.map_bytes calls) in
    (
      record empty_segment { map_bytes = bytes_left s.map s.map_bytes },
      if s.owns_name && has_name s.name then unlink s.name ∷ released else released,
    )

-- An exception leaves the factory: the segment that it was building is destroyed.
unfoldable pub unwind : ShmSegment → List Call → ShmError → Result × List Call
unfolding reset
unwind s calls error = (threw error, (reset s calls).1)

-- The end of `create`: `construct_ring_and_publish_header` and the return.
unfoldable pub finish : Layout → ShmSegment → ℕ → Ring → List Call → Result × List Call
unfolding construct ring_offset
finish l s address region calls =
    (made (record s { ring = some (address + ring_offset l) }) (construct l region), calls)

-- `create` after `ftruncate`, by the answer of `mmap`.
unfoldable pub create_map : Layout → ShmSegment → Ring → List Call → Option ℕ → Result × List Call
unfolding unwind finish segment_bytes
create_map l s region calls none = unwind s calls mmap_failed
create_map l s region calls (some address) =
    finish l (record s { map = some address; map_bytes = segment_bytes l }) address region
      (map_at address (segment_bytes l) ∷ calls)

-- `create` on the POSIX path, by the answer of `shm_open`.
unfoldable pub create_shm :
    Layout → ShmSegment → Answers → Ring → List Call → Option ℕ → Result × List Call
unfolding create_map
create_shm l s answers region calls none = unwind s calls shm_open_failed
create_shm l s answers region calls (some fd) =
    let opened = record s { fd = some fd } in
    if answers.resized
    then create_map l opened region (resize fd (segment_bytes l) ∷ open_fd fd ∷ calls) answers.map
    else unwind opened (open_fd fd ∷ calls) ftruncate_failed

-- `try_create_hugetlb`, and `create` after it.
unfoldable pub create_huge :
    Layout → ShmSegment → Answers → Ring → List Call → Option ℕ → Result × List Call
unfolding create_shm align_up
create_huge l s answers region calls none = create_shm l s answers region calls answers.fd
create_huge l s answers region calls (some address) =
    let rounded = align_up (segment_bytes l) (2 * 1024 * 1024) in
    let mapped = record s {
      map = some address;
      map_bytes = rounded;
      hugepages_active = true;
      owns_name = false;
    } in
    finish l mapped address region (map_at address rounded ∷ calls)

-- `create(name, opts)`; `region` is what the memory held.
unfoldable pub create : Layout → List ℕ → Bool → Answers → Ring → List Call → Result × List Call
unfolding create_huge
create l name hugepages answers region calls =
    let s = record empty_segment { name = name; owns_name = true } in
    create_huge l s answers region calls (if hugepages then answers.huge else none)

-- `open` after `validate_header`, by the exception that it throws.
unfoldable pub open_checked :
    Layout → ShmSegment → ℕ → SegmentHeader × Ring → List Call → Option Refusal → Result × List Call
unfolding unwind ring_offset
open_checked l s address memory calls (some why) = unwind s calls (layout_error why)
open_checked l s address memory calls none =
    (made (record s { ring = some (address + ring_offset l) }) memory, calls)

-- `open` by the answer of `mmap`.
unfoldable pub open_map :
    Layout → ShmSegment → ℕ → SegmentHeader × Ring → List Call → Option ℕ → Result × List Call
unfolding open_checked validate_header segment_bytes
open_map l s file_size memory calls none = unwind s calls mmap_failed
open_map l s file_size memory calls (some address) =
    open_checked l (record s { map = some address; map_bytes = segment_bytes l }) address memory
      (map_at address (segment_bytes l) ∷ calls) (validate_header l file_size memory.0)

-- `open` by the answer of `fstat`.
unfoldable pub open_stat :
    Layout → ShmSegment → Answers → SegmentHeader × Ring → List Call → Option ℕ → Result × List Call
unfolding open_map
open_stat l s answers memory calls none = unwind s calls fstat_failed
open_stat l s answers memory calls (some size) =
    if ltb size header_sizeof
    then unwind s calls (layout_error header_too_small)
    else open_map l s size memory calls answers.map

-- `open` by the answer of `shm_open`.
unfoldable pub open_shm :
    Layout → ShmSegment → Answers → SegmentHeader × Ring → List Call → Option ℕ → Result × List Call
unfolding open_stat
open_shm l s answers memory calls none = unwind s calls shm_open_failed
open_shm l s answers memory calls (some fd) =
    open_stat l (record s { fd = some fd }) answers memory (open_fd fd ∷ calls) answers.file_size

-- `open(name)` on the memory of a segment that is there.
unfoldable pub open_segment :
    Layout → List ℕ → Answers → SegmentHeader × Ring → List Call → Result × List Call
unfolding open_shm
open_segment l name answers memory calls =
    open_shm l (record empty_segment { name = name }) answers memory calls answers.fd

abbrev pub release_name_ownership : ShmSegment → ShmSegment
release_name_ownership s = record s { owns_name = false }

-- The move assignment: `this`, the other segment, and the calls. `same` says that they are one.
unfoldable pub move_assign :
    Bool → ShmSegment → ShmSegment → List Call → ShmSegment × ShmSegment × List Call
unfolding reset
move_assign same s other calls =
    let (emptied, released) = reset s calls in
    if same then (s, other, calls) else (other, emptied, released)
