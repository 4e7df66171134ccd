-- ===== src/Segment/Tests.antt =====
-- Segments as in tests/shm_segment_test.cpp: creation, opening by the same and by another build,
-- failures of the system, and a consumer that attaches late.
use shimmy.Common.{
  ◌+◌, ℕ, ◌^◌, ◌≤◌, ◌<◌, ◌≡◌, ◌≢◌, ◌↔◌, refl, true, false, List, [], ◌∷◌, none, some, take, arith,
  ◌==◌,
}
use shimmy.Ring.{Ring}
use shimmy.Ring.Tests.{zeroed, lossy, lossless}
use shimmy.Segment.{
  Layout, validate_header, construct, zero_header, header_stores, store_all, ring_offset,
  segment_bytes, header_sizeof,
}
use shimmy.Segment.Align.{IsLayout, IsAligned, ring_offset-IsAligned}
use shimmy.Segment.Header.{Agrees, validate_header-construct, validate_header-header_stores}
use shimmy.Segment.Factory.{Answers, create, open_segment}
use shimmy.Segment.Resources.{Released, unlinks}
use shimmy.Segment.Torn.{destroyed, IsFresh}
use shimmy.Segment.Teardown.{create-Released, create-unlinks, open_segment-Released}
use shimmy.Segment.Attach.{
  Attached, attach_consumer_at_current, attach_consumer_at_current-Attached,
}

abbrev lossy_layout : Layout
lossy_layout = record { config = lossy; ring_sizeof = 768; ring_alignof = 64; slot_sizeof = 128 }

abbrev lossless_layout : Layout
lossless_layout = record {
  config = lossless;
  ring_sizeof = 768;
  ring_alignof = 64;
  slot_sizeof = 128;
}

lossy_layout-IsLayout : IsLayout lossy_layout
lossy_layout-IsLayout = record { positive = omega arith; power_of_two = refl; fits = omega arith }

-- The ring begins at the second cache line.
offset_is : (ring_offset lossy_layout ≡ 128) × (segment_bytes lossy_layout ≡ 896)
unfolding ring_offset segment_bytes
offset_is = (refl, refl)

ring_offset-IsAligned_example :
    IsAligned header_sizeof 64 (ring_offset lossy_layout)
    × (segment_bytes lossy_layout ≡ ring_offset lossy_layout + lossy_layout.ring_sizeof)
    × (segment_bytes lossy_layout < 2 ^ 64)
ring_offset-IsAligned_example = ring_offset-IsAligned lossy_layout lossy_layout-IsLayout

validate_header-construct_example :
    (validate_header lossless_layout 896 (construct lossy_layout zeroed).0 ≡ none)
    ↔ (Agrees lossy_layout lossless_layout × (segment_bytes lossless_layout ≤ 896))
validate_header-construct_example =
    validate_header-construct lossy_layout lossless_layout 896 zeroed

validate_header-header_stores_example :
    validate_header lossy_layout 896 (store_all zero_header (take 11 (header_stores lossy_layout)))
    ≢ none
validate_header-header_stores_example =
    validate_header-header_stores lossy_layout lossy_layout 896 11 (omega arith)

abbrev fine : Answers
fine = record { fd = some 3; resized = true; file_size = some 896; map = some 4096; huge = none }

fine-IsFresh : IsFresh [] fine
fine-IsFresh = record { new_fd = λ fd e. refl; new_map = λ a e. refl; new_huge = λ a e. refl }

-- The mapping fails.
abbrev unmapped : Answers
unmapped = record fine { map = none }

unmapped-IsFresh : IsFresh [] unmapped
unmapped-IsFresh = record { new_fd = λ fd e. refl; new_map = λ a e. refl; new_huge = λ a e. refl }

abbrev shm_name : List ℕ
shm_name = 47 ∷ 120 ∷ []

create-Released_example :
    Released [] (destroyed (create lossy_layout shm_name true unmapped zeroed []))
create-Released_example =
    create-Released lossy_layout [] unmapped unmapped-IsFresh shm_name zeroed true tt

create-unlinks_example :
    unlinks (destroyed (create lossy_layout shm_name false fine zeroed [])) ≡ shm_name ∷ []
create-unlinks_example = create-unlinks lossy_layout [] fine fine-IsFresh shm_name zeroed false tt

open_segment-Released_example :
    let after =
      destroyed (open_segment lossless_layout shm_name fine (construct lossy_layout zeroed) []) in
    Released [] after × (unlinks after ≡ [])
open_segment-Released_example =
    open_segment-Released lossless_layout [] fine fine-IsFresh shm_name
      (construct lossy_layout zeroed) tt

-- Nine messages have been published, and cursor 0 is past the fifth.
abbrev running : Ring
running = record zeroed { next_publish = 9; cursors = λ i. record { value = 7; in_use = i == 0 } }

attach_consumer_at_current-Attached_example :
    let (k, r') = attach_consumer_at_current lossless running in Attached lossless running k r'
attach_consumer_at_current-Attached_example =
    attach_consumer_at_current-Attached lossless running refl
