-- ===== src/Mm/Memory/Tests.antt =====
-- An instance of each theorem: one region of the bitmap's frames reserved, and 8 MiB of memory.
use mathlib.Core.Option.{some-injective, none-ne-some}
use kernel_r.Prelude.{
  ℕ, zero, suc, ◌+◌, ◌*◌, ◌<◌, ◌≡◌, refl, subst, Option, some, List, [], ◌∷◌, get_elem?, replicate,
  ok, word, arith,
}
use kernel_r.Mm.Buddy.{BuddyAllocator}
use kernel_r.Mm.Buddy as Buddy
use kernel_r.Mm.Buddy.Place.{Region, IsManaged}
use kernel_r.Mm.Buddy.Init.{no_blocks, init-IsValid}
use kernel_r.Mm.Memory.{
  ReservedRegion, RegionTracker, reserve_region, MemoryMapEntry, BumpAllocator,
  allocate_contiguous_frames, allocate_frame, phys_offset,
}
use kernel_r.Mm.Memory.Reserved.{IsTracker, Reserves, reserve_region-Reserves}
use kernel_r.Mm.Memory.Bump.{HasRoom, Answered, allocate_contiguous_frames-Answered}
use kernel_r.Mm.Memory.Frames.{TakenBack, clear_frame-allocate_frame}

abbrev blank_region : ReservedRegion
blank_region = record { start = 0; end = 0; name = [] }

abbrev tracker : RegionTracker
tracker = record {
  regions = record { start = 1048576; end = 1114112; name = 98 ∷ [] } ∷ replicate 31 blank_region;
  count = 1;
}

tracker-IsTracker : IsTracker tracker
tracker-IsTracker = record { places = refl; counted = omega arith }

reserve_region-Reserves_example :
    Reserves tracker 2097152 2101248 (115 ∷ []) (reserve_region tracker 2097152 2101248 (115 ∷ []))
reserve_region-Reserves_example =
    reserve_region-Reserves tracker 2097152 2101248 (115 ∷ []) tracker-IsTracker (omega arith)

abbrev memory_map : List MemoryMapEntry
memory_map =
    record { base_addr = 0; length = 654336; typ = 2; reserved = 0 }
    ∷ record { base_addr = 1048576; length = 1048576; typ = 1; reserved = 0 }
    ∷ []

abbrev bump : BumpAllocator
bump = record { next_free_frame = 1064960; memory_map = memory_map }

bump-HasRoom : HasRoom bump 2 memory_map
bump-HasRoom = record { next = omega arith; ends = ends }
  where
    ends :
        (i : ℕ) (mem : MemoryMapEntry)
        → get_elem? memory_map i ≡ some mem
        → mem.base_addr + mem.length + 2 * 4096 + 8192 < word
    ends zero mem e =
        subst (λ m. m.base_addr + m.length + 2 * 4096 + 8192 < word) (some-injective _ mem e)
          (omega arith)
    ends (suc zero) mem e =
        subst (λ m. m.base_addr + m.length + 2 * 4096 + 8192 < word) (some-injective _ mem e)
          (omega arith)
    ends (suc (suc i)) mem e = absurd (none-ne-some mem e)

-- Two frames, past the last block and past the region that is reserved.
allocate_contiguous_frames-Answered_example :
    Answered tracker tracker-IsTracker bump 2 memory_map (allocate_contiguous_frames tracker bump 2)
allocate_contiguous_frames-Answered_example =
    allocate_contiguous_frames-Answered tracker tracker-IsTracker bump 2 bump-HasRoom

abbrev high_region : Region
high_region = record { base = phys_offset; units = 1; bitmap_size = 256 }

high_region-IsManaged : IsManaged high_region
high_region-IsManaged = record {
  base_pos = omega arith;
  base_aligned = refl;
  top = omega arith;
  room = omega arith;
  small = omega arith;
}

abbrev blank : BuddyAllocator
blank = record {
  free_list = λ o. 7;
  mem = λ p. record { next = 0; prev = 0 };
  bitmap = λ k. 0;
  bitmap_size = 0;
  base_addr = 0;
}

abbrev empty : BuddyAllocator
empty = Buddy.init blank (λ k. 0) 256 phys_offset

clear_frame-allocate_frame_example :
    (frame : Option ℕ) × (b' : BuddyAllocator) × (allocate_frame empty ≡ ok (frame, b'))
    × TakenBack b' high_region no_blocks frame
clear_frame-allocate_frame_example =
    clear_frame-allocate_frame high_region-IsManaged (omega arith)
      (init-IsValid high_region blank (λ k. 0) (λ k. refl))
