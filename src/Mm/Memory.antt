-- ===== src/Mm/Memory.antt =====
-- src/mm/memory.rs: the reserved regions, the bump allocator of the boot, and the frames that the
-- rest of the kernel takes from the buddy allocator. The spinlocks are not modelled.
pub mod Reserved
pub mod Search
pub mod Bump
pub mod Frames
mod Tests
use kernel_r.Prelude.{
  ℕ, zero, suc, ◌+◌, ◌/◌, bit_and, Run, ok, panic, ◌>>=◌, Option, none, some, List, [], ◌∷◌, Bool,
  true, false, ◌&&◌, ◌||◌, ◌==◌, ltb, leb, get_elem?, set, add_u64, sub_u64, mul_u64, if◌then◌else◌,
}
use kernel_r.Mm.Align.{complement}
use kernel_r.Mm.Buddy.{BuddyAllocator}
use kernel_r.Mm.Buddy as Buddy

-- The name is its bytes.
pub record ReservedRegion : Type 0 where
  pub start : ℕ
  pub end : ℕ
  pub name : List ℕ

abbrev pub max_reserved : ℕ
max_reserved = 32

pub record RegionTracker : Type 0 where
  pub regions : List ReservedRegion
  pub count : ℕ

unfoldable pub reserve_region : RegionTracker → ℕ → ℕ → List ℕ → Run RegionTracker
reserve_region tracker start end name =
    let region : ReservedRegion = record { start = start; end = end; name = name } in
    if ltb tracker.count max_reserved
    then ok (record tracker {
      regions = set tracker.regions tracker.count region;
      count = tracker.count + 1;
    })
    else panic

-- phys_addr < region.end && end_addr > region.start
abbrev pub overlaps : ℕ → ℕ → ReservedRegion → Bool
overlaps phys_addr end_addr region = ltb phys_addr region.end && ltb region.start end_addr

-- for i in 0..tracker.count, with `rounds = tracker.count - i`; an index out of range panics.
abbrev pub any_overlap : List ReservedRegion → ℕ → ℕ → ℕ → Run Bool
any_overlap regions phys_addr end_addr zero = ok false
any_overlap [] phys_addr end_addr (suc rounds) = panic
any_overlap (region ∷ rest) phys_addr end_addr (suc rounds) =
    let later = any_overlap rest phys_addr end_addr rounds in
    if overlaps phys_addr end_addr region then ok true else later

unfoldable pub is_reserved : RegionTracker → ℕ → ℕ → Run Bool
is_reserved tracker phys_addr size = do
  end_addr ← add_u64 phys_addr size
  any_overlap tracker.regions phys_addr end_addr tracker.count

-- src/boot/boot_info.rs.
pub record MemoryMapEntry : Type 0 where
  pub base_addr : ℕ
  pub length : ℕ
  pub typ : ℕ
  pub reserved : ℕ

pub record BumpAllocator : Type 0 where
  pub next_free_frame : ℕ
  pub memory_map : List MemoryMapEntry

-- (addr + 4095) & !(4096 - 1)
abbrev pub page_up : ℕ → Run ℕ
page_up addr = do past ← add_u64 addr 4095; ok (bit_and past (complement 4095))

unfoldable pub init : ℕ → List MemoryMapEntry → Run BumpAllocator
init kernel_end memory_map = do
  aligned_addr ← page_up kernel_end
  ok (record { next_free_frame = aligned_addr; memory_map = memory_map })

unfoldable pub current_offset : BumpAllocator → ℕ
current_offset b = b.next_free_frame

-- for i in 0..count, with `rounds = count - i`: the first frame of the block that is reserved.
abbrev pub first_reserved : RegionTracker → ℕ → ℕ → ℕ → Run (Option ℕ)
first_reserved tracker candidate i zero = ok none
first_reserved tracker candidate i (suc rounds) = do
  offset ← mul_u64 i 4096
  check_addr ← add_u64 candidate offset
  hit ← is_reserved tracker check_addr 4096
  let later = first_reserved tracker candidate (i + 1) rounds
  if hit then ok (some check_addr) else later

-- The end of a round: the block, or the search again from past the reserved frame.
abbrev pub decide : (ℕ → Run (Option ℕ)) → ℕ → Option ℕ → Run (Option ℕ)
decide again candidate none = ok (some candidate)
decide again candidate (some check_addr) = do
  past ← add_u64 check_addr 4096
  again (bit_and past (complement 4095))

-- 'search: each round that goes on moves up by a frame or more, so that a round for each frame below
-- the region's end is enough.
abbrev pub search : ℕ → RegionTracker → (count size region_end candidate : ℕ) → Run (Option ℕ)
search zero tracker count size region_end candidate = ok none
search (suc fuel) tracker count size region_end candidate =
    let again : ℕ → Run (Option ℕ) = λ next. search fuel tracker count size region_end next in
    let tried = (do hit ← first_reserved tracker candidate 0 count; decide again candidate hit) in
    (do past ← add_u64 candidate size; if leb past region_end then tried else ok none)

-- The round for one entry of the map.
abbrev pub in_entry :
    RegionTracker → BumpAllocator → (count size : ℕ) → MemoryMapEntry → Run (Option ℕ)
in_entry tracker b count size mem =
    let found = (do
      region_end ← add_u64 mem.base_addr mem.length
      let from = if ltb mem.base_addr b.next_free_frame then b.next_free_frame else mem.base_addr
      candidate ← page_up from
      search (region_end / 4096 + 1) tracker count size region_end candidate) in
    if mem.typ == 1 then found else ok none

abbrev pub taken :
    BumpAllocator → ℕ → Run (Option ℕ × BumpAllocator) → Option ℕ → Run (Option ℕ × BumpAllocator)
taken b size later (some candidate) = do
  next ← add_u64 candidate size
  ok (some candidate, record b { next_free_frame = next })
taken b size later none = later

-- for mem in self.memory_map
abbrev pub in_entries :
    RegionTracker
    → BumpAllocator
    → (count size : ℕ) → List MemoryMapEntry
    → Run (Option ℕ × BumpAllocator)
in_entries tracker b count size [] = ok (none, b)
in_entries tracker b count size (mem ∷ rest) =
    let later = in_entries tracker b count size rest in
    (do found ← in_entry tracker b count size mem; taken b size later found)

unfoldable pub allocate_contiguous_frames :
    RegionTracker → BumpAllocator → ℕ → Run (Option ℕ × BumpAllocator)
allocate_contiguous_frames tracker b count = do
  size ← mul_u64 count 4096
  in_entries tracker b count size b.memory_map

-- crate::mm::paging::PHYS_OFFSET
abbrev pub phys_offset : ℕ
phys_offset = 18446603336221196288

abbrev pub phys_of : BuddyAllocator → Option ℕ → Run (Option ℕ × BuddyAllocator)
phys_of buddy (some virt_addr) = do
  phys_addr ← sub_u64 virt_addr phys_offset
  ok (some phys_addr, buddy)
phys_of buddy none = ok (none, buddy)

unfoldable pub allocate_frame : BuddyAllocator → Run (Option ℕ × BuddyAllocator)
allocate_frame buddy = do (virt_addr, left) ← Buddy.alloc buddy 0; phys_of left virt_addr

unfoldable pub clear_frame : BuddyAllocator → ℕ → Run BuddyAllocator
clear_frame buddy phys_addr = do
  virt_addr ← add_u64 phys_addr phys_offset
  Buddy.free buddy virt_addr 0

-- The bytes of the frame, by virtual address.
abbrev pub zero_frame :
    (ℕ → ℕ) → Option ℕ → BuddyAllocator → Run (Option ℕ × (ℕ → ℕ) × BuddyAllocator)
zero_frame bytes (some frame_addr) buddy = do
  ptr ← add_u64 frame_addr phys_offset
  ok (some frame_addr, (λ q. if leb ptr q && ltb q (ptr + 4096) then 0 else bytes q), buddy)
zero_frame bytes none buddy = ok (none, bytes, buddy)

unfoldable pub allocate_zeroed_frame :
    BuddyAllocator → (ℕ → ℕ) → Run (Option ℕ × (ℕ → ℕ) × BuddyAllocator)
allocate_zeroed_frame buddy bytes = do
  (frame, left) ← allocate_frame buddy
  zero_frame bytes frame left
