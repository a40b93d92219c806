-- ===== src/Mm/Heap.antt =====
-- `HeapAllocator` of src/mm/allocator.rs: small requests go to the slab allocator, which gets pages
-- of the heap's window of addresses, and large ones to the buddy allocator.
pub mod Large
mod Tests
use kernel_r.Prelude.{ℕ, ◌+◌, ◌*◌, Option, none, some, Run, ok, ◌>>=◌, add_u64, ltb, if◌then◌else◌}
use kernel_r.Mm.Align.{align_to}
use kernel_r.Mm.Order.{size_to_order}
use kernel_r.Mm.Buddy.{BuddyAllocator}
use kernel_r.Mm.Buddy as Buddy
use kernel_r.Mm.Slab.{SlabAllocator, list_index, populate_cache}
use kernel_r.Mm.Slab as Slab

-- The heap, and the frame allocator that it shares with the rest of the kernel.
pub record HeapAllocator : Type 0 where
  pub slab : SlabAllocator
  pub virtual_bump_ptr : ℕ
  pub heap_end : ℕ
  pub frames : BuddyAllocator

unfoldable pub init : HeapAllocator → ℕ → ℕ → Run HeapAllocator
init h heap_start heap_size = do
  heap_end ← add_u64 heap_start heap_size
  ok (record h { virtual_bump_ptr = heap_start; heap_end = heap_end })

unfoldable pub allocate_virtual_page : HeapAllocator → Run (Option ℕ × HeapAllocator)
allocate_virtual_page h = do
  past ← add_u64 h.virtual_bump_ptr 4096
  if ltb h.heap_end past
      then ok (none, h)
      else ok (some h.virtual_bump_ptr, record h { virtual_bump_ptr = past })

-- A pointer that may be null, from an `Option`.
abbrev pub or_null : Option ℕ → ℕ
or_null (some p) = p
or_null none = 0

abbrev pub alloc_page : HeapAllocator → ℕ → Option ℕ → Run (ℕ × HeapAllocator)
alloc_page h index (some new_page) = do
  slab ← populate_cache h.slab index new_page
  ok (new_page, record h { slab = slab })
alloc_page h index none = ok (0, h)

-- The slab's part of `alloc`, by what the slab answered.
abbrev pub alloc_small : HeapAllocator → ℕ → Option ℕ × SlabAllocator → Run (ℕ × HeapAllocator)
alloc_small h index (some ptr, slab) = ok (ptr, record h { slab = slab })
alloc_small h index (none, slab) = do
  (page, h') ← allocate_virtual_page (record h { slab = slab })
  alloc_page h' index page

unfoldable pub alloc_large : HeapAllocator → ℕ → Run (ℕ × HeapAllocator)
alloc_large h size = do
  page_aligned_size ← align_to size 4096
  if ltb (4 * 1024 * 1024) page_aligned_size then ok (0, h) else do
    order ← size_to_order page_aligned_size
    (block, frames) ← Buddy.alloc h.frames order
    ok (or_null block, record h { frames = frames })

abbrev pub alloc_by : HeapAllocator → ℕ → Option ℕ → Run (ℕ × HeapAllocator)
alloc_by h size (some index) = alloc_small h index (Slab.alloc h.slab size)
alloc_by h size none = alloc_large h size

-- `layout` is its size and its alignment.
unfoldable pub alloc : HeapAllocator → ℕ → ℕ → Run (ℕ × HeapAllocator)
alloc h layout_size layout_align = do
  size ← align_to layout_size layout_align
  alloc_by h size (list_index size)

unfoldable pub dealloc_large : HeapAllocator → ℕ → ℕ → Run HeapAllocator
dealloc_large h ptr size = do
  page_aligned_size ← align_to size 4096
  order ← size_to_order page_aligned_size
  frames ← Buddy.free h.frames ptr order
  ok (record h { frames = frames })

abbrev pub dealloc_by : HeapAllocator → ℕ → ℕ → Option ℕ → Run HeapAllocator
dealloc_by h ptr size (some index) = do
  slab ← Slab.free h.slab ptr size
  ok (record h { slab = slab })
dealloc_by h ptr size none = dealloc_large h ptr size

unfoldable pub dealloc : HeapAllocator → ℕ → ℕ → ℕ → Run HeapAllocator
dealloc h ptr layout_size layout_align = do
  size ← align_to layout_size layout_align
  dealloc_by h ptr size (list_index size)
