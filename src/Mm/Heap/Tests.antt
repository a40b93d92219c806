-- ===== src/Mm/Heap/Tests.antt =====
-- The heap over a frame allocator that has one free block of 4 MiB.
use kernel_r.Prelude.{ℕ, ◌^◌, ◌≡◌, ◌≢◌, ok, arith}
use kernel_r.Mm.Buddy.Tests.{unit_region, unit_region-IsManaged, one_block}
use kernel_r.Mm.Heap.{HeapAllocator, alloc, dealloc}
use kernel_r.Mm.Heap.Large.{Restored, dealloc-alloc}

abbrev heap : HeapAllocator
heap = record {
  slab = record { list_heads = λ c. 0; next = λ p. 0 };
  virtual_bump_ptr = 4096;
  heap_end = 8192;
  frames = one_block.0;
}

dealloc-alloc_example :
    (ptr : ℕ) × (h' : HeapAllocator) × (alloc heap 5000 (2 ^ 3) ≡ ok (ptr, h'))
    × (ptr ≢ 0 → Restored unit_region heap one_block.1 (dealloc h' ptr 5000 (2 ^ 3)))
dealloc-alloc_example =
    dealloc-alloc unit_region-IsManaged heap 5000 3 (omega arith) (omega arith) (omega arith)
      (omega arith) one_block.3
