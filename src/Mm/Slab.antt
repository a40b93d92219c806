-- ===== src/Mm/Slab.antt =====
-- src/mm/slab.rs: free lists of small blocks, one for each size. The `ListNode` of a free block
-- lies in the block itself: `next` gives, by address, the pointer stored there. Null is 0.
pub mod Classes
pub mod Lists
pub mod Populate
mod Tests
use kernel_r.Prelude.{
  ℕ, zero, suc, ◌+◌, ◌-◌, ◌/◌, Option, none, some, List, [], ◌∷◌, get_elem?, Run, ok, panic, store,
  ltb, leb, ◌==◌, if◌then◌else◌,
}

-- BLOCK_SIZES
abbrev pub block_sizes : List ℕ
block_sizes = 8 ∷ 16 ∷ 32 ∷ 64 ∷ 128 ∷ 256 ∷ 512 ∷ 1024 ∷ 2048 ∷ []

pub record SlabAllocator : Type 0 where
  pub list_heads : ℕ → ℕ
  pub next : ℕ → ℕ

-- for i in 0..BLOCK_SIZES.len() { if size <= BLOCK_SIZES[i] { return Some(i); } }
unfoldable pub search_sizes : List ℕ → ℕ → ℕ → Option ℕ
search_sizes [] i size = none
search_sizes (block_size ∷ sizes) i size =
    let later = search_sizes sizes (i + 1) size in if leb size block_size then some i else later

unfoldable pub list_index : ℕ → Option ℕ
unfolding search_sizes
list_index size = if ltb 2048 size then none else search_sizes block_sizes 0 size

abbrev pub alloc_from : SlabAllocator → Option ℕ → Option ℕ × SlabAllocator
alloc_from s none = (none, s)
alloc_from s (some index) =
    let head = s.list_heads index in
    if head == 0
    then (none, s)
    else (some head, record s { list_heads = store s.list_heads index (s.next head) })

unfoldable pub alloc : SlabAllocator → ℕ → Option ℕ × SlabAllocator
alloc s size = alloc_from s (list_index size)

-- for _ in 0..(num_blocks - 1) { .. }, which returns `current_ptr` with the memory.
unfoldable pub link_loop : ℕ → ℕ → ℕ → (ℕ → ℕ) → ℕ × (ℕ → ℕ)
link_loop zero block_size current_ptr next = (current_ptr, next)
link_loop (suc rounds) block_size current_ptr next =
    let next_ptr = current_ptr + block_size in
    link_loop rounds block_size next_ptr (store next current_ptr next_ptr)

abbrev pub populate_with : SlabAllocator → ℕ → ℕ → Option ℕ → Run SlabAllocator
populate_with s index page_ptr none = panic
populate_with s index page_ptr (some block_size) =
    let num_blocks = 4096 / block_size in
    let (current_ptr, linked) = link_loop (num_blocks - 1) block_size page_ptr s.next in
    ok (record s {
      next = store linked current_ptr 0;
      list_heads = store s.list_heads index (page_ptr + block_size);
    })

-- An index out of range panics.
unfoldable pub populate_cache : SlabAllocator → ℕ → ℕ → Run SlabAllocator
unfolding link_loop
populate_cache s index page_ptr = populate_with s index page_ptr (get_elem? block_sizes index)

abbrev pub free_to : SlabAllocator → ℕ → Option ℕ → Run SlabAllocator
free_to s ptr none = panic
free_to s ptr (some index) = ok (record s {
  next = store s.next ptr (s.list_heads index);
  list_heads = store s.list_heads index ptr;
})

unfoldable pub free : SlabAllocator → ℕ → ℕ → Run SlabAllocator
free s ptr size = free_to s ptr (list_index size)
