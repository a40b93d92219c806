-- ===== src/Mm/Buddy.antt =====
-- src/mm/buddy.rs: the binary buddy allocator. The `FreeBlock` headers lie in the free memory
-- itself (`mem`, by address) and the bitmap in memory of its own (`bitmap`, by byte offset): the
-- two do not overlap. A pointer is its address, and `null` is 0. `panic` is a Rust panic.
pub mod Alloc
pub mod Bits
pub mod Chain
pub mod Cover
pub mod Free
pub mod Give
pub mod Init
pub mod Keep
pub mod Merge
pub mod Overlap
pub mod Place
pub mod Push
pub mod Remove
pub mod RoundTrip
pub mod Repr
pub mod Split
pub mod Valid
pub mod Tests
use Prim.Native.Nat.{bit_xor}
use kernel_r.Prelude.{
  ℕ, zero, suc, ◌+◌, ◌-◌, ◌/◌, ◌%◌, ◌^◌, min, bit_and, Bool, true, false, Option, none, some, Run,
  ok, ◌>>=◌, ◌>>◌, require, add_u64, mul_u64, shr_u64, shl_u64, store, ltb, ◌==◌, if◌then◌else◌,
}
use kernel_r.Mm.Align.{complement}

abbrev pub null : ℕ
null = 0

pub record FreeBlock : Type 0 where
  pub next : ℕ
  pub prev : ℕ

abbrev pub max_order : ℕ
max_order = 11

pub record BuddyAllocator : Type 0 where
  pub free_list : ℕ → ℕ
  pub mem : ℕ → FreeBlock
  pub bitmap : ℕ → ℕ
  pub bitmap_size : ℕ
  pub base_addr : ℕ

-- `self.free_list[order]`, an index out of range panics.
abbrev pub list_head : BuddyAllocator → ℕ → Run ℕ
list_head b order = do require (ltb order max_order); ok (b.free_list order)

abbrev pub set_prev : (ℕ → FreeBlock) → ℕ → ℕ → ℕ → FreeBlock
set_prev mem p v = store mem p (record { next = (mem p).next; prev = v })

abbrev pub set_next : (ℕ → FreeBlock) → ℕ → ℕ → ℕ → FreeBlock
set_next mem p v = store mem p (record { next = v; prev = (mem p).prev })

unfoldable pub init : BuddyAllocator → (ℕ → ℕ) → ℕ → ℕ → BuddyAllocator
init b bitmap bitmap_size base_addr = record b {
  bitmap = bitmap;
  bitmap_size = bitmap_size;
  base_addr = base_addr;
  free_list = λ order. null;
}

abbrev pub no_lists : ℕ → ℕ
no_lists order = null

-- `new`; the memory is what it is.
unfoldable pub new_allocator : (ℕ → FreeBlock) → (ℕ → ℕ) → ℕ → ℕ → BuddyAllocator
new_allocator mem bitmap bitmap_size base_addr = record {
  free_list = no_lists;
  mem = mem;
  bitmap = bitmap;
  bitmap_size = bitmap_size;
  base_addr = base_addr;
}

-- `empty`: the bitmap is null, and none of its bytes is read.
unfoldable pub empty_allocator : (ℕ → FreeBlock) → (ℕ → ℕ) → BuddyAllocator
empty_allocator mem bitmap = record {
  free_list = no_lists;
  mem = mem;
  bitmap = bitmap;
  bitmap_size = 0;
  base_addr = 0;
}

unfoldable pub calculate_bitmap_size : ℕ → Run ℕ
calculate_bitmap_size highest_physical_address = do
  raw_bytes ← shr_u64 highest_physical_address 16
  past ← add_u64 raw_bytes 4095
  ok (bit_and past (complement 4095))

unfoldable pub push_block : BuddyAllocator → ℕ → ℕ → Run BuddyAllocator
push_block b order block = do
  head ← list_head b order
  let mem = set_next (set_prev b.mem block null) block head
  let mem' = if head == null then mem else set_prev mem head block
  ok (record b { mem = mem'; free_list = store b.free_list order block })

-- The first `if` of `remove_block`: the node before the block, or the head of the list.
abbrev pub unlink_before : BuddyAllocator → ℕ → ℕ → Run BuddyAllocator
unlink_before b order block =
    let node = b.mem block in
    if node.prev == null
    then (do
      require (ltb order max_order)
      ok (record b { free_list = store b.free_list order node.next }))
    else ok (record b { mem = set_next b.mem node.prev node.next })

-- The second `if`: the node after it.
abbrev pub unlink_after : BuddyAllocator → ℕ → BuddyAllocator
unlink_after b block =
    let node = b.mem block in
    if node.next == null then b else record b { mem = set_prev b.mem node.next node.prev }

unfoldable pub remove_block : BuddyAllocator → ℕ → ℕ → Run BuddyAllocator
remove_block b order block = do b' ← unlink_before b order block; ok (unlink_after b' block)

-- for i in 0..order { offset += (self.bitmap_size * 8) >> (i + 1); }
unfoldable pub offset_loop : ℕ → ℕ → ℕ → ℕ → Run ℕ
offset_loop bitmap_size zero i offset = ok offset
offset_loop bitmap_size (suc rounds) i offset = do
  bits ← mul_u64 bitmap_size 8
  part ← shr_u64 bits (i + 1)
  offset' ← add_u64 offset part
  offset_loop bitmap_size rounds (i + 1) offset'

-- The place of the pair's bit. `saturating_sub` is the subtraction of ℕ.
unfoldable pub bit_place : BuddyAllocator → ℕ → ℕ → Run ℕ
unfolding offset_loop
bit_place b order addr = do
  index ← shr_u64 (addr - b.base_addr) (12 + order + 1)
  offset ← offset_loop b.bitmap_size order 0 0
  add_u64 index offset

unfoldable pub toggle_bit : BuddyAllocator → ℕ → ℕ → Run (Bool × BuddyAllocator)
unfolding bit_place
toggle_bit b order addr = do
  bit_index ← bit_place b order addr
  let byte_index = bit_index / 8
  let mask = 2 ^ (bit_index % 8)
  require (ltb byte_index b.bitmap_size)
  let byte = bit_xor (b.bitmap byte_index) mask
  ok (bit_and byte mask == 0, record b { bitmap = store b.bitmap byte_index byte })

-- while curr_order > order { .. }, with `rounds = curr_order - order`.
unfoldable pub split : ℕ → ℕ → ℕ → BuddyAllocator → Run BuddyAllocator
split zero order block b = ok b
split (suc rounds) order block b = do
  half ← shl_u64 1 (12 + (order + rounds))
  buddy_addr ← add_u64 block half
  b1 ← push_block b (order + rounds) buddy_addr
  (_, b2) ← toggle_bit b1 (order + rounds) buddy_addr
  split rounds order block b2

-- Pops the head of the list of `ord` and splits it down to `order`.
unfoldable pub take_block : ℕ → ℕ → ℕ → BuddyAllocator → Run (Option ℕ × BuddyAllocator)
take_block ord order block b = do
  b1 ← remove_block b ord block
  (_, b2) ← toggle_bit b1 ord block
  b3 ← split (ord - order) order block b2
  ok (some block, b3)

-- for ord in order + 1..MAX_ORDER, with `rounds = MAX_ORDER - ord`.
unfoldable pub search_up : ℕ → ℕ → ℕ → BuddyAllocator → Run (Option ℕ × BuddyAllocator)
unfolding take_block
search_up zero ord order b = ok (none, b)
search_up (suc rounds) ord order b = do
  block ← list_head b ord
  let next = search_up rounds (ord + 1) order b
  if block == null then next else take_block ord order block b

unfoldable pub alloc : BuddyAllocator → ℕ → Run (Option ℕ × BuddyAllocator)
unfolding search_up
alloc b requested = do
  let order = min requested (max_order - 1)
  block ← list_head b order
  if block == null then search_up (max_order - (order + 1)) (order + 1) order b else do
    b1 ← remove_block b order block
    (_, b2) ← toggle_bit b1 order block
    ok (some block, b2)

-- while order < MAX_ORDER - 1 { .. } and the push behind it, with `rounds = MAX_ORDER - 1 - order`.
unfoldable pub free_loop : ℕ → ℕ → ℕ → BuddyAllocator → Run BuddyAllocator
free_loop zero addr order b = push_block b order addr
free_loop (suc rounds) addr order b = do
  (buddy_is_free, b1) ← toggle_bit b order addr
  size ← shl_u64 1 (12 + order)
  let merge = do
    b2 ← remove_block b1 order (bit_xor addr size)
    free_loop rounds (bit_and addr (complement size)) (order + 1) b2
  if buddy_is_free then merge else push_block b1 order addr

unfoldable pub free : BuddyAllocator → ℕ → ℕ → Run BuddyAllocator
unfolding free_loop
free b addr requested =
    let order = min requested (max_order - 1) in
    free_loop (max_order - 1 - order) (bit_and addr (complement 0xfff)) order b
