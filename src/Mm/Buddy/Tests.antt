-- ===== src/Mm/Buddy/Tests.antt =====
-- The allocator on concrete memory: one naturally aligned 8 MiB unit at 8 MiB.
use kernel_r.Mm.Buddy.Overlap.{bit_place-overlap}
use kernel_r.Prelude.{
  ◌*◌, ◌<◌, ℕ, ◌+◌, ◌^◌, ◌≡◌, refl, Option, none, some, arith, Run, ok, panic, add_u64, mul_u64,
  shr_u64, shl_u64, ◌>>=◌,
}
use kernel_r.Mm.Buddy.{
  BuddyAllocator, init, alloc, free, free_loop, push_block, remove_block, toggle_bit, bit_place,
  offset_loop, search_up, take_block, split,
}
use kernel_r.Mm.Buddy.Alloc.{Answers, alloc-Allocated}
use kernel_r.Mm.Buddy.Cover.{cover-empty, inside-le_one}
use kernel_r.Mm.Buddy.Free.{Freed, free-Freed}
use kernel_r.Mm.Buddy.Init.{no_blocks, init-IsValid}
use kernel_r.Mm.Buddy.Place.{Region, IsManaged}
use kernel_r.Mm.Buddy.RoundTrip.{GivenBack, free-alloc}
use kernel_r.Mm.Buddy.Valid.{IsValid, block_at}

abbrev pub unit_region : Region
unit_region = record { base = 2 ^ 23; units = 1; bitmap_size = 256 }

pub unit_region-IsManaged : IsManaged unit_region
unit_region-IsManaged = record {
  base_pos = omega arith;
  base_aligned = refl;
  top = omega arith;
  room = omega arith;
  small = omega arith;
}

abbrev blank : BuddyAllocator
blank = record {
  free_list = λ o. 7;
  mem = λ p. record { next = 0; prev = 0 };
  bitmap = λ k. 0;
  bitmap_size = 0;
  base_addr = 0;
}

abbrev pub empty : BuddyAllocator
empty = init blank (λ k. 0) 256 (2 ^ 23)

init-IsValid_example : IsValid unit_region (init blank (λ k. 0) 256 (2 ^ 23)) no_blocks
init-IsValid_example = init-IsValid unit_region blank (λ k. 0) (λ k. refl)

empty-IsValid : IsValid unit_region empty no_blocks
empty-IsValid = init-IsValid unit_region blank (λ k. 0) (λ k. refl)

-- Block 3 of order 0, handed over with flags in the low bits.
free-Freed_example :
    Freed unit_region-IsManaged 0 3 no_blocks (free empty (block_at unit_region 0 3 + 5) 0)
free-Freed_example =
    free-Freed unit_region-IsManaged 0 3 5 empty-IsValid (omega arith) (omega arith)
      (λ p. omega (arith, cover-empty p, inside-le_one 0 (block_at unit_region 0 3) p))

-- The allocator with the top block free.
pub one_block :
    Freed unit_region-IsManaged 10 0 no_blocks (free empty (block_at unit_region 10 0 + 0) 10)
one_block =
    free-Freed unit_region-IsManaged 10 0 0 empty-IsValid (omega arith) (omega arith)
      (λ p. omega (arith, cover-empty p, inside-le_one 10 (block_at unit_region 10 0) p))

-- A request of order 2 splits that block.
alloc-Allocated_example :
    Answers unit_region-IsManaged 2 one_block.0 one_block.1 (alloc one_block.0 2)
alloc-Allocated_example = alloc-Allocated unit_region-IsManaged 2 one_block.3

free-alloc_example :
    (out : Option ℕ) × (b' : BuddyAllocator) × (alloc one_block.0 2 ≡ ok (out, b'))
    × GivenBack 2 b' unit_region one_block.1 out
free-alloc_example = free-alloc unit_region-IsManaged 2 one_block.3

answer : Run (Option ℕ × BuddyAllocator) → Option ℕ
answer (ok (out, b)) = out
answer panic = none

-- Freed twice as two halves, the top block is whole again, and `alloc` returns it.
halves_run : Run (Option ℕ × BuddyAllocator)
halves_run = do b1 ← free empty (2 ^ 23) 9; b2 ← free b1 (2 ^ 23 + 2 ^ 21) 9; alloc b2 10

halves_merge : answer halves_run ≡ some (2 ^ 23)
unfolding answer halves_run init free free_loop push_block remove_block toggle_bit bit_place
    offset_loop alloc search_up take_block split add_u64 mul_u64 shr_u64 shl_u64
halves_merge = refl

bit_place-overlap_example :
    let pages = 2 ^ 23 + (256 * 4 + 3) * 2 ^ 13 in
    let blocks = 2 ^ 23 + 3 * 2 ^ 14 in
    (pages < 2 ^ 23 + 256 * 2 ^ 16)
    × (blocks < pages)
    × (bit_place empty 0 pages ≡ ok (256 * 4 + 3))
    × (bit_place empty 1 blocks ≡ ok (256 * 4 + 3))
unfolding init
bit_place-overlap_example = bit_place-overlap empty 3 (omega arith) (omega arith)
