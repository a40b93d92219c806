-- ===== src/Mm/Buddy/Overlap.antt =====
-- Where the bits of orders 0 and 1 lie in a map with one bit for each pair of pages.
use kernel_r.Prelude.{
  ℕ, ◌+◌, ◌-◌, ◌*◌, ◌/◌, ◌^◌, ◌<◌, ◌≡◌, ap, arith, ok, word, shr_u64_lem, add_u64_lem, mul_u64_lem,
}
use kernel_r.Mm.Buddy.{BuddyAllocator, bit_place, offset_loop}

-- In memory of 64 KiB for each byte of the map, which is what the map is made for, each pair of
-- order 1 shares its bit with a pair of pages of the upper half, at a higher address.
pub bit_place-overlap :
    (b : BuddyAllocator) (i : ℕ)
    → b.bitmap_size * 8 < word
    → i < b.bitmap_size * 4
    → let pages = b.base_addr + (b.bitmap_size * 4 + i) * 2 ^ 13 in
      let blocks = b.base_addr + i * 2 ^ 14 in
      (pages < b.base_addr + b.bitmap_size * 2 ^ 16)
      × (blocks < pages)
      × (bit_place b 0 pages ≡ ok (b.bitmap_size * 4 + i))
      × (bit_place b 1 blocks ≡ ok (b.bitmap_size * 4 + i))
unfolding bit_place offset_loop
bit_place-overlap b i small lt =
    let e0 : (b.base_addr + (b.bitmap_size * 4 + i) * 2 ^ 13 - b.base_addr) / 2 ^ 13
        ≡ b.bitmap_size * 4 + i =
      omega arith in
    let e1 : (b.base_addr + i * 2 ^ 14 - b.base_addr) / 2 ^ 14 ≡ i = omega arith in
    (
      omega (arith, lt),
      omega (arith, lt),
      rw
          (
            shr_u64_lem (b.base_addr + (b.bitmap_size * 4 + i) * 2 ^ 13 - b.base_addr) 13
                (omega arith),
            e0,
            add_u64_lem (b.bitmap_size * 4 + i) 0 (omega (arith, small, lt)),
          )
          (ap ok (omega arith)),
      rw
          (
            shr_u64_lem (b.base_addr + i * 2 ^ 14 - b.base_addr) 14 (omega arith),
            e1,
            mul_u64_lem b.bitmap_size 8 small,
            shr_u64_lem (b.bitmap_size * 8) 1 (omega arith),
            add_u64_lem 0 (b.bitmap_size * 8 / 2) (omega (arith, small)),
            add_u64_lem i (0 + b.bitmap_size * 8 / 2) (omega (arith, small, lt)),
          )
          (ap ok (omega arith)),
    )
