-- ===== src/Mm/Buddy/Repr.antt =====
-- What an allocator stands for, the free blocks of each order and a bit for each pair, and how
-- `toggle_bit` acts on that.
use kernel_r.Prelude.{
  has, erase, ℕ, ◌+◌, ◌*◌, ◌/◌, ◌≤◌, ◌<◌, ◌≡◌, ◌∙◌, ap, Bool, true, not, ◌&&◌, ◌∷◌, arith, ok, ◌==◌,
  if◌then◌else◌, store,
}
use kernel_r.Mm.Buddy.{BuddyAllocator, null, max_order, toggle_bit}
use kernel_r.Mm.Buddy.Bits.{bit, flip, IsBytes, bit-flip, flip-IsBytes, toggle_bit-flip}
use kernel_r.Mm.Buddy.Chain.{Chain}
use kernel_r.Mm.Buddy.Cover.{Lists, inside, cover, count_at-cons, count_at-erase, cover-store}
use kernel_r.Mm.Buddy.Place.{
  Region, IsManaged, size, blocks, pairs, place, place-in_map, place-injective, blocks-eq-pairs,
  bit_place-place,
}

abbrev pub Pairs : Type 0
Pairs = ℕ → ℕ → Bool

abbrev pub flip_at : Pairs → ℕ → ℕ → Pairs
flip_at bits o i o' i' = if (o == o') && (i == i') then not (bits o' i') else bits o' i'

pub record Repr (r : Region) (b : BuddyAllocator) (free : Lists) (bits : Pairs) : Type 0 where
  pub base : b.base_addr ≡ r.base
  pub map_size : b.bitmap_size ≡ r.bitmap_size
  pub bytes : IsBytes b.bitmap
  pub lists : (o : ℕ) → o < max_order → Chain b.mem null (b.free_list o) (free o)
  pub once : (p : ℕ) → cover free p ≤ 1
  pub stored : (o i : ℕ) → o ≤ 10 → i < pairs r o → bit b.bitmap (place r o i) ≡ bits o i

abbrev pub with_block : Lists → ℕ → ℕ → Lists
with_block free order block = store free order (block ∷ free order)

abbrev pub without_block : Lists → ℕ → ℕ → Lists
without_block free order block = store free order (erase block (free order))

pub cover-with_block :
    (free : Lists) (order block p : ℕ)
    → order < max_order
    → cover (with_block free order block) p ≡ cover free p + inside order block p
cover-with_block free order block p h = omega (
  arith,
  cover-store order free (block ∷ free order) p h,
  count_at-cons order p block (free order),
)

pub cover-without_block :
    (free : Lists) (order block p : ℕ)
    → order < max_order
    → has block (free order) ≡ true
    → cover (without_block free order block) p + inside order block p ≡ cover free p
cover-without_block free order block p h i = omega (
  arith,
  cover-store order free (erase block (free order)) p h,
  count_at-erase order p block (free order) i,
)

module _ {r : Region} {b : BuddyAllocator} {free : Lists} {bits : Pairs}
    (repr : Repr r b free bits) where
  open repr use {base, map_size, bytes, lists, once, stored}

  -- `toggle_bit` flips the bit of the block's pair, and answers what the bit was.
  pub toggle_bit-Repr :
      (order j : ℕ)
      → IsManaged r
      → order ≤ 10
      → j < blocks r order
      → (b' : BuddyAllocator) × (toggle_bit b order (r.base + j * size order)
          ≡ ok (bits order (j / 2), b'))
        × Repr r b' free (flip_at bits order (j / 2))
  toggle_bit-Repr order j managed h lt =
      let i = place r order (j / 2) in
      let in_pairs : j / 2 < pairs r order = omega (arith, blocks-eq-pairs managed order h) in
      let at = bit_place-place managed b order j h lt base map_size in
      let fits : i / 8 < b.bitmap_size =
        rw map_size (place-in_map managed order (j / 2) h in_pairs) in
      (
        record b { bitmap = flip b.bitmap i },
        toggle_bit-flip b order (r.base + j * size order) i bytes at fits
            ∙ ap (λ (t : Bool). ok (t, record b { bitmap = flip b.bitmap i }))
                (stored order (j / 2) h in_pairs),
        record {
          base = base;
          map_size = map_size;
          bytes = flip-IsBytes b.bitmap i bytes;
          lists = lists;
          once = once;
          stored = λ o k ho hk. ground (
            arith,
            bit-flip b.bitmap i (place r o k) bytes,
            stored o k ho hk,
            place-injective managed order o (j / 2) k h ho in_pairs hk,
          );
        },
      )
