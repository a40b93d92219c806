-- ===== src/Mm/Buddy/Give.antt =====
-- The two steps the operations are made of: a block taken out of its list and a block given to it,
-- each with the bit of its pair toggled.
use kernel_r.Prelude.{has, ℕ, ◌+◌, ◌/◌, ◌≤◌, ◌<◌, ◌≡◌, Bool, true, arith, ok}
use kernel_r.Mm.Buddy.{BuddyAllocator, max_order, push_block, remove_block, toggle_bit}
use kernel_r.Mm.Buddy.Cover.{Lists, inside, cover}
use kernel_r.Mm.Buddy.Place.{Region, IsManaged, blocks}
use kernel_r.Mm.Buddy.Repr.{with_block, without_block, toggle_bit-Repr}
use kernel_r.Mm.Buddy.Push.{push_block-Repr}
use kernel_r.Mm.Buddy.Remove.{remove_block-Repr}
use kernel_r.Mm.Buddy.Valid.{IsValid, block_at, block_at-ne_null}
use kernel_r.Mm.Buddy.Keep.{taken-IsValid, given-IsValid}

module _ {r : Region} (managed : IsManaged r) {b : BuddyAllocator} {free : Lists}
    (v : IsValid r b free) where
  open v use {bits, repr}

  -- Taking a block out of its list: `remove_block` and the `toggle_bit` behind it.
  pub take-IsValid :
      (order j : ℕ)
      → order < max_order
      → j < blocks r order
      → has (block_at r order j) (free order) ≡ true
      → (b1 b2 : BuddyAllocator) × (was : Bool) × (remove_block b order (block_at r order j)
          ≡ ok b1)
        × (toggle_bit b1 order (block_at r order j) ≡ ok (was, b2))
        × IsValid r b2 (without_block free order (block_at r order j))
  take-IsValid order j h lt i =
      let (b1, e1, r1) = remove_block-Repr repr order (block_at r order j) h i in
      let (b2, e2, r2) = toggle_bit-Repr r1 order j managed (omega arith) lt in
      (b1, b2, bits order (j / 2), e1, e2, taken-IsValid managed v order j h i r2)

  -- Putting a block that no free block overlaps into a list: `push_block` and `toggle_bit`.
  pub give-IsValid :
      (order j : ℕ)
      → order < max_order
      → j < blocks r order
      → ((p : ℕ) → cover free p + inside order (block_at r order j) p ≤ 1)
      → (b1 b2 : BuddyAllocator) × (was : Bool) × (push_block b order (block_at r order j) ≡ ok b1)
        × (toggle_bit b1 order (block_at r order j) ≡ ok (was, b2))
        × IsValid r b2 (with_block free order (block_at r order j))
  give-IsValid order j h lt room =
      let (b1, e1, r1) =
        push_block-Repr repr order (block_at r order j) h (block_at-ne_null managed order j) room in
      let (b2, e2, r2) = toggle_bit-Repr r1 order j managed (omega arith) lt in
      (b1, b2, bits order (j / 2), e1, e2, given-IsValid managed v order j h lt room r2)
