-- ===== src/Mm/Buddy/Valid.antt =====
-- The invariant of the allocator: its free blocks lie in the region and do not overlap, and the
-- bit of a pair says whether exactly one of the two buddies is in the free list of its order.
use native.Mathlib.Nat.{one-le-pow, pow-suc, eq_of_mul-eq-mul_right}
use kernel_r.Prelude.{
  has, ℕ, suc, ◌+◌, ◌*◌, ◌^◌, ◌<◌, ◌≡◌, ◌≢◌, ◌∙◌, ap, Bool, true, false, not, arith,
}
use kernel_r.Mm.Buddy.{BuddyAllocator, null, max_order}
use kernel_r.Mm.Buddy.Cover.{Lists}
use kernel_r.Mm.Buddy.Place.{Region, IsManaged, size, blocks, pairs}
use kernel_r.Mm.Buddy.Repr.{Pairs, Repr}

-- The address of block `j` of an order.
abbrev pub block_at : Region → ℕ → ℕ → ℕ
block_at r order j = r.base + j * size order

pub size-suc : (order : ℕ) → size (suc order) ≡ 2 * size order
size-suc order =
    ap (λ (t : ℕ). 2 ^ t) {x = 12 + suc order} {y = suc (12 + order)} (omega arith)
    ∙ pow-suc 2 (12 + order)
    ∙ omega arith

pub block_at-suc : (r : Region) (order j : ℕ) → block_at r (suc order) j ≡ block_at r order (2 * j)
block_at-suc r order j = omega (arith, ap (λ (t : ℕ). j * t) (size-suc order))

pub block_at-next :
    (r : Region) (order j : ℕ) → block_at r order j + size order ≡ block_at r order (j + 1)
block_at-next r order j = omega arith

pub block_at-injective :
    (r : Region) (order j k : ℕ) → block_at r order j ≡ block_at r order k → j ≡ k
block_at-injective r order j k e =
    eq_of_mul-eq-mul_right (size order) (one-le-pow (12 + order) 2 (omega arith)) j k (omega arith)

pub block_at-ne_null : {r : Region} → IsManaged r → (order j : ℕ) → block_at r order j ≢ null
block_at-ne_null managed order j = omega (arith, managed.base_pos)

abbrev pub differ : Bool → Bool → Bool
differ true b = not b
differ false b = b

pub record IsValid (r : Region) (b : BuddyAllocator) (free : Lists) : Type 0 where
  pub bits : Pairs
  pub repr : Repr r b free bits
  pub placed :
      (o a : ℕ)
      → o < max_order
      → has a (free o) ≡ true
      → (j : ℕ) × (a ≡ block_at r o j) × (j < blocks r o)
  pub paired :
      (o i : ℕ)
      → o < 10
      → i < pairs r o
      → bits o i
        ≡ differ (has (block_at r o (2 * i)) (free o)) (has (block_at r o (2 * i + 1)) (free o))
