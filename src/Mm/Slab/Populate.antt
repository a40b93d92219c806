-- ===== src/Mm/Slab/Populate.antt =====
-- `populate_cache`: a page becomes a chain of blocks.
use native.Mathlib.Nat.{le-div_iff_mul-le}
use mathlib.Core.Option.{some-injective, none-ne-some}
use kernel_r.Prelude.{
  ℕ, zero, suc, ◌+◌, ◌-◌, ◌/◌, ◌≤◌, ◌<◌, ◌≡◌, ◌≢◌, refl, ◌∙◌, subst, true, false, some, List, [],
  ◌∷◌, get_elem?, has, store, store_self, arith, ok,
}
use kernel_r.Mm.Slab.{SlabAllocator, block_sizes, link_loop, populate_cache}
use kernel_r.Mm.Slab.Lists.{NextChain, SlabLists, IsSlab, set_list}

-- `n` blocks of a size, from `p` on.
abbrev pub blocks_from : ℕ → ℕ → ℕ → List ℕ
blocks_from zero p size = []
blocks_from (suc n) p size = p ∷ blocks_from n (p + size) size

below_blocks : (n p size q : ℕ) → q < p → has q (blocks_from n p size) ≡ false
below_blocks zero p size q lt = refl
below_blocks (suc n) p size q lt = ground (arith, below_blocks n (p + size) size q)

-- The memory after the loop and the write of the last null.
linked : ℕ → ℕ → ℕ → (ℕ → ℕ) → ℕ → ℕ
linked n size p next = store (link_loop n size p next).1 (link_loop n size p next).0 0

linked_elsewhere :
    (n size p : ℕ) (next : ℕ → ℕ) (q : ℕ)
    → has q (blocks_from (suc n) p size) ≡ false
    → linked n size p next q ≡ next q
unfolding linked link_loop
linked_elsewhere zero size p next q out = ground (arith, out)
linked_elsewhere (suc n) size p next q out =
    linked_elsewhere n size (p + size) (store next p (p + size)) q (ground (arith, out))
    ∙ ground (arith, out)

linked-NextChain :
    (n size p : ℕ) (next : ℕ → ℕ)
    → 0 < size
    → p ≢ 0
    → NextChain (linked n size p next) p (blocks_from (suc n) p size)
unfolding linked link_loop
linked-NextChain zero size p next pos ne = (refl, ne, store_self next p 0)
linked-NextChain (suc n) size p next pos ne =
    let next' = store next p (p + size) in
    let here : linked n size (p + size) next' p ≡ p + size =
      linked_elsewhere n size (p + size) next' p
        (below_blocks (suc n) (p + size) size p (omega arith))
      ∙ store_self next p (p + size) in
    (refl, ne, rw here (linked-NextChain n size (p + size) next' pos (omega (arith, pos))))

linked_first : (n size p : ℕ) (next : ℕ → ℕ) → 0 < size → 0 < n → linked n size p next p ≡ p + size
unfolding linked link_loop
linked_first zero size p next pos h = elim h [ ]
linked_first (suc n) size p next pos h =
    linked_elsewhere n size (p + size) (store next p (p + size)) p
      (below_blocks (suc n) (p + size) size p (omega arith))
    ∙ store_self next p (p + size)

abbrev AllBounded : List ℕ → Type 0
AllBounded [] = Unit {0}
AllBounded (s ∷ sizes) = ((0 < s) × (s ≤ 2048)) × AllBounded sizes

bounded_at :
    (sizes : List ℕ) (index size : ℕ)
    → AllBounded sizes
    → get_elem? sizes index ≡ some size
    → (0 < size) × (size ≤ 2048)
bounded_at [] index size all e = absurd (none-ne-some size e)
bounded_at (s ∷ sizes) zero size (here, all) e =
    (omega (arith, here, some-injective s size e), omega (arith, here, some-injective s size e))
bounded_at (s ∷ sizes) (suc index) size (here, all) e = bounded_at sizes index size all e

block_sizes-AllBounded : AllBounded block_sizes
block_sizes-AllBounded = ground arith

pub size_bounds :
    (index size : ℕ) → get_elem? block_sizes index ≡ some size → (0 < size) × (size ≤ 2048)
size_bounds index size e = bounded_at block_sizes index size block_sizes-AllBounded e

-- The blocks of a page but the first, by the class of the page.
abbrev pub page_rest : ℕ → ℕ → List ℕ
page_rest page_ptr size = blocks_from (4096 / size - 1) (page_ptr + size) size

-- `populate_cache` makes the list of the class the blocks of the page but the first, in order of
-- address: the first is the caller's. The page is not null and none of its blocks is in a list.
-- What the list of the class held before is dropped.
pub populate_cache-IsSlab :
    (s : SlabAllocator) (lists : SlabLists) (index size page_ptr : ℕ)
    → IsSlab s lists
    → get_elem? block_sizes index ≡ some size
    → page_ptr ≢ 0
    → ((c q : ℕ)
        → c < 9
        → has q (lists c) ≡ true
        → has q (blocks_from (4096 / size) page_ptr size) ≡ false)
    → (s' : SlabAllocator) × (populate_cache s index page_ptr ≡ ok s')
      × IsSlab s' (store lists index (page_rest page_ptr size))
unfolding populate_cache linked
populate_cache-IsSlab s lists index size page_ptr v at ne apart =
    let (pos, small) = size_bounds index size at in
    let two : 2 ≤ 4096 / size = (le-div_iff_mul-le pos).1 (omega arith) in
    let n = 4096 / size - 1 in
    let count : 4096 / size ≡ suc n = omega arith in
    let (e, ne', rest) = linked-NextChain n size page_ptr s.next pos ne in
    (
      record {
        next = linked n size page_ptr s.next;
        list_heads = store s.list_heads index (page_ptr + size);
      },
      rw at refl,
      set_list s lists index (page_ptr + size) (page_rest page_ptr size)
          (linked n size page_ptr s.next)
          (λ c q h i.
            linked_elsewhere n size page_ptr s.next q
              (subst (λ t. has q (blocks_from t page_ptr size) ≡ false) count (apart c q h i)))
          (subst (λ t. NextChain (linked n size page_ptr s.next) t (page_rest page_ptr size))
            (linked_first n size page_ptr s.next pos (omega arith)) rest)
          v,
    )
