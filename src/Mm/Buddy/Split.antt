-- ===== src/Mm/Buddy/Split.antt =====
-- The splitting loop of `alloc`: what it keeps is the first block of the order asked for.
use native.Mathlib.Nat.{pow-suc, mul-le-mul_right, one-le-pow}
use kernel_r.Prelude.Bits.{pow-add}
use kernel_r.Prelude.{
  ℕ, zero, suc, ◌+◌, ◌-◌, ◌*◌, ◌^◌, ◌≤◌, ◌<◌, ◌≡◌, refl, ◌∙◌, ap, arith, ok, word, shl_u64-one,
  add_u64_lem,
}
use kernel_r.Mm.Buddy.{BuddyAllocator, max_order, push_block, toggle_bit, split}
use kernel_r.Mm.Buddy.Cover.{Lists, inside, cover, inside-halves}
use kernel_r.Mm.Buddy.Place.{Region, IsManaged, size, blocks}
use kernel_r.Mm.Buddy.Repr.{with_block, cover-with_block}
use kernel_r.Mm.Buddy.Valid.{IsValid, block_at, block_at-suc, block_at-next}
use kernel_r.Mm.Buddy.Give.{give-IsValid}

pub size_pos : (order : ℕ) → 0 < size order
size_pos order = one-le-pow (12 + order) 2 (omega arith)

pub blocks-suc : (r : Region) (order : ℕ) → order ≤ 10 → blocks r order ≡ 2 * blocks r (suc order)
blocks-suc r order h = omega (
  arith,
  ap (λ (t : ℕ). r.units * t)
      (ap (λ (t : ℕ). 2 ^ t) {x = 11 - order} {y = suc (11 - suc order)} (omega arith)
        ∙ pow-suc 2 (11 - suc order)),
)

pub whole_size : (order : ℕ) → order ≤ 11 → 2 ^ (11 - order) * size order ≡ 2 ^ 23
whole_size order h =
    pow-add (11 - order) (12 + order) ∙ ap (λ (t : ℕ). 2 ^ t) {y = 23} (omega arith)

-- A block of the region ends inside the region.
pub block_at-le_top :
    {r : Region} (order j : ℕ)
    → IsManaged r
    → order < max_order
    → j < blocks r order
    → block_at r order j + size order ≤ word
block_at-le_top {r} order j managed h lt = omega (
  arith,
  managed.top,
  mul-le-mul_right (size order) lt,
  ap (λ (t : ℕ). r.units * t) (whole_size order (omega arith)),
)

-- A block is, at its address, also a block of each lower order.
pub block_at_lower :
    (r : Region) (d order j : ℕ)
    → order + d < max_order
    → j < blocks r (order + d)
    → (k : ℕ) × (block_at r (order + d) j ≡ block_at r order k) × (k < blocks r order)
block_at_lower r zero order j h lt =
    let e : order + 0 ≡ order = omega arith in (j, ap (λ t. block_at r t j) e, rw (← e) lt)
block_at_lower r (suc d) order j h lt =
    let up : order + suc d ≡ suc (order + d) = omega arith in
    let (k, e, lt') =
      block_at_lower r d order (2 * j) (omega arith)
        (omega (arith, blocks-suc r (order + d) (omega arith), ap (blocks r) up)) in
    (k, ap (λ t. block_at r t j) up ∙ block_at-suc r (order + d) j ∙ e, lt')

module _ {r : Region} (managed : IsManaged r) where
  -- From a block of order `order + rounds`, taken out of the lists, the loop leaves the block of
  -- that address and of order `order`, and gives all the rest back to the lists.
  pub split-IsValid :
      (rounds order j block : ℕ) {b : BuddyAllocator} {free : Lists}
      → IsValid r b free
      → order + rounds < max_order
      → j < blocks r (order + rounds)
      → block ≡ block_at r (order + rounds) j
      → ((p : ℕ) → cover free p + inside (order + rounds) block p ≤ 1)
      → (b' : BuddyAllocator) × (free' : Lists) × (split rounds order block b ≡ ok b')
        × IsValid r b' free'
        × ((p : ℕ)
            → cover free' p + inside order block p ≡ cover free p + inside (order + rounds) block p)
  unfolding split
  split-IsValid zero order j block {b} {free} v h lt e room =
      (b, free, refl, v, λ p. ap (λ (t : ℕ). cover free p + inside t block p) (omega arith))
  split-IsValid (suc n) order j block {b} {free} v h lt e room =
      let c = order + n in
      let up : order + suc n ≡ suc c = omega arith in
      let first : block ≡ block_at r c (2 * j) =
        e ∙ ap (λ t. block_at r t j) up ∙ block_at-suc r c j in
      let second : block + size c ≡ block_at r c (2 * j + 1) =
        ap (λ (t : ℕ). t + size c) first ∙ block_at-next r c (2 * j) in
      let in_region : 2 * j + 1 < blocks r c =
        omega (arith, blocks-suc r c (omega arith), ap (blocks r) up) in
      let halves : (p : ℕ)
          → inside (order + suc n) block p ≡ inside c block p + inside c (block + size c) p =
        λ p. ap (λ t. inside t block p) up ∙ inside-halves c block p in
      let fits : block + size c < word = omega (
        arith,
        block_at-le_top c (2 * j + 1) managed (omega arith) in_region,
        second,
        size_pos c,
      ) in
      let (b1, b2, was, e1, e2, v2) =
        give-IsValid managed v c (2 * j + 1) (omega arith) in_region
          (λ p. rw (← second) (omega (arith, room p, halves p))) in
      let pushes : push_block b c (block + size c) ≡ ok b1 = ap (push_block b c) second ∙ e1 in
      let toggles : toggle_bit b1 c (block + size c) ≡ ok (was, b2) =
        ap (toggle_bit b1 c) second ∙ e2 in
      let grown : (p : ℕ)
          → cover (with_block free c (block_at r c (2 * j + 1))) p
            ≡ cover free p + inside c (block + size c) p =
        λ p. rw second (cover-with_block free c (block_at r c (2 * j + 1)) p (omega arith)) in
      let (b', free', e', v', exact) =
        split-IsValid n order (2 * j) block v2 (omega arith) (omega arith) first
          (λ p. omega (arith, room p, halves p, grown p)) in
      (
        b',
        free',
        rw (shl_u64-one (12 + c) (omega arith), add_u64_lem block (size c) fits, pushes, toggles)
            e',
        v',
        λ p. omega (arith, exact p, halves p, grown p),
      )
