-- ===== src/Mm/Buddy/Keep.antt =====
-- That the invariant outlasts a block that leaves or joins a list while its pair's bit flips.
use native.Mathlib.Decide.{ℕ_discrete}
use kernel_r.Prelude.{
  has, erase, Distinct, ℕ, ◌+◌, ◌*◌, ◌/◌, ◌≤◌, ◌<◌, ◌≡◌, subst, Bool, true, false, not, List, [],
  ◌∷◌, arith, ◌==◌, if◌then◌else◌, Bool-cases, inl, inr, store, store_self, store_ne, store_eq,
}
use kernel_r.Mm.Buddy.{BuddyAllocator, max_order}
use kernel_r.Mm.Buddy.Cover.{Lists, inside, cover, inside_self, free-Distinct, not-has_fresh}
use kernel_r.Mm.Buddy.Place.{Region, IsManaged, blocks, pairs}
use kernel_r.Mm.Buddy.Repr.{flip_at, Repr, with_block, without_block}
use kernel_r.Mm.Buddy.Valid.{IsValid, block_at, block_at-injective, differ}

has-erase :
    (a x : ℕ) (xs : List ℕ)
    → Distinct xs
    → has a (erase x xs) ≡ (if a == x then false else has a xs)
has-erase a x [] d = ground arith
has-erase a x (y ∷ ys) d = ground (arith, has-erase a x ys d.1)

has_of_erase : (a x : ℕ) (xs : List ℕ) → has a (erase x xs) ≡ true → has a xs ≡ true
has_of_erase a x [] i = i
has_of_erase a x (y ∷ ys) i = ground (arith, has_of_erase a x ys)

flip_one :
    (j i : ℕ) (a b : Bool)
    → (if j / 2 == i then not (differ a b) else differ a b)
      ≡ differ (if 2 * i == j then not a else a) (if 2 * i + 1 == j then not b else b)
flip_one j i true true = ground arith
flip_one j i true false = ground arith
flip_one j i false true = ground arith
flip_one j i false false = ground arith

module _ (r : Region) (order j i : ℕ) where
  -- A list that gains or loses the block `j` flips the bit of the pair `j / 2` and no other.
  paired_flip :
      (xs ys : List ℕ)
      → ((k : ℕ)
          → has (block_at r order k) ys
            ≡ (if k == j then not (has (block_at r order k) xs) else has (block_at r order k) xs))
      → (bit : Bool)
      → bit ≡ differ (has (block_at r order (2 * i)) xs) (has (block_at r order (2 * i + 1)) xs)
      → (if j / 2 == i then not bit else bit)
        ≡ differ (has (block_at r order (2 * i)) ys) (has (block_at r order (2 * i + 1)) ys)
  paired_flip xs ys change bit e = rw (change (2 * i), change (2 * i + 1), e) (flip_one j i _ _)

module _ {r : Region} (managed : IsManaged r) {b : BuddyAllocator} {free : Lists}
    (v : IsValid r b free) where
  open v use {bits, repr, placed, paired}

  -- After its list has gained or lost the block `j` the pairs are right again.
  paired_after :
      (order j : ℕ) (ys : List ℕ)
      → ((k : ℕ)
          → has (block_at r order k) ys ≡ (
              if k == j
              then not (has (block_at r order k) (free order))
              else has (block_at r order k) (free order)))
      → (o i : ℕ) → o < 10
      → i < pairs r o
      → flip_at bits order (j / 2) o i
        ≡ differ
            (has (block_at r o (2 * i)) (store free order ys o))
            (has (block_at r o (2 * i + 1)) (store free order ys o))
  paired_after order j ys change o i ho hi = elim (ℕ_discrete order o) [
    | yes e ↦
        subst
          (λ t.
            flip_at bits order (j / 2) t i
            ≡ differ (has (block_at r t (2 * i)) (store free order ys t))
                (has (block_at r t (2 * i + 1)) (store free order ys t)))
          e
          (rw (store_self free order ys) (
            ground (
              arith,
              paired_flip r order j i (free order) ys change (bits order i)
                  (paired order i (rw e ho) (rw e hi)),
            )))
    | no ne ↦ rw (store_ne free order o ys ne) (ground (arith, paired o i ho hi))
  ]

  has_before :
      (order x o a : ℕ)
      → order < max_order
      → has a (without_block free order x o) ≡ true
      → has a (free o) ≡ true
  has_before order x o a h i = elim (ℕ_discrete order o) [
    | yes e ↦
        rw (← e)
          (has_of_erase a x (free order) (rw (store_eq free order o (erase x (free order)) e) at i))
    | no ne ↦ rw (store_ne free order o (erase x (free order)) ne) at i
  ]

  given_placed :
      (order j : ℕ)
      → j < blocks r order
      → (o a : ℕ) → o < max_order
      → has a (with_block free order (block_at r order j) o) ≡ true
      → (k : ℕ) × (a ≡ block_at r o k) × (k < blocks r o)
  given_placed order j lt o a ho i = elim (ℕ_discrete order o) [
    | no ne ↦ placed o a ho (rw (store_ne free order o (block_at r order j ∷ free order) ne) at i)
    | yes e ↦
        (let i' = rw (store_eq free order o (block_at r order j ∷ free order) e) at i in
          subst (λ t. (k : ℕ) × (a ≡ block_at r t k) × (k < blocks r t)) e
            (elim (Bool-cases (a == block_at r order j)) [
              | inl same ↦ (j, ground arith, lt)
              | inr other ↦ placed order a (rw e ho) (ground arith)
            ]))
  ]

  -- A block out of its list, with the bit of its pair flipped.
  pub taken-IsValid :
      (order j : ℕ) {b' : BuddyAllocator}
      → order < max_order
      → has (block_at r order j) (free order) ≡ true
      → Repr r b' (without_block free order (block_at r order j)) (flip_at bits order (j / 2))
      → IsValid r b' (without_block free order (block_at r order j))
  taken-IsValid order j h i after = record {
    bits = flip_at bits order (j / 2);
    repr = after;
    placed = λ o a ho ia. placed o a ho (has_before order (block_at r order j) o a h ia);
    paired = paired_after order j (erase (block_at r order j) (free order)) λ k. ground (
      arith,
      has-erase (block_at r order k) (block_at r order j) (free order)
          (free-Distinct free repr.once order h),
      block_at-injective r order k j,
      i,
    );
  }

  -- A block that no free block overlaps is in no list.
  pub fresh_out :
      (order j : ℕ)
      → order < max_order
      → ((p : ℕ) → cover free p + inside order (block_at r order j) p ≤ 1)
      → has (block_at r order j) (free order) ≡ false
  fresh_out order j h room =
      not-has_fresh free repr.once order (block_at r order j) order h
        (inside_self order (block_at r order j)) (room (block_at r order j))

  -- Such a block put into a list, with the bit of its pair flipped.
  pub given-IsValid :
      (order j : ℕ) {b' : BuddyAllocator}
      → order < max_order
      → j < blocks r order
      → ((p : ℕ) → cover free p + inside order (block_at r order j) p ≤ 1)
      → Repr r b' (with_block free order (block_at r order j)) (flip_at bits order (j / 2))
      → IsValid r b' (with_block free order (block_at r order j))
  given-IsValid order j h lt room after = record {
    bits = flip_at bits order (j / 2);
    repr = after;
    placed = given_placed order j lt;
    paired =
        paired_after order j (block_at r order j ∷ free order)
          λ k. ground (arith, block_at-injective r order k j, fresh_out order j h room);
  }

  -- At the last order the bits are not read: `push_block` alone is enough.
  pub given_top-IsValid :
      (j : ℕ) {b' : BuddyAllocator}
      → j < blocks r 10
      → Repr r b' (with_block free 10 (block_at r 10 j)) bits
      → IsValid r b' (with_block free 10 (block_at r 10 j))
  given_top-IsValid j lt after = record {
    bits = bits;
    repr = after;
    placed = given_placed 10 j lt;
    paired = λ o i ho hi.
        rw (store_ne free 10 o (block_at r 10 j ∷ free 10) (omega arith)) (paired o i ho hi);
  }
