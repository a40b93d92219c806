-- ===== src/Mm/Buddy/Free.antt =====
-- `free`: the freed block goes back to the lists, merged with its buddy as far as that is free.
use Prim.Native.Nat.{bit_xor}
use kernel_r.Prelude.{
  has, ℕ, zero, suc, ◌+◌, ◌-◌, ◌/◌, ◌≤◌, ◌<◌, min, bit_and, ◌≡◌, sym, ◌∙◌, ap, true, false, arith,
  Run, ok, subst, Bool-cases, inl, inr, shl_u64-one,
}
use kernel_r.Prelude.Xor.{sibling}
use kernel_r.Mm.Align.{complement}
use kernel_r.Mm.Buddy.{BuddyAllocator, push_block, remove_block, toggle_bit, free_loop, free}
use kernel_r.Mm.Buddy.Cover.{Lists, inside, cover}
use kernel_r.Mm.Buddy.Place.{Region, IsManaged, size, blocks, blocks-eq-pairs}
use kernel_r.Mm.Buddy.Repr.{
  Repr, flip_at, with_block, without_block, cover-with_block, cover-without_block, toggle_bit-Repr,
}
use kernel_r.Mm.Buddy.Push.{push_block-Repr}
use kernel_r.Mm.Buddy.Remove.{remove_block-Repr}
use kernel_r.Mm.Buddy.Split.{blocks-suc}
use kernel_r.Mm.Buddy.Valid.{IsValid, block_at, block_at-ne_null}
use kernel_r.Mm.Buddy.Keep.{fresh_out, taken-IsValid, given-IsValid, given_top-IsValid}
use kernel_r.Mm.Buddy.Merge.{
  buddy_address, merged_address, strip_flags, sibling_cases, sibling_half, inside-pair,
}

module _ {r : Region} (managed : IsManaged r) where
  -- What `free` is to do with the block `j` of an order: no panic, and a valid allocator whose
  -- lists cover, byte for byte, what they covered and that block.
  abbrev pub Freed : ℕ → ℕ → Lists → Run BuddyAllocator → Type 0
  Freed order j free run =
      (b' : BuddyAllocator) × (free' : Lists) × (run ≡ ok b')
      × IsValid r b' free'
      × ((p : ℕ) → cover free' p ≡ cover free p + inside order (block_at r order j) p)

  -- For a block that is not free the pair's bit says whether its buddy is.
  pub bit_of_buddy :
      (order j : ℕ) {b : BuddyAllocator} {free : Lists} (v : IsValid r b free)
      → order < 10
      → j < blocks r order
      → ((p : ℕ) → cover free p + inside order (block_at r order j) p ≤ 1)
      → v.bits order (j / 2) ≡ has (block_at r order (sibling j)) (free order)
  bit_of_buddy order j {free} v h lt room =
      let out = fresh_out managed v order j (omega arith) room in
      let paired =
        v.paired order (j / 2) h (omega (arith, blocks-eq-pairs managed order (omega arith))) in
      let at = λ (t : ℕ). has (block_at r order t) (free order) in
      elim (sibling_cases j) [
        | inl (e, e') ↦ ground (arith, out, paired, ap at e, ap at e')
        | inr (e, e') ↦ ground (arith, out, paired, ap at e, ap at e')
      ]

  -- The block joins the list of its order and stays apart: its buddy is in use.
  free_apart :
      (order j : ℕ) {b : BuddyAllocator} {free : Lists} (v : IsValid r b free)
      → order < 10
      → j < blocks r order
      → ((p : ℕ) → cover free p + inside order (block_at r order j) p ≤ 1)
      → {b1 : BuddyAllocator} → Repr r b1 free (flip_at v.bits order (j / 2))
      → Freed order j free (push_block b1 order (block_at r order j))
  free_apart order j {free} v h lt room r1 =
      let (b2, e2, r2) =
        push_block-Repr r1 order (block_at r order j) (omega arith)
          (block_at-ne_null managed order j) room in
      (
        b2,
        with_block free order (block_at r order j),
        e2,
        given-IsValid managed v order j (omega arith) lt room r2,
        λ p. cover-with_block free order (block_at r order j) p (omega arith),
      )

  -- The buddy leaves the list of its order.
  buddy_out :
      (order j : ℕ) {b : BuddyAllocator} {free : Lists} (v : IsValid r b free)
      → order < 10
      → has (block_at r order (sibling j)) (free order) ≡ true
      → {b1 : BuddyAllocator} → Repr r b1 free (flip_at v.bits order (j / 2))
      → (b2 : BuddyAllocator) × (remove_block b1 order (block_at r order (sibling j)) ≡ ok b2)
        × IsValid r b2 (without_block free order (block_at r order (sibling j)))
  buddy_out order j {free} v h i r1 =
      let (b2, e2, r2) =
        remove_block-Repr r1 order (block_at r order (sibling j)) (omega arith) i in
      (
        b2,
        e2,
        taken-IsValid managed v order (sibling j) (omega arith) i (
            subst
              (λ t.
                Repr r b2 (without_block free order (block_at r order (sibling j)))
                  (flip_at v.bits order t))
              (sym (sibling_half j)) r2),
      )

  free_loop-IsValid :
      (rounds order j addr : ℕ) {b : BuddyAllocator} {free : Lists}
      → IsValid r b free
      → rounds + order ≡ 10
      → j < blocks r order
      → addr ≡ block_at r order j
      → ((p : ℕ) → cover free p + inside order (block_at r order j) p ≤ 1)
      → Freed order j free (free_loop rounds addr order b)
  unfolding free_loop
  free_loop-IsValid zero order j addr {b} {free} v e lt at room =
      let top : order ≡ 10 = omega arith in
      subst (λ a. Freed order j free (push_block b order a)) (sym at)
        (subst
          (λ o.
            j < blocks r o
            → ((p : ℕ) → cover free p + inside o (block_at r o j) p ≤ 1)
            → Freed o j free (push_block b o (block_at r o j)))
          (sym top)
          (λ lt' room'.
            let (b1, e1, r1) =
              push_block-Repr v.repr 10 (block_at r 10 j) (omega arith)
                (block_at-ne_null managed 10 j) room' in
            (
              b1,
              with_block free 10 (block_at r 10 j),
              e1,
              given_top-IsValid managed v j lt' r1,
              λ p. cover-with_block free 10 (block_at r 10 j) p (omega arith),
            ))
          lt room)
  free_loop-IsValid (suc rounds) order j addr {b} {free} v e lt at room =
      let h : order < 10 = omega arith in
      let (b1, e1, r1) = toggle_bit-Repr v.repr order j managed (omega arith) lt in
      let toggles : toggle_bit b order addr ≡ ok (v.bits order (j / 2), b1) =
        ap (toggle_bit b order) at ∙ e1 in
      let said = bit_of_buddy order j v h lt room in
      elim (Bool-cases (has (block_at r order (sibling j)) (free order))) [
        | inr used ↦
            let was : v.bits order (j / 2) ≡ false = said ∙ used in
            rw (toggles, shl_u64-one (12 + order) (omega arith), was, at)
              (free_apart order j v h lt room r1)
        | inl unused ↦
            let was : v.bits order (j / 2) ≡ true = said ∙ unused in
            let (b2, e2, v2) = buddy_out order j v h unused r1 in
            let removes : remove_block b1 order (bit_xor addr (size order)) ≡ ok b2 =
              ap (λ t. remove_block b1 order (bit_xor t (size order))) at
              ∙ ap (remove_block b1 order) (buddy_address managed order j h lt)
              ∙ e2 in
            let less : (p : ℕ)
                → cover (without_block free order (block_at r order (sibling j))) p
                    + inside order (block_at r order (sibling j)) p
                  ≡ cover free p =
              λ p.
                cover-without_block free order (block_at r order (sibling j)) p (omega arith)
                  unused in
            let both = inside-pair r order j in
            let (b3, free3, e3, v3, exact) =
              free_loop-IsValid rounds (suc order) (j / 2) (bit_and addr (complement (size order)))
                v2 (omega arith) (omega (arith, blocks-suc r order (omega arith)))
                (ap (λ t. bit_and t (complement (size order))) at
                  ∙ merged_address managed order j h lt)
                (λ p. omega (arith, less p, both p, room p)) in
            let rest : free_loop rounds (bit_and addr (complement (size order))) (order + 1) b2
                ≡ ok b3 =
              ap (λ t. free_loop rounds (bit_and addr (complement (size order))) t b2)
                {y = suc order} (omega arith)
              ∙ e3 in
            rw (toggles, shl_u64-one (12 + order) (omega arith), was, removes)
              (b3, free3, rest, v3, λ p. omega (arith, exact p, less p, both p))
      ]

  -- `free` of a block that `alloc` may have given out (a block of the order in the region, apart
  -- from every free block) never panics, and leaves the allocator valid, with that block's bytes
  -- free once more and no other byte changed, whatever was merged. The address may carry flags in
  -- its low twelve bits.
  pub free-Freed :
      (requested j flags : ℕ) {b : BuddyAllocator} {lists : Lists}
      → IsValid r b lists
      → flags < 4096
      → j < blocks r (min requested 10)
      → ((p : ℕ)
          → cover lists p + inside (min requested 10) (block_at r (min requested 10) j) p ≤ 1)
      → Freed
          (min requested 10)
          j
          lists
          (free b (block_at r (min requested 10) j + flags) requested)
  unfolding free
  free-Freed requested j flags v lt_flags lt room =
      free_loop-IsValid (10 - min requested 10) (min requested 10) j _ v (omega arith) lt
        (strip_flags managed (min requested 10) j flags (omega arith) lt lt_flags) room
