-- ===== src/Mm/Buddy/Push.antt =====
-- How `push_block` acts on what an allocator stands for.
use native.Mathlib.Decide.{ℕ_discrete}
use kernel_r.Prelude.{
  has, ℕ, ◌+◌, ◌≤◌, ◌<◌, ◌≡◌, ◌≢◌, subst, true, ◌∷◌, arith, ok, store, store_self, store_ne, lt→ltb,
  inl, inr,
}
use kernel_r.Mm.Buddy.{BuddyAllocator, null, max_order, push_block}
use kernel_r.Mm.Buddy.Chain.{
  Chain, frame, pushed, pushed-elsewhere, pushed-Chain, head_in, ne_null_of_has,
}
use kernel_r.Mm.Buddy.Cover.{
  Lists, inside, cover, inside_self, free-Distinct, not-has_both, not-has_fresh,
}
use kernel_r.Mm.Buddy.Place.{Region}
use kernel_r.Mm.Buddy.Repr.{Pairs, Repr, with_block, cover-with_block}

module _ {r : Region} {b : BuddyAllocator} {free : Lists} {bits : Pairs}
    (repr : Repr r b free bits) where
  open repr use {base, map_size, bytes, lists, once, stored}

  pushed_state : ℕ → ℕ → BuddyAllocator
  pushed_state order block = record b {
    mem = pushed b.mem block (b.free_list order);
    free_list = store b.free_list order block;
  }

  push_block-pushed :
      (order block : ℕ)
      → order < max_order
      → push_block b order block ≡ ok (pushed_state order block)
  unfolding push_block pushed pushed_state
  push_block-pushed order block h = rw (lt→ltb order max_order h)

  -- Another list does not meet the block nor the head of the list that is pushed to.
  others_apart :
      (order o block a : ℕ)
      → order < max_order
      → o < max_order
      → order ≢ o
      → ((p : ℕ) → cover free p + inside order block p ≤ 1)
      → has a (free o) ≡ true
      → (a ≢ block) × (a ≢ b.free_list order)
  others_apart order o block a h ho ne room i = (
    ground (arith, not-has_fresh free once o block order ho (inside_self order block) (room block)),
    elim (head_in b.mem null (b.free_list order) (free order) (lists order h)) [
      | inl e ↦ rw e (ne_null_of_has b.mem null (b.free_list o) a (free o) (lists o ho) i)
      | inr also ↦ ground (arith, not-has_both free once order o (b.free_list order) h ho ne also)
    ],
  )

  pushed-lists :
      (order block : ℕ)
      → order < max_order
      → block ≢ null
      → ((p : ℕ) → cover free p + inside order block p ≤ 1)
      → (o : ℕ) → o < max_order
      → let b' = pushed_state order block in
        Chain b'.mem null (b'.free_list o) (with_block free order block o)
  unfolding pushed_state
  pushed-lists order block h ne room o ho = elim (ℕ_discrete order o) [
    | yes e ↦
        subst
          (λ t.
            Chain (pushed b.mem block (b.free_list order)) null (store b.free_list order block t)
              (with_block free order block t))
          e
          (rw (store_self b.free_list order block, store_self free order (block ∷ free order))
            (pushed-Chain b.mem block (b.free_list order) (free order) ne
              (not-has_fresh free once order block order h (inside_self order block) (room block))
              (free-Distinct free once order h) (lists order h)))
    | no off ↦
        rw (store_ne b.free_list order o block off, store_ne free order o (block ∷ free order) off)
          (frame b.mem (pushed b.mem block (b.free_list order)) null (b.free_list o) (free o)
            (λ a i.
              let apart = others_apart order o block a h ho off room i in
              pushed-elsewhere b.mem block (b.free_list order) a apart.0 apart.1)
            (lists o ho))
  ]

  -- `push_block` adds a block to the list of its order, if no free block overlaps it.
  pub push_block-Repr :
      (order block : ℕ)
      → order < max_order
      → block ≢ null
      → ((p : ℕ) → cover free p + inside order block p ≤ 1)
      → (b' : BuddyAllocator) × (push_block b order block ≡ ok b')
        × Repr r b' (with_block free order block) bits
  unfolding pushed_state
  push_block-Repr order block h ne room = (
    pushed_state order block,
    push_block-pushed order block h,
    record {
      base = base;
      map_size = map_size;
      bytes = bytes;
      lists = pushed-lists order block h ne room;
      once = λ p. omega (arith, cover-with_block free order block p h, room p);
      stored = stored;
    },
  )
