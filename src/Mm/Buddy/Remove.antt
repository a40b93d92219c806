-- ===== src/Mm/Buddy/Remove.antt =====
-- How `remove_block` acts on what an allocator stands for.
use native.Mathlib.Decide.{ℕ_discrete}
use kernel_r.Prelude.{
  has, erase, ℕ, ◌<◌, ◌≡◌, ◌≢◌, refl, subst, sym, ap, true, false, arith, ok, ◌==◌, if◌then◌else◌,
  store, store_self, store_ne, Bool-cases, lt→ltb, inl, inr, ◌⊎◌, ◌↔◌,
}
use kernel_r.Mm.Buddy.{
  BuddyAllocator, null, max_order, remove_block, unlink_after, set_prev, set_next,
}
use kernel_r.Mm.Buddy.Chain.{
  Chain, frame, removed, removed-elsewhere, removed-Chain, next_in, prev_in, head_prev,
  ne_null_of_has,
}
use kernel_r.Mm.Buddy.Cover.{Lists, free-Distinct, not-has_both}
use kernel_r.Mm.Buddy.Place.{Region}
use kernel_r.Mm.Buddy.Repr.{Pairs, Repr, without_block, cover-without_block}

unlink_after-mem :
    (b : BuddyAllocator) (x : ℕ)
    → unlink_after b x ≡ record b {
      mem = if (b.mem x).next == null then b.mem else set_prev b.mem (b.mem x).next (b.mem x).prev;
    }
unlink_after-mem b x = elim (Bool-cases ((b.mem x).next == null)) [ inl e ↦ rw e | inr e ↦ rw e ]

module _ {r : Region} {b : BuddyAllocator} {free : Lists} {bits : Pairs}
    (repr : Repr r b free bits) where
  open repr use {base, map_size, bytes, lists, once, stored}

  removed_state : ℕ → ℕ → BuddyAllocator
  removed_state order x = record b {
    mem = removed b.mem x;
    free_list =
        if (b.mem x).prev == null then store b.free_list order (b.mem x).next else b.free_list;
  }

  remove_block-removed :
      (order x : ℕ) → order < max_order → remove_block b order x ≡ ok (removed_state order x)
  unfolding remove_block removed removed_state
  remove_block-removed order x h = elim (Bool-cases ((b.mem x).prev == null)) [
    | inl first ↦
        rw (first, lt→ltb order max_order h)
          (ap ok
            (unlink_after-mem (record b { free_list = store b.free_list order (b.mem x).next }) x))
    | inr later ↦ rw later (
        ap ok
          (unlink_after-mem (record b { mem = set_next b.mem (b.mem x).prev (b.mem x).next }) x))
  ]

  -- The neighbours of a block of the list are null, or blocks of the list.
  neighbours :
      (order x : ℕ)
      → order < max_order
      → has x (free order) ≡ true
      → (x ≢ (b.mem x).prev)
        × (((b.mem x).prev ≡ null) ⊎ (has (b.mem x).prev (free order) ≡ true))
        × (((b.mem x).next ≡ null) ⊎ (has (b.mem x).next (free order) ≡ true))
        × (((b.mem x).prev ≡ null) ↔ (b.free_list order ≡ x))
  neighbours order x h i =
      let c = lists order h in
      let ne = ne_null_of_has b.mem null (b.free_list order) x (free order) c i in
      let after = next_in b.mem x null (b.free_list order) (free order) c i in
      elim (ℕ_discrete (b.free_list order) x) [
        | yes first ↦
            (let back = head_prev b.mem x null (b.free_list order) (free order) c i first in
              (rw back ne, inl back, after, (λ _. first, λ _. back)))
        | no later ↦
            (let (also, off) =
                prev_in b.mem x null (b.free_list order) (free order) c
                  (free-Distinct free once order h) i later in
              let not_null =
                ne_null_of_has b.mem null (b.free_list order) (b.mem x).prev (free order) c also in
              (
                λ e. off (sym e),
                inr also,
                after,
                (λ e. absurd (not_null e), λ e. absurd (later e)),
              ))
      ]

  apart_from_null_or_member :
      (order o a y : ℕ)
      → order < max_order
      → o < max_order
      → order ≢ o
      → has a (free o) ≡ true
      → (y ≡ null) ⊎ (has y (free order) ≡ true)
      → a ≢ y
  apart_from_null_or_member order o a y h ho ne i (inl e) =
      rw e (ne_null_of_has b.mem null (b.free_list o) a (free o) (lists o ho) i)
  apart_from_null_or_member order o a y h ho ne i (inr also) =
      ground (arith, not-has_both free once order o y h ho ne also)

  null_out : (order : ℕ) → order < max_order → has null (free order) ≡ false
  null_out order h = elim (Bool-cases (has null (free order))) [
    | inl i ↦
        absurd
          (ne_null_of_has b.mem null (b.free_list order) null (free order) (lists order h) i refl)
    | inr out ↦ out
  ]

  removed-lists :
      (order x : ℕ)
      → order < max_order
      → has x (free order) ≡ true
      → (o : ℕ) → o < max_order
      → let b' = removed_state order x in
        Chain b'.mem null (b'.free_list o) (without_block free order x o)
  unfolding removed_state
  removed-lists order x h i o ho = elim (ℕ_discrete order o) [
    | yes e ↦
        subst
          (λ t.
            Chain (removed b.mem x) null ((removed_state order x).free_list t)
              (without_block free order x t))
          e
          (rw
            (
              store_self free order (erase x (free order)),
              (let first : (removed_state order x).free_list order
                      ≡ (if b.free_list order == x then (b.mem x).next else b.free_list order) =
                    ground (arith, beside) in
                  first),
            )
            (removed-Chain b.mem x null (b.free_list order) (free order) (lists order h)
              (free-Distinct free once order h) i (null_out order h)))
    | no off ↦
        rw
          (
            store_ne free order o (erase x (free order)) off,
            (let same : (removed_state order x).free_list o ≡ b.free_list o = ground arith in same),
          )
          (frame b.mem (removed b.mem x) null (b.free_list o) (free o)
            (λ a k.
              removed-elsewhere b.mem x beside.0 a
                (apart_from_null_or_member order o a (b.mem x).prev h ho off k beside.1)
                (apart_from_null_or_member order o a (b.mem x).next h ho off k beside.2))
            (lists o ho))
  ]
    where
      beside :
          (x ≢ (b.mem x).prev)
          × (((b.mem x).prev ≡ null) ⊎ (has (b.mem x).prev (free order) ≡ true))
          × (((b.mem x).next ≡ null) ⊎ (has (b.mem x).next (free order) ≡ true))
          × (((b.mem x).prev ≡ null) ↔ (b.free_list order ≡ x))
      beside = neighbours order x h i

  -- `remove_block` takes a block out of the list of its order.
  pub remove_block-Repr :
      (order x : ℕ)
      → order < max_order
      → has x (free order) ≡ true
      → (b' : BuddyAllocator) × (remove_block b order x ≡ ok b')
        × Repr r b' (without_block free order x) bits
  unfolding removed_state
  remove_block-Repr order x h i = (
    removed_state order x,
    remove_block-removed order x h,
    record {
      base = base;
      map_size = map_size;
      bytes = bytes;
      lists = removed-lists order x h i;
      once = λ p. omega (arith, cover-without_block free order x p h i, once p);
      stored = stored;
    },
  )
