-- ===== src/Mm/Heap/Large.antt =====
-- Large requests: what the heap gets from the buddy allocator it can give back.
use kernel_r.Prelude.{
  ℕ, ◌+◌, ◌*◌, ◌^◌, ◌≤◌, ◌<◌, ◌≡◌, ◌≢◌, refl, false, Option, none, some, Run, ok, word, ltb, arith,
}
use kernel_r.Mm.Align.{align_to}
use kernel_r.Mm.Align.Laws.{round_up, align_to-round_up, round_up_lem}
use kernel_r.Mm.Order.{size_to_order}
use kernel_r.Mm.Order.Laws.{size_to_order-OrderFor}
use kernel_r.Mm.Buddy.{BuddyAllocator}
use kernel_r.Mm.Buddy.Cover.{Lists, cover}
use kernel_r.Mm.Buddy.Place.{Region, IsManaged}
use kernel_r.Mm.Buddy.RoundTrip.{GivenBack, free-alloc}
use kernel_r.Mm.Buddy.Valid.{IsValid}
use kernel_r.Mm.Slab.{list_index}
use kernel_r.Mm.Slab.Populate.{size_bounds}
use kernel_r.Mm.Slab.Classes.{ClassOf, class, list_index-ClassOf}
use kernel_r.Mm.Heap.{HeapAllocator, or_null, alloc_large, alloc, dealloc_large, dealloc}

-- What `dealloc` does with a pointer from `alloc`: the frame allocator is valid, with the same
-- bytes free as at first, and the slab allocator is as it was.
abbrev pub Restored : Region → HeapAllocator → Lists → Run HeapAllocator → Type 0
Restored r h lists run =
    (h' : HeapAllocator) × (lists' : Lists) × (run ≡ ok h')
    × IsValid r h'.frames lists'
    × ((p : ℕ) → cover lists' p ≡ cover lists p)
    × (h'.slab ≡ h.slab)

-- More than any block size has no class.
large_class : (size : ℕ) (o : Option ℕ) → 2048 < size → ClassOf size o → o ≡ none
large_class size none lt c = refl
large_class size (some i) lt (class index bs at fits before) =
    absurd (omega (arith, size_bounds i bs at, fits, lt))

module _ {r : Region} (managed : IsManaged r) where
  large_back :
      (h : HeapAllocator) (b' : BuddyAllocator) (size order : ℕ) (lists : Lists) (out : Option ℕ)
      → align_to size 4096 ≡ ok (round_up size 4096)
      → size_to_order (round_up size 4096) ≡ ok order
      → GivenBack order b' r lists out
      → or_null out ≢ 0
      → Restored r h lists (dealloc_large (record h { frames = b' }) (or_null out) size)
  unfolding dealloc_large
  large_back h b' size order lists none e e' back ne = absurd (ne refl)
  large_back h b' size order lists (some block) e e' (b2, lists2, freed, v, same) ne =
      (record h { frames = b2 }, lists2, rw (e, e', freed) refl, v, same, refl)

  -- A request whose aligned size is past 2048 bytes and not past 4 MiB does not panic on a valid
  -- frame allocator. If the pointer returned is not null, `dealloc` with the same layout does not
  -- panic either, and restores the free memory.
  pub dealloc-alloc :
      (h : HeapAllocator) (layout_size k : ℕ) {lists : Lists}
      → k < 64
      → layout_size + 2 ^ k < word
      → 2048 < round_up layout_size (2 ^ k)
      → round_up layout_size (2 ^ k) ≤ 4 * 1024 * 1024
      → IsValid r h.frames lists
      → (ptr : ℕ) × (h' : HeapAllocator) × (alloc h layout_size (2 ^ k) ≡ ok (ptr, h'))
        × (ptr ≢ 0 → Restored r h lists (dealloc h' ptr layout_size (2 ^ k)))
  unfolding alloc dealloc alloc_large
  dealloc-alloc h layout_size k small fits large bounded v =
      let size = round_up layout_size (2 ^ k) in
      let aligned : align_to layout_size (2 ^ k) ≡ ok size =
        align_to-round_up layout_size k small fits in
      let no_class : list_index size ≡ none =
        large_class size (list_index size) large (list_index-ClassOf size) in
      let paged : align_to size 4096 ≡ ok (round_up size 4096) =
        align_to-round_up size 12 (omega arith) (omega (arith, bounded)) in
      let up = round_up_lem size 4096 1024 (omega arith) in
      let in_limit : ltb (4 * 1024 * 1024) (round_up size 4096) ≡ false =
        ground (arith, up, bounded) in
      let (order, ordered, _) =
        size_to_order-OrderFor (round_up size 4096) (omega (arith, up, bounded)) in
      let (out, b', e, back) = free-alloc managed order v in
      (
        or_null out,
        record h { frames = b' },
        rw (aligned, no_class, paged, in_limit, ordered, e) refl,
        λ ne. rw (aligned, no_class) (large_back h b' size order _ out paged ordered back ne),
      )
