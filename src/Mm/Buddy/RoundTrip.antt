-- ===== src/Mm/Buddy/RoundTrip.antt =====
-- `alloc` and `free` together.
use kernel_r.Prelude.{ℕ, ◌+◌, ◌≤◌, ◌<◌, min, ◌≡◌, sym, ap, ◌∙◌, Option, none, some, [], arith, ok}
use kernel_r.Mm.Buddy.{BuddyAllocator, max_order, alloc, free}
use kernel_r.Mm.Buddy.Alloc.{Allocated, exhausted, given, alloc-Allocated}
use kernel_r.Mm.Buddy.Cover.{Lists, inside, cover}
use kernel_r.Mm.Buddy.Free.{free-Freed}
use kernel_r.Mm.Buddy.Place.{Region, IsManaged}
use kernel_r.Mm.Buddy.Valid.{IsValid, block_at}

-- What the caller sees of an answer of `alloc`: nothing is left of the order and above, or a block
-- that `free` takes back.
abbrev pub GivenBack : ℕ → BuddyAllocator → Region → Lists → Option ℕ → Type 0
GivenBack requested b r lists none = (o : ℕ) → min requested 10 ≤ o → o < max_order → lists o ≡ []
GivenBack requested b r lists (some block) =
    (b' : BuddyAllocator) × (lists' : Lists) × (free b block requested ≡ ok b')
    × IsValid r b' lists'
    × ((p : ℕ) → cover lists' p ≡ cover lists p)

module _ {r : Region} (managed : IsManaged r) where
  pub given_back :
      (requested : ℕ) {b : BuddyAllocator} {lists lists' : Lists} (out : Option ℕ)
      → IsValid r b lists'
      → ((p : ℕ) → cover lists p ≤ 1)
      → Allocated r (min requested 10) lists lists' out
      → GivenBack requested b r lists out
  given_back requested none v once (exhausted empty same) = empty
  given_back requested {b} {lists} {lists'} (some block) v once (given j e lt exact) =
      let taken : (p : ℕ)
          → cover lists' p + inside (min requested 10) (block_at r (min requested 10) j) p
            ≡ cover lists p =
        λ p. ap (λ t. cover lists' p + inside (min requested 10) t p) (sym e) ∙ exact p in
      let (b2, lists2, e2, v2, grown) =
        free-Freed managed requested j 0 v (omega arith) lt (λ p. omega (arith, taken p, once p)) in
      (
        b2,
        lists2,
        ap (λ t. free b t requested) {x = block} {y = block_at r (min requested 10) j + 0}
              (omega (arith, e))
            ∙ e2,
        v2,
        λ p. grown p ∙ taken p,
      )

  -- On a valid allocator `alloc` returns, and freeing what it returned with the same order also
  -- does: the allocator is valid again and each byte is as free as it was at first. If `alloc`
  -- returns `None`, the lists of the order and above were empty.
  pub free-alloc :
      (requested : ℕ) {b : BuddyAllocator} {lists : Lists}
      → IsValid r b lists
      → (out : Option ℕ) × (b' : BuddyAllocator) × (alloc b requested ≡ ok (out, b'))
        × GivenBack requested b' r lists out
  free-alloc requested v =
      let (out, b', lists', e, v', a) = alloc-Allocated managed requested v in
      (out, b', e, given_back requested out v' v.repr.once a)
