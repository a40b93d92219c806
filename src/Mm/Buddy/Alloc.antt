-- ===== src/Mm/Buddy/Alloc.antt =====
-- `alloc`: what it returns, and what it leaves in the free lists.
use kernel_r.Prelude.{
  has, ℕ, zero, suc, ◌+◌, ◌-◌, ◌≤◌, ◌<◌, min, ◌≡◌, refl, sym, ◌∙◌, ap, true, false, Option, none,
  some, List, [], ◌∷◌, arith, Run, ok, ◌>>=◌, ◌==◌, Bool-cases, inl, inr, lt→ltb, subst,
}
use native.Mathlib.Decide.{ℕ_discrete}
use kernel_r.Mm.Buddy.{
  BuddyAllocator, null, max_order, remove_block, toggle_bit, split, take_block, search_up, alloc,
}
use kernel_r.Mm.Buddy.Chain.{Chain, head_in}
use kernel_r.Mm.Buddy.Cover.{Lists, inside, cover}
use kernel_r.Mm.Buddy.Place.{Region, IsManaged, blocks}
use kernel_r.Mm.Buddy.Repr.{without_block, cover-without_block}
use kernel_r.Mm.Buddy.Split.{split-IsValid, block_at_lower}
use kernel_r.Mm.Buddy.Valid.{IsValid, block_at}
use kernel_r.Mm.Buddy.Give.{take-IsValid}

-- What `alloc` may answer at an order. Either every list from that order up is empty, and nothing
-- changes; or the answer is a block of the order in the region, and the lists cover, byte for
-- byte, what they covered before less that block.
pub data Allocated (r : Region) (order : ℕ) (free free' : Lists) : Option ℕ → Type 0 where
  exhausted :
      ((o : ℕ) → order ≤ o → o < max_order → free o ≡ [])
      → free' ≡ free
      → Allocated r order free free' none
  given :
      {block : ℕ} (j : ℕ)
      → block ≡ block_at r order j
      → j < blocks r order
      → ((p : ℕ) → cover free' p + inside order block p ≡ cover free p)
      → Allocated r order free free' (some block)

-- A list is empty when its head is null, and has its head when it is not.
empty_of_null : (m : ℕ → _) (p : ℕ) (xs : List ℕ) → Chain m null p xs → (p == null) ≡ true → xs ≡ []
empty_of_null m p [] c e = refl
empty_of_null m p (x ∷ xs) (e', ne, back, rest) e = absurd (ground arith)

has_head :
    (m : ℕ → _) (p : ℕ) (xs : List ℕ) → Chain m null p xs → (p == null) ≡ false → has p xs ≡ true
has_head m p xs c e = ground (arith, head_in m null p xs c)

empty_from :
    {free : Lists} (order ord : ℕ)
    → ((o : ℕ) → order ≤ o → o < ord → free o ≡ [])
    → free ord ≡ []
    → (o : ℕ) → order ≤ o
    → o < ord + 1
    → free o ≡ []
empty_from {free} order ord below here o h lt = elim (ℕ_discrete o ord) [
  | yes e ↦ ap free e ∙ here
  | no ne ↦ below o h (omega arith)
]

-- Taking a block of the order asked for splits nothing.
take_block_same :
    (order block : ℕ) (b : BuddyAllocator)
    → take_block order order block b ≡ (do
      b1 ← remove_block b order block
      (_, b2) ← toggle_bit b1 order block
      ok (some block, b2))
unfolding take_block split
take_block_same order block b = rw (let e : order - order ≡ 0 = omega arith in e)

module _ {r : Region} (managed : IsManaged r) where
  abbrev pub Answers : ℕ → BuddyAllocator → Lists → Run (Option ℕ × BuddyAllocator) → Type 0
  Answers order b free run =
      (out : Option ℕ) × (b' : BuddyAllocator) × (free' : Lists) × (run ≡ ok (out, b'))
      × IsValid r b' free'
      × Allocated r order free free' out

  -- The head of the list of `ord` is taken and split down to `order`.
  take_block-Allocated :
      (ord order block : ℕ) {b : BuddyAllocator} {free : Lists}
      → IsValid r b free
      → order ≤ ord
      → ord < max_order
      → has block (free ord) ≡ true
      → Answers order b free (take_block ord order block b)
  unfolding take_block
  take_block-Allocated ord order block {b} {free} v le h i =
      let (j, e, lt) = v.placed ord block h i in
      let same : order + (ord - order) ≡ ord = omega arith in
      let there : has (block_at r ord j) (free ord) ≡ true = rw (← e) i in
      let (b1, b2, was, e1, e2, v2) = take-IsValid managed v ord j h lt there in
      let removes : remove_block b ord block ≡ ok b1 = ap (remove_block b ord) e ∙ e1 in
      let toggles : toggle_bit b1 ord block ≡ ok (was, b2) = ap (toggle_bit b1 ord) e ∙ e2 in
      let less : (p : ℕ)
          → cover (without_block free ord (block_at r ord j)) p + inside ord block p
            ≡ cover free p =
        λ p. rw e (cover-without_block free ord (block_at r ord j) p h there) in
      let at_same : (p : ℕ) → inside (order + (ord - order)) block p ≡ inside ord block p =
        λ p. ap (λ t. inside t block p) same in
      let (k, e4, ltk) = block_at_lower r (ord - order) order j (omega arith) (rw same lt) in
      let (b3, free3, e3, v3, exact) =
        split-IsValid managed (ord - order) order j block v2 (omega arith) (rw same lt)
          (e ∙ ap (λ t. block_at r t j) (sym same))
          (λ p. omega (arith, less p, at_same p, v.repr.once p)) in
      (
        some block,
        b3,
        free3,
        rw (removes, toggles, e3),
        v3,
        given k (e ∙ ap (λ t. block_at r t j) (sym same) ∙ e4) ltk
            (λ p. omega (arith, exact p, less p, at_same p)),
      )

  -- The search through the orders above.
  search_up-Allocated :
      (rounds ord order : ℕ) {b : BuddyAllocator} {free : Lists}
      → IsValid r b free
      → rounds + ord ≡ max_order
      → order ≤ ord
      → ((o : ℕ) → order ≤ o → o < ord → free o ≡ [])
      → Answers order b free (search_up rounds ord order b)
  unfolding search_up
  search_up-Allocated zero ord order {b} {free} v e le none_below =
      (none, b, free, refl, v, exhausted (λ o h lt. none_below o h (omega arith)) refl)
  search_up-Allocated (suc rounds) ord order {b} {free} v e le none_below =
      let h : ord < max_order = omega arith in
      let chain = v.repr.lists ord h in
      elim (Bool-cases (b.free_list ord == null)) [
        | inl empty ↦
            rw (lt→ltb ord max_order h, empty)
              (search_up-Allocated rounds (ord + 1) order v (omega arith) (omega arith)
                (empty_from order ord none_below (empty_of_null b.mem _ (free ord) chain empty)))
        | inr full ↦
            rw (lt→ltb ord max_order h, full)
              (take_block-Allocated ord order (b.free_list ord) v le h
                (has_head b.mem _ (free ord) chain full))
      ]

  -- `alloc` never panics on a valid allocator and leaves it valid. It returns a block of the order
  -- asked for (of order 10 at most), which the free lists then cover no more, and `None` only if
  -- they hold no block of that order or above.
  pub alloc-Allocated :
      (requested : ℕ) {b : BuddyAllocator} {free : Lists}
      → IsValid r b free
      → Answers (min requested 10) b free (alloc b requested)
  unfolding alloc
  alloc-Allocated requested {b} {free} v =
      let order = min requested 10 in
      let h : order < max_order = omega arith in
      let chain = v.repr.lists order h in
      elim (Bool-cases (b.free_list order == null)) [
        | inl empty ↦
            rw (lt→ltb order max_order h, empty)
              (search_up-Allocated (max_order - (order + 1)) (order + 1) order v (omega arith)
                (omega arith)
                (empty_from order order (λ o le lt. absurd (omega arith))
                  (empty_of_null b.mem _ (free order) chain empty)))
        | inr full ↦
            rw (lt→ltb order max_order h, full)
              (subst (Answers order b free) (take_block_same order (b.free_list order) b) (
                take_block-Allocated order order (b.free_list order) v (omega arith) h
                  (has_head b.mem _ (free order) chain full)))
      ]
