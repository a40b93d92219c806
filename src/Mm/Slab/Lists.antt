-- ===== src/Mm/Slab/Lists.antt =====
-- The free lists of the slab allocator, and what its operations do to them.
use native.Mathlib.Decide.{ℕ_discrete}
use kernel_r.Prelude.{
  ℕ, ◌<◌, ◌≡◌, ◌≢◌, refl, true, false, Option, none, some, List, [], ◌∷◌, lt-of_get_elem?, has,
  store, store_self, store_ne, store_eq, ◌==◌, arith, Run, ok, panic,
}
use kernel_r.Mm.Slab.{SlabAllocator, block_sizes, list_index, alloc, alloc_from, free, free_to}
use kernel_r.Mm.Slab.Classes.{ClassOf, oversized, class, list_index-ClassOf}

-- The pointers lead from `p` through `xs` to null.
abbrev pub NextChain : (ℕ → ℕ) → ℕ → List ℕ → Type 0
NextChain next p [] = p ≡ 0
NextChain next p (x ∷ xs) = (p ≡ x) × (x ≢ 0) × NextChain next (next x) xs

NextChain-same :
    (next next' : ℕ → ℕ) (p : ℕ) (xs : List ℕ)
    → ((q : ℕ) → has q xs ≡ true → next' q ≡ next q)
    → NextChain next p xs
    → NextChain next' p xs
NextChain-same next next' p [] same c = c
NextChain-same next next' p (x ∷ xs) same (e, ne, rest) =
    let here : next' x ≡ next x = same x (ground arith) in
    (e, ne, rw here (NextChain-same next next' (next x) xs (λ q i. same q (ground arith)) rest))

-- The free blocks of each class, by address.
abbrev pub SlabLists : Type 0
SlabLists = ℕ → List ℕ

abbrev pub IsSlab : SlabAllocator → SlabLists → Type 0
IsSlab s lists = (c : ℕ) → c < 9 → NextChain s.next (s.list_heads c) (lists c)

-- What `alloc` may do in a class: nothing without one, nothing if its list is empty, and else it
-- takes the first block.
pub data Taken (s : SlabAllocator) (lists : SlabLists)
    : Option ℕ → Option ℕ → SlabAllocator → Type 0 where
  too_large : Taken s lists none none s
  miss : {index : ℕ} → lists index ≡ [] → Taken s lists (some index) none s
  hit :
      {index : ℕ} {s' : SlabAllocator} (x : ℕ) (xs : List ℕ)
      → lists index ≡ x ∷ xs
      → IsSlab s' (store lists index xs)
      → Taken s lists (some index) (some x) s'

pub set_list :
    (s : SlabAllocator) (lists : SlabLists) (index head : ℕ) (xs : List ℕ) (next' : ℕ → ℕ)
    → ((c q : ℕ) → c < 9 → has q (lists c) ≡ true → next' q ≡ s.next q)
    → NextChain next' head xs
    → IsSlab s lists
    → IsSlab
        (record { list_heads = store s.list_heads index head; next = next' })
        (store lists index xs)
set_list s lists index head xs next' same new v c h = elim (ℕ_discrete index c) [
  | yes e ↦ rw (store_eq s.list_heads index c head e, store_eq lists index c xs e) new
  | no ne ↦
      rw (store_ne s.list_heads index c head ne, store_ne lists index c xs ne)
        (NextChain-same s.next next' (s.list_heads c) (lists c) (λ q i. same c q h i) (v c h))
]

alloc_from-Taken :
    (s : SlabAllocator) (lists : SlabLists) (index : ℕ) (xs : List ℕ)
    → IsSlab s lists
    → NextChain s.next (s.list_heads index) xs
    → lists index ≡ xs
    → Taken s lists (some index) (alloc_from s (some index)).0 (alloc_from s (some index)).1
alloc_from-Taken s lists index [] v c e =
    let null : (s.list_heads index == 0) ≡ true = ground (arith, c) in rw null (miss e)
alloc_from-Taken s lists index (x ∷ xs) v (at, ne, rest) e =
    let full : (s.list_heads index == 0) ≡ false = ground (arith, at, ne) in
    rw (full, at)
      (hit x xs e (set_list s lists index (s.next x) xs s.next (λ c q h i. refl) rest v))

alloc_class :
    (s : SlabAllocator) (lists : SlabLists) (size : ℕ) (index : Option ℕ)
    → IsSlab s lists
    → ClassOf size index
    → Taken s lists index (alloc_from s index).0 (alloc_from s index).1
alloc_class s lists size none v (oversized lt) = too_large
alloc_class s lists size (some i) v (class index bs at fits before) =
    alloc_from-Taken s lists index (lists index) v
      (v index (lt-of_get_elem? block_sizes index bs at)) refl

-- `alloc` takes the first block of the list of the request's class, and changes nothing when that
-- list is empty or no class is large enough.
pub alloc-Taken :
    (s : SlabAllocator) (lists : SlabLists) (size : ℕ)
    → IsSlab s lists
    → Taken s lists (list_index size) (alloc s size).0 (alloc s size).1
unfolding alloc
alloc-Taken s lists size v = alloc_class s lists size (list_index size) v (list_index-ClassOf size)

-- What `free` does with a block and the class of its size.
abbrev pub Returned : SlabAllocator → SlabLists → ℕ → Option ℕ → Run SlabAllocator → Type 0
Returned s lists ptr none run = run ≡ panic
Returned s lists ptr (some index) run =
    (s' : SlabAllocator) × (run ≡ ok s') × IsSlab s' (store lists index (ptr ∷ lists index))

free_class :
    (s : SlabAllocator) (lists : SlabLists) (ptr size : ℕ) (index : Option ℕ)
    → IsSlab s lists
    → ptr ≢ 0
    → ((c : ℕ) → c < 9 → has ptr (lists c) ≡ false)
    → ClassOf size index
    → Returned s lists ptr index (free_to s ptr index)
free_class s lists ptr size none v ne out (oversized lt) = refl
free_class s lists ptr size (some i) v ne out (class index bs at fits before) =
    let head = s.list_heads index in
    let next' = store s.next ptr head in
    let same : (c q : ℕ) → c < 9 → has q (lists c) ≡ true → next' q ≡ s.next q =
      λ c q h j. ground (arith, out c h) in
    let inside = lt-of_get_elem? block_sizes index bs at in
    (
      record s { next = next'; list_heads = store s.list_heads index ptr },
      refl,
      set_list s lists index ptr (ptr ∷ lists index) next' same
          (
            refl,
            ne,
            rw (store_self s.next ptr head) (
                NextChain-same s.next next' head (lists index) (λ q j. same index q inside j)
                  (v index inside)),
          )
          v,
    )

-- `free` puts a block that is in no list at the front of the list of its class, and panics just
-- when its size is past every class.
pub free-Returned :
    (s : SlabAllocator) (lists : SlabLists) (ptr size : ℕ)
    → IsSlab s lists
    → ptr ≢ 0
    → ((c : ℕ) → c < 9 → has ptr (lists c) ≡ false)
    → Returned s lists ptr (list_index size) (free s ptr size)
unfolding free
free-Returned s lists ptr size v ne out =
    free_class s lists ptr size (list_index size) v ne out (list_index-ClassOf size)
