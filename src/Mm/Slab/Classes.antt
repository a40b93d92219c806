-- ===== src/Mm/Slab/Classes.antt =====
-- Which block size serves a request.
use mathlib.Core.Option.{some-injective}
use kernel_r.Prelude.{
  ℕ, zero, suc, ◌+◌, ◌≤◌, ◌<◌, ◌≡◌, refl, ◌∙◌, ap, true, Option, none, some, List, [], ◌∷◌,
  get_elem?, ltb, leb, arith, Bool-cases, inl, inr,
}
use kernel_r.Mm.Slab.{block_sizes, search_sizes, list_index}

-- The first size that is large enough, and where it stands behind `i`.
search_sizes-first :
    (sizes : List ℕ) (i size k last : ℕ)
    → get_elem? sizes k ≡ some last
    → size ≤ last
    → (j : ℕ) × (block_size : ℕ) × (search_sizes sizes i size ≡ some (i + j))
      × (get_elem? sizes j ≡ some block_size)
      × (size ≤ block_size)
      × ((m smaller : ℕ) → m < j → get_elem? sizes m ≡ some smaller → smaller < size)
unfolding search_sizes
search_sizes-first [] i size k last e le = cc
search_sizes-first (s ∷ sizes) i size zero last e le =
    let fits : leb size s ≡ true = ground (arith, some-injective s last e) in
    rw fits (0, s, ap some (omega arith), refl, ground arith, λ m smaller lt. elim lt [ ])
search_sizes-first (s ∷ sizes) i size (suc k) last e le = elim (Bool-cases (leb size s)) [
  | inl fits ↦
      rw fits (0, s, ap some (omega arith), refl, ground arith, λ m smaller lt. elim lt [ ])
  | inr small ↦
      (let (j, block_size, found, at, fits, before) =
          search_sizes-first sizes (i + 1) size k last e le in
        rw small (
          suc j,
          block_size,
          found ∙ ap some (omega arith),
          at,
          fits,
          all_before s sizes size j (ground arith) before,
        ))
]
  where
    all_before :
        (s : ℕ) (sizes : List ℕ) (size j : ℕ)
        → s < size
        → ((m smaller : ℕ) → m < j → get_elem? sizes m ≡ some smaller → smaller < size)
        → (m smaller : ℕ) → m < suc j
        → get_elem? (s ∷ sizes) m ≡ some smaller
        → smaller < size
    all_before s sizes size j lt before zero smaller h e = omega (arith, some-injective s smaller e)
    all_before s sizes size j lt before (suc m) smaller h e = before m smaller (omega arith) e

-- The class of a request: the first of the block sizes that holds it. There is none past 2048.
pub data ClassOf (size : ℕ) : Option ℕ → Type 0 where
  oversized : 2048 < size → ClassOf size none
  class :
      (index block_size : ℕ)
      → get_elem? block_sizes index ≡ some block_size
      → size ≤ block_size
      → ((m smaller : ℕ) → m < index → get_elem? block_sizes m ≡ some smaller → smaller < size)
      → ClassOf size (some index)

-- `list_index` returns the index of the smallest block size that holds the request, and `None`
-- just for requests of more than 2048 bytes.
pub list_index-ClassOf : (size : ℕ) → ClassOf size (list_index size)
unfolding list_index
list_index-ClassOf size = elim (Bool-cases (ltb 2048 size)) [
  | inl large ↦ rw large (oversized (ground arith))
  | inr small ↦
      (let (j, block_size, found, at, fits, before) =
          search_sizes-first block_sizes 0 size 8 2048 refl (ground arith) in
        let found' : search_sizes block_sizes 0 size ≡ some j = found ∙ ap some (omega arith) in
        rw (small, found') (class j block_size at fits before))
]
