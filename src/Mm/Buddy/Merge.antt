-- ===== src/Mm/Buddy/Merge.antt =====
-- The addresses of `free`: the flags stripped, the buddy, and the block that the pair makes up.
use Prim.Native.Nat.{bit_xor}
use native.Mathlib.Nat.{pow-suc, one-le-pow, mul-div_left}
use kernel_r.Prelude.{
  ℕ, suc, ◌+◌, ◌-◌, ◌*◌, ◌/◌, ◌%◌, ◌^◌, ◌≤◌, ◌<◌, bit_and, ◌≡◌, sym, ◌∙◌, ap, arith, ◌==◌,
  Bool-cases, inl, inr, ◌⊎◌,
}
use kernel_r.Prelude.Bits.{pow-add, bit_and_clear}
use kernel_r.Prelude.Xor.{sibling, bit_xor-pow, bit_and_drop}
use kernel_r.Mm.Align.{complement}
use kernel_r.Mm.Buddy.Cover.{inside, inside-halves}
use kernel_r.Mm.Buddy.Place.{Region, IsManaged, size, blocks}
use kernel_r.Mm.Buddy.Split.{blocks-suc, block_at-le_top, size_pos, whole_size}
use kernel_r.Mm.Buddy.Valid.{block_at, size-suc, block_at-suc, block_at-next}

module _ {r : Region} (managed : IsManaged r) (order j : ℕ) (h : order < 10)
    (lt : j < blocks r order) where
  -- A block's address is a multiple of its size, by an even number more than its index.
  above : ℕ
  above = r.base / 2 ^ 23 * 2 ^ (11 - order)

  block_at-multiple : block_at r order j ≡ (above + j) * size order
  unfolding above
  block_at-multiple = omega (
    arith,
    managed.base_aligned,
    ap (λ (t : ℕ). r.base / 2 ^ 23 * t) (whole_size order (omega arith)),
  )

  above_even : above % 2 ≡ 0
  unfolding above
  above_even = omega (
    arith,
    ap (λ (t : ℕ). r.base / 2 ^ 23 * t)
        (ap (λ (t : ℕ). 2 ^ t) {x = 11 - order} {y = suc (10 - order)} (omega arith)
          ∙ pow-suc 2 (10 - order)),
  )

  -- `addr ^ size` is the other block of the pair.
  pub buddy_address : bit_xor (block_at r order j) (size order) ≡ block_at r order (sibling j)
  buddy_address =
      rw (block_at-multiple, bit_xor-pow (12 + order) (above + j))
        (ap (λ (t : ℕ). t * size order) {x = sibling (above + j)} {y = above + sibling j}
            (ground (arith, above_even))
          ∙ omega (arith, block_at-multiple))

  -- `addr & !size` is the pair's own block, of the next order.
  pub merged_address :
      bit_and (block_at r order j) (complement (size order)) ≡ block_at r (suc order) (j / 2)
  merged_address =
      let top = block_at-le_top order j managed (omega arith) lt in
      bit_and_drop (12 + order) 64 (block_at r order j) (omega arith)
        (omega (arith, top, size_pos order))
      ∙ rw index (omega (arith, ap (λ (t : ℕ). j / 2 * t) (size-suc order), parts))
    where
      index : block_at r order j / size order % 2 ≡ j % 2
      index =
          ap (λ (t : ℕ). t / size order % 2) block_at-multiple
          ∙ rw (mul-div_left (above + j) (size_pos order)) (omega (arith, above_even))

      parts : j * size order ≡ j / 2 * (2 * size order) + j % 2 * size order
      parts =
          ap (λ (t : ℕ). t * size order) {x = j} {y = j / 2 * 2 + j % 2} (omega arith) ∙ omega arith

-- `addr & !0xfff` of a block's address with flags in its low bits.
pub strip_flags :
    {r : Region}
    → IsManaged r
    → (order j flags : ℕ) → order ≤ 10
    → j < blocks r order
    → flags < 4096
    → bit_and (block_at r order j + flags) (complement 0xfff) ≡ block_at r order j
strip_flags {r} managed order j flags h lt small =
    let page : size order ≡ 4096 * 2 ^ order = sym (pow-add 12 order) in
    let top = block_at-le_top order j managed (omega arith) lt in
    let pos = one-le-pow order 2 (omega arith) in
    bit_and_clear 12 (block_at r order j + flags) (omega arith) (omega (arith, top, page, pos))
    ∙ omega (arith, managed.base_aligned, ap (λ (t : ℕ). j * t) page)

-- The two blocks of a pair, in either order.
pub sibling_cases :
    (j : ℕ)
    → ((j ≡ 2 * (j / 2)) × (sibling j ≡ 2 * (j / 2) + 1))
      ⊎ ((j ≡ 2 * (j / 2) + 1) × (sibling j ≡ 2 * (j / 2)))
sibling_cases j = elim (Bool-cases (j % 2 == 0)) [
  | inl even ↦ inl (ground arith, ground arith)
  | inr odd ↦ inr (ground arith, ground arith)
]

pub sibling_half : (j : ℕ) → sibling j / 2 ≡ j / 2
sibling_half j = ground (arith, sibling_cases j)

-- The two blocks of a pair make up the block of the next order.
pub inside-pair :
    (r : Region) (order j p : ℕ)
    → inside (suc order) (block_at r (suc order) (j / 2)) p
      ≡ inside order (block_at r order j) p + inside order (block_at r order (sibling j)) p
inside-pair r order j p =
    let first = block_at-suc r order (j / 2) in
    let second = ap (λ (t : ℕ). t + size order) first ∙ block_at-next r order (2 * (j / 2)) in
    let halves =
      inside-halves order (block_at r (suc order) (j / 2)) p
      ∙ ap (λ t. inside order t p + inside order (block_at r (suc order) (j / 2) + size order) p)
          first
      ∙ ap (λ t. inside order (block_at r order (2 * (j / 2))) p + inside order t p) second in
    elim (sibling_cases j) [
      | inl (e, e') ↦ omega (
        arith,
        halves,
        ap (λ t. inside order (block_at r order t) p) e,
        ap (λ t. inside order (block_at r order t) p) e',
      )
      | inr (e, e') ↦ omega (
        arith,
        halves,
        ap (λ t. inside order (block_at r order t) p) e,
        ap (λ t. inside order (block_at r order t) p) e',
      )
    ]

pub sibling_in_region :
    (r : Region) (order j : ℕ) → order < 10 → j < blocks r order → sibling j < blocks r order
sibling_in_region r order j h lt = ground (arith, blocks-suc r order (omega arith), sibling_cases j)
