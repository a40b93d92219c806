-- ===== src/Mm/Buddy/Cover.antt =====
-- How often the free lists cover each byte of memory: the view in which allocation and release
-- are subtraction and addition.
use native.Mathlib.Nat.{pow-suc, one-le-pow}
use native.Mathlib.Decide.{dec_lt, ℕ_discrete}
use kernel_r.Prelude.{
  has, erase, Distinct, ℕ, zero, suc, ◌+◌, ◌*◌, ◌^◌, ◌≤◌, ◌<◌, true, false, ◌&&◌, ◌≡◌, ◌≢◌, refl,
  ap, List, [], ◌∷◌, arith, inl, inr, if◌then◌else◌, store, Bool-cases, ltb, leb, ◌∙◌,
}
use kernel_r.Mm.Buddy.{max_order}
use kernel_r.Mm.Buddy.Place.{size}

-- The free blocks of each order, by address.
abbrev pub Lists : Type 0
Lists = ℕ → List ℕ

-- 1 if the block at `a` has the byte `p`, and 0 if not.
pub inside : ℕ → ℕ → ℕ → ℕ
inside order a p = if leb a p && ltb p (a + size order) then 1 else 0

pub count_at : ℕ → ℕ → List ℕ → ℕ
count_at order p [] = 0
count_at order p (a ∷ xs) = inside order a p + count_at order p xs

pub cover_below : ℕ → Lists → ℕ → ℕ
cover_below zero free p = 0
cover_below (suc n) free p = cover_below n free p + count_at n p (free n)

-- How many free blocks have the byte `p`.
pub cover : Lists → ℕ → ℕ
unfolding cover_below
cover free p = cover_below max_order free p

pub inside_self : (order a : ℕ) → inside order a a ≡ 1
unfolding inside
inside_self order a = ground (arith, one-le-pow (12 + order) 2)

-- A block is its two halves.
pub inside-halves :
    (order a p : ℕ) → inside (suc order) a p ≡ inside order a p + inside order (a + size order) p
unfolding inside
inside-halves order a p = ground (arith, doubled)
  where
    doubled : size (suc order) ≡ size order * 2
    doubled = ap (λ (t : ℕ). 2 ^ t) {y = suc (12 + order)} (omega arith) ∙ pow-suc 2 (12 + order)

pub count_at-cons :
    (order p a : ℕ) (xs : List ℕ)
    → count_at order p (a ∷ xs) ≡ inside order a p + count_at order p xs
unfolding count_at
count_at-cons order p a xs = refl

pub count_at-erase :
    (order p a : ℕ) (xs : List ℕ)
    → has a xs ≡ true
    → count_at order p (erase a xs) + inside order a p ≡ count_at order p xs
unfolding count_at
count_at-erase order p a [] i = cc
count_at-erase order p a (x ∷ xs) i = ground (arith, count_at-erase order p a xs)

has-count_at : (order a : ℕ) (xs : List ℕ) → has a xs ≡ true → 1 ≤ count_at order a xs
unfolding count_at
has-count_at order a [] i = cc
has-count_at order a (x ∷ xs) i = ground (arith, has-count_at order a xs, inside_self order a)

Distinct-of_count : (order : ℕ) (xs : List ℕ) → ((p : ℕ) → count_at order p xs ≤ 1) → Distinct xs
unfolding count_at
Distinct-of_count order [] h = tt
Distinct-of_count order (x ∷ xs) h = (
  ground (arith, h x, inside_self order x, has-count_at order x xs),
  Distinct-of_count order xs (λ p. omega (arith, h p)),
)

cover_below-store_above :
    (n order : ℕ) (free : Lists) (xs : List ℕ) (p : ℕ)
    → n ≤ order
    → cover_below n (store free order xs) p ≡ cover_below n free p
unfolding cover_below
cover_below-store_above zero order free xs p h = refl
cover_below-store_above (suc n) order free xs p h =
    ground (arith, cover_below-store_above n order free xs p)

cover_below-store :
    (n order : ℕ) (free : Lists) (xs : List ℕ) (p : ℕ)
    → order < n
    → cover_below n (store free order xs) p + count_at order p (free order)
      ≡ cover_below n free p + count_at order p xs
unfolding cover_below
cover_below-store zero order free xs p h = elim h [ ]
cover_below-store (suc n) order free xs p h = elim (ℕ_discrete n order) [
  | yes e ↦ ground (arith, cover_below-store_above n order free xs p)
  | no ne ↦ ground (arith, cover_below-store n order free xs p)
]

-- Replacing the list of one order changes the cover by the difference.
pub cover-store :
    (order : ℕ) (free : Lists) (xs : List ℕ) (p : ℕ)
    → order < max_order
    → cover (store free order xs) p + count_at order p (free order)
      ≡ cover free p + count_at order p xs
unfolding cover
cover-store order free xs p h = cover_below-store max_order order free xs p h

count_at-le_cover_below :
    (n order : ℕ) (free : Lists) (p : ℕ)
    → order < n
    → count_at order p (free order) ≤ cover_below n free p
unfolding cover_below
count_at-le_cover_below zero order free p h = elim h [ ]
count_at-le_cover_below (suc n) order free p h = elim (ℕ_discrete n order) [
  | yes e ↦ ground arith
  | no ne ↦ ground (arith, count_at-le_cover_below n order free p)
]

two_counts-le_cover_below :
    (n a b : ℕ) (free : Lists) (p : ℕ)
    → a < b
    → b < n
    → count_at a p (free a) + count_at b p (free b) ≤ cover_below n free p
unfolding cover_below
two_counts-le_cover_below zero a b free p h lt = elim lt [ ]
two_counts-le_cover_below (suc n) a b free p h lt = elim (ℕ_discrete n b) [
  | yes e ↦ ground (arith, count_at-le_cover_below n a free p)
  | no ne ↦ ground (arith, two_counts-le_cover_below n a b free p h)
]

-- What a cover of at most one per byte gives: no list repeats a block, and no two lists share one.
module _ (free : Lists) (once : (p : ℕ) → cover free p ≤ 1) where
  pub free-Distinct : (order : ℕ) → order < max_order → Distinct (free order)
  unfolding cover
  free-Distinct order h =
      Distinct-of_count order (free order)
        (λ p. omega (arith, once p, count_at-le_cover_below max_order order free p h))

  pub not-has_both :
      (a b x : ℕ)
      → a < max_order
      → b < max_order
      → a ≢ b
      → has x (free a) ≡ true
      → has x (free b) ≡ false
  unfolding cover
  not-has_both a b x ha hb ne i = elim (Bool-cases (has x (free b))) [
    | inr out ↦ out
    | inl also ↦ elim (dec_lt a b) [
      | yes lt ↦ absurd (
          omega (
            arith,
            once x,
            two_counts-le_cover_below max_order a b free x lt hb,
            has-count_at a x (free a) i,
            has-count_at b x (free b) also,
          ))
      | no ge ↦ absurd (
          omega (
            arith,
            once x,
            two_counts-le_cover_below max_order b a free x (omega arith) ha,
            has-count_at a x (free a) i,
            has-count_at b x (free b) also,
          ))
    ]
  ]

  -- A block that no free block overlaps is in no list.
  pub not-has_fresh :
      (order x at : ℕ)
      → order < max_order
      → inside at x x ≡ 1
      → cover free x + inside at x x ≤ 1
      → has x (free order) ≡ false
  unfolding cover
  not-has_fresh order x at h one room = elim (Bool-cases (has x (free order))) [
    | inr out ↦ out
    | inl i ↦ absurd (
        omega (
          arith,
          count_at-le_cover_below max_order order free x h,
          has-count_at order x (free order) i,
        ))
  ]

cover_below-empty : (n p : ℕ) → cover_below n (λ o. []) p ≡ 0
unfolding cover_below count_at
cover_below-empty zero p = refl
cover_below-empty (suc n) p = omega (arith, cover_below-empty n p)

pub cover-empty : (p : ℕ) → cover (λ o. []) p ≡ 0
unfolding cover
cover-empty p = cover_below-empty max_order p

pub inside-le_one : (order a p : ℕ) → inside order a p ≤ 1
unfolding inside
inside-le_one order a p = ground arith
