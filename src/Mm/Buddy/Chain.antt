-- ===== src/Mm/Buddy/Chain.antt =====
-- The doubly-linked lists that `push_block` and `remove_block` keep in the free memory.
use kernel_r.Prelude.{
  has, erase, Distinct, ℕ, true, false, ◌≡◌, ◌≢◌, refl, List, [], ◌∷◌, arith, ◌⊎◌, inl, inr, ◌==◌,
  if◌then◌else◌, Bool-cases, subst, ◌∙◌,
}
use kernel_r.Mm.Buddy.{FreeBlock, null, set_prev, set_next}

abbrev pub Mem : Type 0
Mem = ℕ → FreeBlock

-- From `p`, whose predecessor is `before`, the pointers lead through `xs` to null, both ways.
abbrev pub Chain : Mem → ℕ → ℕ → List ℕ → Type 0
Chain m before p [] = p ≡ null
Chain m before p (x ∷ xs) = (p ≡ x) × (x ≢ null) × ((m x).prev ≡ before) × Chain m x (m x).next xs

pub frame :
    (m m' : Mem) (before p : ℕ) (xs : List ℕ)
    → ((a : ℕ) → has a xs ≡ true → m' a ≡ m a)
    → Chain m before p xs
    → Chain m' before p xs
frame m m' before p [] same c = c
frame m m' before p (x ∷ xs) same (e, ne, back, rest) =
    let here : m' x ≡ m x = same x (ground arith) in
    (e, ne, rw here back, rw here (frame m m' x (m x).next xs (λ a i. same a (ground arith)) rest))

-- The memory after `push_block`.
unfoldable pub pushed : Mem → ℕ → ℕ → Mem
pushed m block head =
    let m' = set_next (set_prev m block null) block head in
    if head == null then m' else set_prev m' head block

pub pushed-elsewhere :
    (m : Mem) (block head a : ℕ) → a ≢ block → a ≢ head → pushed m block head a ≡ m a
unfolding pushed
pushed-elsewhere m block head a ne ne' = ground arith

pub pushed-Chain :
    (m : Mem) (block head : ℕ) (xs : List ℕ)
    → block ≢ null
    → has block xs ≡ false
    → Distinct xs
    → Chain m null head xs
    → Chain (pushed m block head) null block (block ∷ xs)
unfolding pushed
pushed-Chain m block head [] ne out d c = ground arith
pushed-Chain m block head (x ∷ xs) ne out d (e, ne', back, rest) =
    let same : (pushed m block head x).next ≡ (m x).next = ground arith in
    (
      refl,
      ne,
      ground arith,
      (
        ground arith,
        ne',
        ground arith,
        rw same (
            frame m (pushed m block head) x (m x).next xs
              (λ a i. pushed-elsewhere m block head a (ground arith) (ground arith)) rest),
      ),
    )

-- The memory after `remove_block`.
unfoldable pub removed : Mem → ℕ → Mem
removed m x =
    let m' = if (m x).prev == null then m else set_next m (m x).prev (m x).next in
    if (m' x).next == null then m' else set_prev m' (m' x).next (m' x).prev

module _ (m : Mem) (x : ℕ) (off : x ≢ (m x).prev) where
  pub removed-elsewhere : (a : ℕ) → a ≢ (m x).prev → a ≢ (m x).next → removed m x a ≡ m a
  unfolding removed
  removed-elsewhere a ne ne' = ground arith

  removed-next :
      (m x).next ≢ null
      → (m x).next ≢ (m x).prev
      → removed m x (m x).next ≡ record { next = (m (m x).next).next; prev = (m x).prev }
  unfolding removed
  removed-next ne ne' = ground arith

  removed-prev :
      (m x).prev ≢ null
      → (m x).next ≢ (m x).prev
      → removed m x (m x).prev ≡ record { next = (m x).next; prev = (m (m x).prev).prev }
  unfolding removed
  removed-prev ne ne' = ground arith

-- The neighbours of a node: its successor, which is no node before it, and its predecessor.
pub next_in :
    (m : Mem) (x before p : ℕ) (xs : List ℕ)
    → Chain m before p xs
    → has x xs ≡ true
    → ((m x).next ≡ null) ⊎ (has (m x).next xs ≡ true)
next_in m x before p [] c i = cc
next_in m x before p (y ∷ []) c i = ground arith
next_in m x before p (y ∷ z ∷ zs) (e, ne, back, rest) i =
    ground (arith, next_in m x y (m y).next (z ∷ zs) rest)

pub head_prev :
    (m : Mem) (x before p : ℕ) (xs : List ℕ)
    → Chain m before p xs
    → has x xs ≡ true
    → p ≡ x
    → (m x).prev ≡ before
head_prev m x before p [] c i e = cc
head_prev m x before p (y ∷ ys) (e, ne, back, rest) i h = ground arith

pub prev_in :
    (m : Mem) (x before p : ℕ) (xs : List ℕ)
    → Chain m before p xs
    → Distinct xs
    → has x xs ≡ true
    → p ≢ x
    → (has (m x).prev xs ≡ true) × ((m x).prev ≢ x)
prev_in m x before p [] c d i h = cc
prev_in m x before p (y ∷ ys) (e, ne, back, rest) d i h = elim (Bool-cases ((m y).next == x)) [
  | inl hit ↦ ground (arith, head_prev m x y (m y).next ys rest)
  | inr miss ↦ ground (arith, prev_in m x y (m y).next ys rest d.1)
]

-- The chain behind the removed node.
behind-Chain :
    (m : Mem) (x before : ℕ) (ys : List ℕ)
    → Chain m x (m x).next ys
    → Distinct ys
    → has x ys ≡ false
    → (m x).prev ≡ before
    → has before ys ≡ false
    → x ≢ before
    → Chain (removed m x) before (m x).next ys
behind-Chain m x before [] c d out back out' ne = c
behind-Chain m x before (z ∷ zs) (e, ne, back', rest) d out back out' ne' =
    let off : x ≢ (m x).prev = ground arith in
    let here = removed-next m x off (ground arith) (ground arith) in
    (
      e,
      ne,
      ground (arith, here),
      (let same : (removed m x z).next ≡ (m z).next = ground (arith, here) in
          rw same (
            frame m (removed m x) z (m z).next zs
              (λ a i. removed-elsewhere m x off a (ground arith) (ground arith)) rest)),
    )

-- The node `y` before the rest `ys` of a chain, in which the removed node lies.
ahead :
    (m : Mem) (x y : ℕ) (ys : List ℕ)
    → Chain m y (m y).next ys
    → y ≢ null
    → Distinct (y ∷ ys)
    → has x ys ≡ true
    → (x ≢ (m x).prev)
      × ((removed m x y).prev ≡ (m y).prev)
      × ((removed m x y).next ≡ (if (m y).next == x then (m x).next else (m y).next))
ahead m x y ys c ne d i = elim (Bool-cases ((m y).next == x)) [
  | inl hit ↦
      (let back : (m x).prev ≡ y = ground (arith, head_prev m x y (m y).next ys c) in
        let off : x ≢ (m x).prev = ground arith in
        let after : (m x).next ≢ (m x).prev = ground (arith, next_in m x y (m y).next ys c) in
        let here = removed-prev m x off (ground arith) after in
        (off, ground (arith, here), ground (arith, here)))
  | inr miss ↦
      (let back = prev_in m x y (m y).next ys c d.1 i (ground arith) in
        let off : x ≢ (m x).prev = ground arith in
        let after = next_in m x y (m y).next ys c i in
        let here : removed m x y ≡ m y =
          removed-elsewhere m x off y (ground arith) (ground (arith, after)) in
        (off, ground arith, ground arith))
]

-- Where `remove_block` finds the block in a chain, the chain goes on without it.
pub removed-Chain :
    (m : Mem) (x before p : ℕ) (xs : List ℕ)
    → Chain m before p xs
    → Distinct xs
    → has x xs ≡ true
    → has before xs ≡ false
    → Chain (removed m x) before (if p == x then (m x).next else p) (erase x xs)
removed-Chain m x before p [] c d i out = cc
removed-Chain m x before p (y ∷ ys) (e, ne, back, rest) d i out = elim (Bool-cases (x == y)) [
  | inl hit ↦
      (let same : y ≡ x = ground arith in
        let first : (p == x) ≡ true = ground arith in
        rw (hit, first)
          (behind-Chain m x before ys (subst (λ t. Chain m t (m t).next ys) same rest) d.1
            (ground arith) (ground arith) (ground arith) (ground arith)))
  | inr miss ↦
      (let first : (p == x) ≡ false = ground arith in
        let inside : has x ys ≡ true = ground arith in
        let fields = ahead m x y ys rest ne d inside in
        rw (miss, first)
          (
            e,
            ne,
            fields.1 ∙ back,
            rw fields.2 (removed-Chain m x y (m y).next ys rest d.1 inside d.0),
          ))
]

pub head_in :
    (m : Mem) (before p : ℕ) (xs : List ℕ) → Chain m before p xs → (p ≡ null) ⊎ (has p xs ≡ true)
head_in m before p [] c = inl c
head_in m before p (x ∷ xs) (e, ne, back, rest) = inr (ground arith)

pub ne_null_of_has :
    (m : Mem) (before p a : ℕ) (xs : List ℕ) → Chain m before p xs → has a xs ≡ true → a ≢ null
ne_null_of_has m before p a [] c i = cc
ne_null_of_has m before p a (x ∷ xs) (e, ne, back, rest) i =
    ground (arith, ne_null_of_has m x (m x).next a xs rest)
