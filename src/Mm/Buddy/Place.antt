-- ===== src/Mm/Buddy/Place.antt =====
-- Where the bitmap keeps the bit of a pair of buddies: `bit_place`, the first half of `toggle_bit`.
-- A region of `units` times 8 MiB from `base` on is managed by a bitmap of `bitmap_size` bytes.
use native.Mathlib.Nat.{
  pow-suc, one-le-pow, le-div_iff_mul-le, mul-div_left, div-div-eq-div-mul, add-zero,
}
use native.Mathlib.Decide.{dec_le, dec_lt}
use native.Mathlib.Numerals.{add-one}
use kernel_r.Prelude.{
  ℕ, zero, suc, ◌+◌, ◌-◌, ◌*◌, ◌/◌, ◌^◌, ◌≤◌, ◌<◌, ◌≡◌, refl, sym, ap, ◌∙◌, arith, ok, word,
  shr_u64_lem, add_u64_lem, mul_u64_lem,
}
use kernel_r.Prelude.Bits.{pow-add}
use kernel_r.Mm.Buddy.{BuddyAllocator, offset_loop, bit_place}

pub record Region : Type 0 where
  pub base : ℕ
  pub units : ℕ
  pub bitmap_size : ℕ

-- The base is aligned to 8 MiB, the region ends inside the word, and it has a bit of its own in
-- the map for each pair at each order: a byte of bitmap for 32 KiB of memory.
pub record IsManaged (r : Region) : Type 0 where
  pub base_pos : 0 < r.base
  pub base_aligned : r.base / 2 ^ 23 * 2 ^ 23 ≡ r.base
  pub top : r.base + r.units * 2 ^ 23 ≤ word
  pub room : r.units * 2 ^ 11 ≤ r.bitmap_size * 8
  pub small : r.bitmap_size * 8 < word

-- The bytes of a block, and the numbers of blocks and of pairs of an order in the region.
abbrev pub size : ℕ → ℕ
size order = 2 ^ (12 + order)

abbrev pub blocks : Region → ℕ → ℕ
blocks r order = r.units * 2 ^ (11 - order)

abbrev pub pairs : Region → ℕ → ℕ
pairs r order = r.units * 2 ^ (10 - order)

-- The first bit of an order, in a map of `bits` bits.
pub offset : ℕ → ℕ → ℕ
offset bits zero = 0
offset bits (suc order) = offset bits order + bits / 2 ^ (order + 1)

pub place : Region → ℕ → ℕ → ℕ
place r order pair = offset (r.bitmap_size * 8) order + pair

offset_bound : (bits order : ℕ) → offset bits order + bits / 2 ^ order ≤ bits
unfolding offset
offset_bound bits zero = omega arith
offset_bound bits (suc order) = omega (
  arith,
  offset_bound bits order,
  halved,
  ap (λ (t : ℕ). bits / 2 ^ t) {x = order + 1} {y = suc order} (omega arith),
)
  where
    halved : bits / 2 ^ suc order ≡ bits / 2 ^ order / 2
    halved = rw (pow-suc 2 order) (sym (div-div-eq-div-mul bits (2 ^ order) 2))

offset_mono : (bits a b : ℕ) → a ≤ b → offset bits a ≤ offset bits b
unfolding offset
offset_mono bits a zero h = ground arith
offset_mono bits a (suc b) h = elim (dec_le a b) [
  | yes le ↦ omega (arith, offset_mono bits a b le)
  | no gt ↦ rw (let e : a ≡ suc b = omega arith in e) (omega arith)
]

offset_loop-offset :
    (bitmap_size rounds i : ℕ)
    → bitmap_size * 8 < word
    → i + rounds < 64
    → offset_loop bitmap_size rounds i (offset (bitmap_size * 8) i)
      ≡ ok (offset (bitmap_size * 8) (i + rounds))
unfolding offset_loop
offset_loop-offset s zero i h lt = rw add-zero
offset_loop-offset s (suc rounds) i h lt =
    rw
      (
        mul_u64_lem s 8 h,
        shr_u64_lem (s * 8) (i + 1) (omega arith),
        add_u64_lem (offset (s * 8) i) (s * 8 / 2 ^ (i + 1))
            (omega (arith, next, offset_bound (s * 8) (suc i))),
        next,
        add-one i,
      )
      (offset_loop-offset s rounds (suc i) h (omega arith)
        ∙ ap (λ (t : ℕ). ok (offset (s * 8) t)) (omega arith))
  where
    next : offset (s * 8) i + s * 8 / 2 ^ (i + 1) ≡ offset (s * 8) (suc i)
    next = unfold offset in refl

offset-le-place :
    (r : Region) (order pair : ℕ) → offset (r.bitmap_size * 8) order ≤ place r order pair
unfolding place
offset-le-place r order pair = omega arith

module _ {r : Region} (managed : IsManaged r) where
  open managed use {room, small}

  pub pairs-le : (order : ℕ) → order ≤ 10 → pairs r order ≤ r.bitmap_size * 8 / 2 ^ (order + 1)
  pairs-le order h =
      (le-div_iff_mul-le (one-le-pow (order + 1) 2 (omega arith))).1
        (omega (arith, room, ap (λ (t : ℕ). r.units * t) split))
    where
      split : 2 ^ (10 - order) * 2 ^ (order + 1) ≡ 2 ^ 11
      split = pow-add (10 - order) (order + 1) ∙ ap (λ (t : ℕ). 2 ^ t) {y = 11} (omega arith)

  -- A pair's bit lies before those of the next order.
  pub place-lt :
      (order pair : ℕ)
      → order ≤ 10
      → pair < pairs r order
      → place r order pair < offset (r.bitmap_size * 8) (suc order)
  unfolding place offset
  place-lt order pair h lt = omega (arith, pairs-le order h)

  pub place-in_map :
      (order pair : ℕ) → order ≤ 10 → pair < pairs r order → place r order pair / 8 < r.bitmap_size
  place-in_map order pair h lt =
      omega (arith, place-lt order pair h lt, offset_bound (r.bitmap_size * 8) (suc order))

  place-lt-place : (a b i j : ℕ) → a < b → b ≤ 10 → i < pairs r a → place r a i < place r b j
  place-lt-place a b i j lt h hi = omega (
    arith,
    place-lt a i (omega arith) hi,
    offset_mono (r.bitmap_size * 8) (suc a) b lt,
    offset-le-place r b j,
  )

  -- Two pairs of the region never share a bit.
  pub place-injective :
      (a b i j : ℕ)
      → a ≤ 10
      → b ≤ 10
      → i < pairs r a
      → j < pairs r b
      → place r a i ≡ place r b j
      → (a ≡ b) × (i ≡ j)
  unfolding place
  place-injective a b i j ha hb hi hj e = elim (dec_lt a b) [
    | yes lt ↦ omega (arith, place-lt-place a b i j lt hb hi)
    | no ge ↦ elim (dec_lt b a) [
      | yes lt ↦ omega (arith, place-lt-place b a j i lt ha hj)
      | no le ↦
          let same : a ≡ b = omega arith in
          (same, omega (arith, ap (offset (r.bitmap_size * 8)) same))
    ]
  ]

  pub blocks-eq-pairs : (order : ℕ) → order ≤ 10 → blocks r order ≡ 2 * pairs r order
  blocks-eq-pairs order h = omega (
    arith,
    ap (λ (t : ℕ). r.units * t)
        (ap (λ (t : ℕ). 2 ^ t) {x = 11 - order} {y = suc (10 - order)} (omega arith)
          ∙ pow-suc 2 (10 - order)),
  )

  -- The bit of block `j` of an order is that of the pair `j / 2`.
  pub bit_place-place :
      (b : BuddyAllocator) (order j : ℕ)
      → order ≤ 10
      → j < blocks r order
      → b.base_addr ≡ r.base
      → b.bitmap_size ≡ r.bitmap_size
      → bit_place b order (r.base + j * size order) ≡ ok (place r order (j / 2))
  unfolding bit_place place
  bit_place-place b order j h lt same_base same_size =
      rw
        (
          same_base,
          same_size,
          shr_u64_lem (r.base + j * size order - r.base) (12 + order + 1) (omega arith),
          index,
          offsets,
        )
        (add_u64_lem (j / 2) (offset (r.bitmap_size * 8) order) fits ∙ ap ok (omega arith))
    where
      index : (r.base + j * size order - r.base) / 2 ^ (12 + order + 1) ≡ j / 2
      index = rw (
        (let e : r.base + j * size order - r.base ≡ j * size order = omega arith in e),
        add-one (12 + order),
        pow-suc 2 (12 + order),
        ← div-div-eq-div-mul (j * size order) (size order) 2,
        mul-div_left j (one-le-pow (12 + order) 2 (omega arith)),
      )

      offsets : offset_loop r.bitmap_size order 0 0 ≡ ok (offset (r.bitmap_size * 8) order)
      offsets =
          unfold offset in
          offset_loop-offset r.bitmap_size order 0 small (omega arith)
          ∙ ap (λ (t : ℕ). ok (offset (r.bitmap_size * 8) t)) (omega arith)

      fits : j / 2 + offset (r.bitmap_size * 8) order < word
      fits = omega (
        arith,
        blocks-eq-pairs order h,
        offset_bound (r.bitmap_size * 8) (suc order),
        place-lt order (j / 2) h,
      )
