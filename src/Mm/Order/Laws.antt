-- ===== src/Mm/Order/Laws.antt =====
-- The order that a size is given.
use native.Mathlib.Nat.{pow-suc, pow-le-pow_right}
use native.Mathlib.Decide.{dec_le, ℕ_discrete}
use kernel_r.Prelude.{
  ℕ, zero, suc, ◌+◌, ◌*◌, ◌/◌, ◌%◌, ◌^◌, ◌≤◌, ◌<◌, min, ◌≡◌, refl, ap, false, Bool-cases, inl, inr,
  ok, add_u64_lem, shr_u64_lem, word, leb, ◌==◌, arith,
}
use kernel_r.Mm.Order.{power_from, next_power_of_two, trailing_zeros, size_to_order}

-- The power found is the first from `2 ^ k` on.
power_from-first :
    (rounds k n top : ℕ)
    → k ≤ top
    → top < k + rounds
    → n ≤ 2 ^ top
    → (j : ℕ) × (power_from rounds k n ≡ ok (2 ^ j))
      × (j ≤ top)
      × (n ≤ 2 ^ j)
      × ((i : ℕ) → k ≤ i → i < j → 2 ^ i < n)
unfolding power_from
power_from-first zero k n top le lt h = absurd (omega arith)
power_from-first (suc rounds) k n top le lt h = elim (Bool-cases (leb n (2 ^ k))) [
  | inl here ↦ rw here (k, refl, le, ground arith, λ i below lt'. absurd (omega arith))
  | inr later ↦
      (let past : 2 ^ k < n = ground arith in
        let more : k + 1 ≤ top = further k top n le past h in
        let (j, e, j_le, fits, before) =
          power_from-first rounds (k + 1) n top more (omega arith) h in
        rw later (j, e, j_le, fits, all_before k n j past before))
]
  where
    further : (k top n : ℕ) → k ≤ top → 2 ^ k < n → n ≤ 2 ^ top → k + 1 ≤ top
    further k top n le past h = elim (ℕ_discrete k top) [
      | yes e ↦ absurd (omega (arith, past, h, ap (λ (t : ℕ). 2 ^ t) e))
      | no ne ↦ omega (arith, le, ne)
    ]

    all_before :
        (k n j : ℕ)
        → 2 ^ k < n
        → ((i : ℕ) → k + 1 ≤ i → i < j → 2 ^ i < n)
        → (i : ℕ) → k ≤ i
        → i < j
        → 2 ^ i < n
    all_before k n j past before i le lt = elim (ℕ_discrete k i) [
      | yes e ↦ omega (arith, past, ap (λ (t : ℕ). 2 ^ t) e)
      | no ne ↦ before i (omega (arith, le, ne)) lt
    ]

trailing_zeros-pow : (rounds j : ℕ) → j < rounds → trailing_zeros rounds (2 ^ j) ≡ j
unfolding trailing_zeros
trailing_zeros-pow zero j lt = elim lt [ ]
trailing_zeros-pow (suc rounds) zero lt = refl
trailing_zeros-pow (suc rounds) (suc j) lt =
    let half : 2 ^ suc j / 2 ≡ 2 ^ j = omega (arith, pow-suc 2 j) in
    let even : (2 ^ suc j % 2 == 1) ≡ false = ground (arith, pow-suc 2 j) in
    rw (even, half) (omega (arith, trailing_zeros-pow rounds j (omega arith)))

-- The order for a size: the least whose block holds it, or 10 when the size is past 4 MiB.
abbrev pub OrderFor : ℕ → ℕ → Type 0
OrderFor size order =
    (order ≤ 10)
    × (size ≤ 4096 * 2 ^ 10 → size ≤ 4096 * 2 ^ order)
    × (4096 * 2 ^ 10 < size → order ≡ 10)
    × ((o : ℕ) → o < order → 4096 * 2 ^ o < size)

-- `size_to_order` returns the least order whose block holds the size, or 10 when none does, for
-- every size that is at least 4095 from the end of the word.
pub size_to_order-OrderFor :
    (size : ℕ)
    → size + 4095 < word
    → (order : ℕ) × (size_to_order size ≡ ok order) × OrderFor size order
unfolding size_to_order next_power_of_two
size_to_order-OrderFor size fits =
    let pages = (size + 4095) / 4096 in
    let (j, e, j_le, enough, before) =
      power_from-first 64 0 pages 52 (omega arith) (omega arith) (omega arith) in
    let zeros = trailing_zeros-pow 64 j (omega arith) in
    (
      min j 10,
      rw (add_u64_lem size 4095 fits, shr_u64_lem (size + 4095) 12 (omega arith), e, zeros) refl,
      (
        omega arith,
        holds size j enough before,
        λ past. tops size j enough past,
        λ o lt. omega (arith, before o (omega arith) (omega arith)),
      ),
    )
  where
    holds :
        (size j : ℕ)
        → (size + 4095) / 4096 ≤ 2 ^ j
        → ((i : ℕ) → 0 ≤ i → i < j → 2 ^ i < (size + 4095) / 4096)
        → size ≤ 4096 * 2 ^ 10
        → size ≤ 4096 * 2 ^ min j 10
    holds size j enough before small = elim (dec_le j 10) [
      | yes le ↦
          omega (arith, enough, ap (λ (t : ℕ). 2 ^ t) {x = min j 10} {y = j} (omega (arith, le)))
      | no gt ↦ omega (arith, small, before 10 (omega arith) (omega (arith, gt)))
    ]

    tops : (size j : ℕ) → (size + 4095) / 4096 ≤ 2 ^ j → 4096 * 2 ^ 10 < size → min j 10 ≡ 10
    tops size j enough past = elim (dec_le j 10) [
      | yes le ↦
          omega (arith, enough, past, pow-le-pow_right {n = 2} (omega arith) {i = j} {j = 10} le)
      | no gt ↦ omega (arith, gt)
    ]
