-- ===== src/Mm/Align/Laws.antt =====
-- Rounding up by `align_to`.
use native.Mathlib.Nat.{
  one-le-pow, lt-div-mul-add, div-mul-le_self, mul-mod_left, div-lt_iff_lt-mul, mul-le-mul_right,
}
use kernel_r.Prelude.{
  ℕ, ◌+◌, ◌-◌, ◌*◌, ◌/◌, ◌%◌, ◌^◌, ◌≤◌, ◌<◌, ◌≡◌, arith, ok, panic, word, bit_and, ap, ◌∙◌,
  add_u64_lem, sub_u64_lem, add_u64-panic,
}
use kernel_r.Prelude.Bits.{bit_and_clear}
use kernel_r.Mm.Align.{align_to, complement}

-- The least multiple of `align` from `addr` on.
abbrev pub round_up : ℕ → ℕ → ℕ
round_up addr align = (addr + align - 1) / align * align

align_to-word :
    (addr align : ℕ)
    → 0 < align
    → addr + align < word
    → align_to addr align ≡ ok (bit_and (addr + align - 1) (complement (align - 1)))
unfolding align_to
align_to-word addr align pos fits = rw (
  add_u64_lem addr align fits,
  sub_u64_lem (addr + align) 1 (omega arith),
  sub_u64_lem align 1 (omega arith),
)

-- For a power of two, `align_to` rounds up, as long as `addr + align` fits the word.
pub align_to-round_up :
    (addr k : ℕ) → k < 64 → addr + 2 ^ k < word → align_to addr (2 ^ k) ≡ ok (round_up addr (2 ^ k))
align_to-round_up addr k small fits =
    let pos : 0 < 2 ^ k = one-le-pow k 2 (omega arith) in
    let mask : complement (2 ^ k - 1) ≡ 2 ^ 64 - 2 ^ k = omega arith in
    align_to-word addr (2 ^ k) pos fits
    ∙ ap ok (rw mask (bit_and_clear k (addr + 2 ^ k - 1) (omega arith) (omega arith)))

round_up-least : (addr align m : ℕ) → 0 < align → addr ≤ m * align → round_up addr align ≤ m * align
round_up-least addr align m pos h =
    let below : (addr + align - 1) / align < m + 1 =
      (div-lt_iff_lt-mul {x = addr + align - 1} {y = m + 1} pos).1 (grind arith) in
    mul-le-mul_right align (omega arith)

-- The result is the least multiple of the alignment at or past the address.
pub round_up_lem :
    (addr align m : ℕ)
    → 0 < align
    → (addr ≤ round_up addr align)
      × (round_up addr align < addr + align)
      × (round_up addr align % align ≡ 0)
      × (addr ≤ m * align → round_up addr align ≤ m * align)
round_up_lem addr align m pos = (
  omega (arith, lt-div-mul-add {a = addr + align - 1} pos),
  omega (arith, div-mul-le_self (addr + align - 1) align),
  mul-mod_left ((addr + align - 1) / align) align,
  λ h. round_up-least addr align m pos h,
)

-- The sum is taken before the one is subtracted, so the last `align` addresses panic.
pub align_to-panic : (addr align : ℕ) → word ≤ addr + align → align_to addr align ≡ panic
unfolding align_to
align_to-panic addr align h = rw (add_u64-panic addr align h)

-- What `align_to` does with an address and a power of two.
abbrev pub AlignsUp : ℕ → ℕ → Type 0
AlignsUp addr k =
    (up : ℕ) × (align_to addr (2 ^ k) ≡ ok up)
    × (addr ≤ up)
    × (up < addr + 2 ^ k)
    × (up % 2 ^ k ≡ 0)
    × ((m : ℕ) → addr ≤ m * 2 ^ k → up ≤ m * 2 ^ k)

-- For a power of two below the word and an address that far from its end, `align_to` returns the
-- least multiple of the power that is not below the address.
pub align_to-AlignsUp : (addr k : ℕ) → k < 64 → addr + 2 ^ k < word → AlignsUp addr k
align_to-AlignsUp addr k small fits =
    let pos : 0 < 2 ^ k = one-le-pow k 2 (omega arith) in
    let laws = λ (m : ℕ). round_up_lem addr (2 ^ k) m pos in
    (
      round_up addr (2 ^ k),
      align_to-round_up addr k small fits,
      (laws 0).0,
      (laws 0).1,
      (laws 0).2,
      λ m. (laws m).3,
    )
