-- ===== src/Mm/Order.antt =====
-- `size_to_order` of src/mm/buddy.rs, with `next_power_of_two` and `trailing_zeros` of `usize`.
pub mod Laws
mod Tests
use kernel_r.Prelude.{
  ℕ, zero, suc, ◌+◌, ◌-◌, ◌/◌, ◌%◌, ◌^◌, min, Run, ok, panic, ◌>>=◌, add_u64, shr_u64, leb, ◌==◌,
  if◌then◌else◌,
}

-- The least power of two that is not below `n`, from `2 ^ k` on; past the word it overflows.
unfoldable pub power_from : ℕ → ℕ → ℕ → Run ℕ
power_from zero k n = panic
power_from (suc rounds) k n =
    let later = power_from rounds (k + 1) n in if leb n (2 ^ k) then ok (2 ^ k) else later

unfoldable pub next_power_of_two : ℕ → Run ℕ
unfolding power_from
next_power_of_two n = power_from 64 0 n

-- The zeros below the lowest one of the `rounds` bits of `x`.
unfoldable pub trailing_zeros : ℕ → ℕ → ℕ
trailing_zeros zero x = 0
trailing_zeros (suc rounds) x =
    let above = trailing_zeros rounds (x / 2) + 1 in if x % 2 == 1 then 0 else above

unfoldable pub size_to_order : ℕ → Run ℕ
unfolding next_power_of_two trailing_zeros
size_to_order size_in_bytes = do
  sum ← add_u64 size_in_bytes 4095
  pages ← shr_u64 sum 12
  power ← next_power_of_two pages
  ok (min (trailing_zeros 64 power) 10)
