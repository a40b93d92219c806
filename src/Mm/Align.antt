-- ===== src/Mm/Align.antt =====
-- `align_to` of src/mm/allocator.rs, and the rounding to pages that the other modules write out.
pub mod Laws
mod Tests
use kernel_r.Prelude.{ℕ, ◌-◌, bit_and, Run, ok, ◌>>=◌, word, add_u64, sub_u64}

-- `!x` on `usize`.
abbrev pub complement : ℕ → ℕ
complement x = word - 1 - x

-- (addr + align - 1) & !(align - 1)
unfoldable pub align_to : ℕ → ℕ → Run ℕ
align_to addr align = do
  past ← add_u64 addr align
  last ← sub_u64 past 1
  low ← sub_u64 align 1
  ok (bit_and last (complement low))
