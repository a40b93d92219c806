-- ===== src/Mm/Buddy/Init.antt =====
-- `init`: the allocator that manages no memory yet.
use kernel_r.Prelude.{ℕ, ◌≡◌, refl, false, [], arith}
use kernel_r.Mm.Buddy.{BuddyAllocator, init}
use kernel_r.Mm.Buddy.Bits.{bit-zeros}
use kernel_r.Mm.Buddy.Cover.{Lists, cover-empty}
use kernel_r.Mm.Buddy.Place.{Region}
use kernel_r.Mm.Buddy.Valid.{IsValid}

abbrev pub no_blocks : Lists
no_blocks = λ order. []

-- `init` with a zeroed bitmap of the region's size and the region's base makes a valid allocator
-- that has no free block, whatever was in it before.
pub init-IsValid :
    (r : Region) (b : BuddyAllocator) (bitmap : ℕ → ℕ)
    → ((k : ℕ) → bitmap k ≡ 0)
    → IsValid r (init b bitmap r.bitmap_size r.base) no_blocks
unfolding init
init-IsValid r b bitmap zeros = record {
  bits = λ o i. false;
  repr = record {
    base = refl;
    map_size = refl;
    bytes = λ k. omega (arith, zeros k);
    lists = λ o h. refl;
    once = λ p. omega (arith, cover-empty p);
    stored = λ o i ho hi. bit-zeros bitmap zeros _;
  };
  placed = λ o a h i. absurd (ground arith);
  paired = λ o i ho hi. refl;
}
