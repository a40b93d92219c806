-- ===== src/Mm/Buddy/Bits.antt =====
-- The bitmap: toggling one bit of a byte, and of the map.
use Prim.Native.Nat.{bit_xor}
use native.Mathlib.Nat.{zero-div}
use kernel_r.Prelude.{
  ℕ, zero, suc, ◌/◌, ◌%◌, ◌^◌, ◌<◌, bit_and, Bool, true, false, not, ◌&&◌, ◌≡◌, refl, sym, arith,
  ◌==◌, ltb, lt→ltb, if◌then◌else◌, store, ok,
}
use kernel_r.Mm.Buddy.{BuddyAllocator, bit_place, toggle_bit}

-- Bit `k` of a byte.
pub test : ℕ → ℕ → Bool
test byte k = byte / 2 ^ k % 2 == 1

abbrev bool_eq : Bool → Bool → Bool
bool_eq true b = b
bool_eq false b = not b

-- A test that is passed at each number below a bound, counted down.
every : ℕ → (ℕ → Bool) → Bool
every zero passes = true
every (suc bound) passes = passes bound && every bound passes

every_sound :
    (bound : ℕ) (passes : ℕ → Bool) (x : ℕ)
    → every bound passes ≡ true
    → x < bound
    → passes x ≡ true
unfolding every
every_sound zero passes x all lt = elim lt [ ]
every_sound (suc bound) passes x all lt = ground (arith, every_sound bound passes x)

bool_eq_lem : (a b : Bool) → bool_eq a b ≡ true → a ≡ b
bool_eq_lem true true h = refl
bool_eq_lem true false h = sym h
bool_eq_lem false true h = cc
bool_eq_lem false false h = refl

-- What toggling bit `o` of the byte `x` does to its bits, and what the code reads back.
toggled : ℕ → ℕ → ℕ → Bool
toggled x o p = bool_eq (test (bit_xor x (2 ^ o)) p) (if o == p then not (test x p) else test x p)

read_back : ℕ → ℕ → Bool
read_back x o =
    ltb (bit_xor x (2 ^ o)) 256 && bool_eq (bit_and (bit_xor x (2 ^ o)) (2 ^ o) == 0) (test x o)

-- Bit `i` of the map.
unfoldable pub bit : (ℕ → ℕ) → ℕ → Bool
unfolding test
bit bitmap i = test (bitmap (i / 8)) (i % 8)

unfoldable pub flip : (ℕ → ℕ) → ℕ → ℕ → ℕ
flip bitmap i = store bitmap (i / 8) (bit_xor (bitmap (i / 8)) (2 ^ (i % 8)))

abbrev pub IsBytes : (ℕ → ℕ) → Type 0
IsBytes bitmap = (k : ℕ) → bitmap k < 256

toggled_table : every 256 (λ x. every 8 (λ o. every 8 (λ p. toggled x o p))) ≡ true
unfolding every toggled test
toggled_table = refl

read_back_table : every 256 (λ x. every 8 (λ o. read_back x o)) ≡ true
unfolding every read_back test
read_back_table = refl

test-xor :
    (x o p : ℕ)
    → x < 256
    → o < 8
    → p < 8
    → test (bit_xor x (2 ^ o)) p ≡ (if o == p then not (test x p) else test x p)
unfolding toggled
test-xor x o p hx ho hp = bool_eq_lem (test (bit_xor x (2 ^ o)) p) _ (
    every_sound 8 (toggled x o) p
      (every_sound 8 (λ o. every 8 (toggled x o)) o
        (every_sound 256 (λ x. every 8 (λ o. every 8 (toggled x o))) x toggled_table hx) ho)
      hp)

read_back_lem :
    (x o : ℕ)
    → x < 256
    → o < 8
    → (bit_xor x (2 ^ o) < 256) × ((bit_and (bit_xor x (2 ^ o)) (2 ^ o) == 0) ≡ test x o)
unfolding read_back
read_back_lem x o hx ho =
    ground (arith, entry, bool_eq_lem (bit_and (bit_xor x (2 ^ o)) (2 ^ o) == 0) (test x o))
  where
    entry : read_back x o ≡ true
    entry =
        every_sound 8 (read_back x) o
          (every_sound 256 (λ x. every 8 (read_back x)) x read_back_table hx) ho

-- Flipping a bit changes that bit and no other.
pub bit-flip :
    (m : ℕ → ℕ) (i j : ℕ)
    → IsBytes m
    → bit (flip m i) j ≡ (if i == j then not (bit m j) else bit m j)
unfolding bit flip
bit-flip m i j h = ground (arith, test-xor (m (i / 8)) (i % 8) (j % 8) (h (i / 8)))

pub flip-IsBytes : (m : ℕ → ℕ) (i : ℕ) → IsBytes m → IsBytes (flip m i)
unfolding flip
flip-IsBytes m i h k = ground (arith, h k, read_back_lem (m (i / 8)) (i % 8) (h (i / 8)))

-- `toggle_bit` flips the bit at its place, and says whether the bit was set before, that is
-- whether it is clear now.
pub toggle_bit-flip :
    (b : BuddyAllocator) (order addr i : ℕ)
    → IsBytes b.bitmap
    → bit_place b order addr ≡ ok i
    → i / 8 < b.bitmap_size
    → toggle_bit b order addr ≡ ok (bit b.bitmap i, record b { bitmap = flip b.bitmap i })
unfolding toggle_bit bit flip
toggle_bit-flip b order addr i h e lt = rw (
  e,
  lt→ltb (i / 8) b.bitmap_size lt,
  (read_back_lem (b.bitmap (i / 8)) (i % 8) (h (i / 8)) (omega arith)).1,
)

pub bit-zeros : (bitmap : ℕ → ℕ) → ((k : ℕ) → bitmap k ≡ 0) → (i : ℕ) → bit bitmap i ≡ false
unfolding bit test
bit-zeros bitmap zeros i = rw (zeros (i / 8), zero-div (2 ^ (i % 8))) refl
