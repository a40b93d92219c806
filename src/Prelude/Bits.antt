-- ===== src/Prelude/Bits.antt =====
-- `&` and `|` against masks, as arithmetic, at every width: one law for the lowest digit, from the
-- digit recursion that the native operations stand for, and inductions on the width.
use Prim.Native.Nat.{
  ℕ, zero, suc, ◌+◌, ◌-◌, ◌*◌, ◌/◌, ◌%◌, ◌^◌, ◌≤◌, ◌<◌, min, bit_and, bit_and-bitwise,
}
use mathlib.Core.Path.{◌≡◌, sym, ap, ◌∙◌}
use native.Mathlib.Nat.{pow-suc, pow-succ', one-le-pow, div-div-eq-div-mul, add-zero, add-suc}
use native.Mathlib.Omega.{arith}
use kernel_r.Prelude.Digits.{lowest_digit}

from_zero : (mask : ℕ) → bit_and 0 mask ≡ 0
from_zero mask = bit_and-bitwise 0 mask

pub bit_and_step : (x y : ℕ) → bit_and x y ≡ bit_and (x / 2) (y / 2) * 2 + min (x % 2) (y % 2)
bit_and_step zero y = omega (arith, from_zero (y / 2), from_zero y)
bit_and_step (suc x) y =
    let lowest = lowest_digit (λ t. zero) min x y in
    bit_and-bitwise (suc x) y
    ∙ lowest
    ∙ ap (λ (t : ℕ). t * 2 + min (suc x % 2) (y % 2)) (sym (bit_and-bitwise (suc x / 2) (y / 2)))

-- No bit of a number is in the empty mask.
cleared_below : (bound x : ℕ) → x ≤ bound → bit_and x 0 ≡ 0
cleared_below bound zero le = from_zero 0
cleared_below zero (suc x) le = elim le [ ]
cleared_below (suc bound) (suc x) le =
    let upper = cleared_below bound (suc x / 2) (omega arith) in
    omega (arith, upper, bit_and_step (suc x) 0)

pub bit_and-zero : (x : ℕ) → bit_and x 0 ≡ 0
bit_and-zero x = cleared_below x x (omega arith)

-- A mask of `w` ones keeps a number of `w` bits.
pub bit_and_all : (w a : ℕ) → a < 2 ^ w → bit_and a (2 ^ w - 1) ≡ a
bit_and_all zero a h = omega (arith, bit_and-zero a)
bit_and_all (suc w) a h = ground (
  arith,
  pow-suc 2 w,
  one-le-pow w 2,
  bit_and_step a (2 ^ suc w - 1),
  bit_and_all w (a / 2) (omega (arith, pow-suc 2 w)),
)

-- `a & !(2 ^ k - 1)` over `w` more bits clears the low `k` bits.
pub bit_and_high :
    (k w a : ℕ) → a < 2 ^ w * 2 ^ k → bit_and a (2 ^ w * 2 ^ k - 2 ^ k) ≡ a / 2 ^ k * 2 ^ k
bit_and_high zero w a h = ground (arith, bit_and_all w a)
bit_and_high (suc k) w a h = ground (
  arith,
  twice,
  pow-suc 2 k,
  one-le-pow k 2,
  bit_and_step a (2 ^ w * 2 ^ suc k - 2 ^ suc k),
  bit_and_high k w (a / 2) (omega (arith, twice)),
  halves,
  ap (λ (t : ℕ). a / t * t) (pow-succ' 2 k),
)
  where
    twice : 2 ^ w * 2 ^ suc k ≡ 2 * (2 ^ w * 2 ^ k)
    twice = omega (arith, ap (λ (t : ℕ). 2 ^ w * t) (pow-suc 2 k))

    halves : a / (2 * 2 ^ k) * (2 * 2 ^ k) ≡ 2 * (a / 2 / 2 ^ k * 2 ^ k)
    halves = rw (div-div-eq-div-mul a 2 (2 ^ k)) (omega arith)

pub pow-add : (w k : ℕ) → 2 ^ w * 2 ^ k ≡ 2 ^ (w + k)
pow-add w zero = ground (arith, add-zero w)
pow-add w (suc k) = ground (
  arith,
  pow-suc 2 k,
  pow-suc 2 (w + k),
  pow-add w k,
  ap (λ (t : ℕ). 2 ^ w * t) (pow-suc 2 k),
  ap (λ (t : ℕ). 2 ^ t) (add-suc w k),
)

-- `a & !(2 ^ k - 1)` in a word of 64 bits.
pub bit_and_clear : (k a : ℕ) → k ≤ 64 → a < 2 ^ 64 → bit_and a (2 ^ 64 - 2 ^ k) ≡ a / 2 ^ k * 2 ^ k
bit_and_clear k a h small = rw (← split) (bit_and_high k (64 - k) a (rw split small))
  where
    split : 2 ^ (64 - k) * 2 ^ k ≡ 2 ^ 64
    split = pow-add (64 - k) k ∙ ap (λ (t : ℕ). 2 ^ t) {y = 64} (omega arith)
