-- ===== src/Prelude/Xor.antt =====
-- `^` by a power of two, and `&` with the complement of one: the flip and the clearing of a bit.
use Prim.Native.Nat.{
  ℕ, zero, suc, ◌+◌, ◌-◌, ◌*◌, ◌/◌, ◌%◌, ◌^◌, ◌≤◌, ◌<◌, bit_and, bit_xor, bit_xor-bitwise, differ,
}
use mathlib.Core.Path.{◌≡◌, refl, sym, ap, ◌∙◌}
use native.Mathlib.Nat.{
  pow-suc, pow-succ', one-le-pow, div-div-eq-div-mul, pow-le-pow_right, le_trans, mul-le-mul_right,
  mod-le, div-mul-le_self,
}
use native.Mathlib.Omega.{arith}
use kernel_r.Prelude.Tests.{◌==◌, if◌then◌else◌}
use kernel_r.Prelude.Digits.{lowest_digit}
use kernel_r.Prelude.Bits.{bit_and_step, bit_and_all}

with_zero : (y : ℕ) → bit_xor 0 y ≡ y
with_zero y = bit_xor-bitwise 0 y

bit_xor_step : (x y : ℕ) → bit_xor x y ≡ bit_xor (x / 2) (y / 2) * 2 + differ (x % 2) (y % 2)
bit_xor_step zero y = omega (arith, with_zero (y / 2), with_zero y)
bit_xor_step (suc x) y =
    let lowest = lowest_digit (λ t. t) differ x y in
    bit_xor-bitwise (suc x) y
    ∙ lowest
    ∙ ap (λ (t : ℕ). t * 2 + differ (suc x % 2) (y % 2)) (sym (bit_xor-bitwise (suc x / 2) (y / 2)))

differ_bit : (d : ℕ) → d < 2 → (differ d 0 ≡ d) × (differ d 1 ≡ 1 - d)
differ_bit zero h = (refl, refl)
differ_bit (suc zero) h = (refl, refl)
differ_bit (suc (suc d)) h = absurd (omega arith)

kept_below : (bound x : ℕ) → x ≤ bound → bit_xor x 0 ≡ x
kept_below bound zero le = with_zero 0
kept_below zero (suc x) le = elim le [ ]
kept_below (suc bound) (suc x) le =
    let upper = kept_below bound (suc x / 2) (omega arith) in
    let lowest = differ_bit (suc x % 2) (omega arith) in
    omega (arith, upper, lowest, bit_xor_step (suc x) 0)

-- The other block of a pair: the number with its lowest bit flipped.
abbrev pub sibling : ℕ → ℕ
sibling m = if m % 2 == 0 then m + 1 else m - 1

bit_xor-one : (m : ℕ) → bit_xor m 1 ≡ sibling m
bit_xor-one m =
    ground (arith, bit_xor_step m 1, kept_below (m / 2) (m / 2) (omega arith), differ_bit (m % 2))

-- `a ^ 2 ^ k` for a multiple `a` of `2 ^ k`.
pub bit_xor-pow : (k m : ℕ) → bit_xor (m * 2 ^ k) (2 ^ k) ≡ sibling m * 2 ^ k
bit_xor-pow zero m =
    ap (λ (t : ℕ). bit_xor t 1) {x = m * 1} {y = m} (omega arith) ∙ bit_xor-one m ∙ omega arith
bit_xor-pow (suc k) m = omega (
  arith,
  bit_xor_step (m * 2 ^ suc k) (2 ^ suc k),
  halves,
  bit_xor-pow k m,
  ap (λ (t : ℕ). m * t) (pow-suc 2 k),
  ap (λ (t : ℕ). sibling m * t) (pow-suc 2 k),
  pow-suc 2 k,
  even,
)
  where
    halves : bit_xor (m * 2 ^ suc k / 2) (2 ^ suc k / 2) ≡ bit_xor (m * 2 ^ k) (2 ^ k)
    halves =
        ap (λ (t : ℕ). bit_xor t (2 ^ suc k / 2)) {x = m * 2 ^ suc k / 2} {y = m * 2 ^ k}
          (omega (arith, ap (λ (t : ℕ). m * t) (pow-suc 2 k)))
        ∙ ap (bit_xor (m * 2 ^ k)) {x = 2 ^ suc k / 2} {y = 2 ^ k} (omega (arith, pow-suc 2 k))

    even : differ (m * 2 ^ suc k % 2) (2 ^ suc k % 2) ≡ 0
    even =
        ap (λ (t : ℕ). differ t (2 ^ suc k % 2)) {x = m * 2 ^ suc k % 2} {y = 0}
          (omega (arith, ap (λ (t : ℕ). m * t) (pow-suc 2 k)))
        ∙ (let e : 2 ^ suc k % 2 ≡ 0 = omega (arith, pow-suc 2 k) in e)

-- `a & !2 ^ k` in a word of more than `k` bits.
pub bit_and_drop :
    (k w a : ℕ) → k < w → a < 2 ^ w → bit_and a (2 ^ w - 1 - 2 ^ k) ≡ a - a / 2 ^ k % 2 * 2 ^ k
bit_and_drop k zero a lt h = absurd (omega arith)
bit_and_drop zero (suc w) a lt h =
    omega (arith, pow-suc 2 w, one-le-pow w 2, bit_and_step a (2 ^ suc w - 1 - 1), whole)
  where
    whole : bit_and (a / 2) ((2 ^ suc w - 1 - 1) / 2) ≡ a / 2
    whole =
        ap (bit_and (a / 2)) {y = 2 ^ w - 1} (omega (arith, pow-suc 2 w, one-le-pow w 2))
        ∙ bit_and_all w (a / 2) (omega (arith, pow-suc 2 w))
bit_and_drop (suc k) (suc w) a lt h = omega (
  arith,
  bit_and_step a (2 ^ suc w - 1 - 2 ^ suc k),
  mask,
  bit_and_drop k w (a / 2) (omega arith) (omega (arith, pow-suc 2 w)),
  div-div-eq-div-mul a 2 (2 ^ k),
  pow-suc 2 k,
  pow-suc 2 w,
  one-le-pow k 2,
  room,
  bits,
  below,
)
  where
    room : 2 ^ suc k ≤ 2 ^ w
    room = pow-le-pow_right {n = 2} (omega arith) {j = w} (omega arith)

    mask : bit_and (a / 2) ((2 ^ suc w - 1 - 2 ^ suc k) / 2) ≡ bit_and (a / 2) (2 ^ w - 1 - 2 ^ k)
    mask =
        ap (bit_and (a / 2)) {y = 2 ^ w - 1 - 2 ^ k}
          (omega (arith, room, pow-suc 2 k, pow-suc 2 w, one-le-pow k 2))

    bits : a / 2 ^ suc k % 2 * 2 ^ suc k ≡ a / 2 / 2 ^ k % 2 * (2 * 2 ^ k)
    bits = rw (pow-succ' 2 k, ← div-div-eq-div-mul a 2 (2 ^ k))

    below : a / 2 / 2 ^ k % 2 * 2 ^ k ≤ a / 2
    below =
        le_trans (mul-le-mul_right (2 ^ k) (mod-le (a / 2 / 2 ^ k) 2))
          (div-mul-le_self (a / 2) (2 ^ k))
