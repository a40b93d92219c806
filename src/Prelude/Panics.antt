-- ===== src/Prelude/Panics.antt =====
-- Code that may panic, and the arithmetic of `usize` and `u64`. The kernel is built by `cargo
-- build` (build.sh), so under the dev profile an overflow of `+`, `-` or `*` panics.
use Prim.Native.Nat.{ℕ, ◌+◌, ◌-◌, ◌*◌, ◌/◌, ◌%◌, ◌^◌, ◌≤◌, ◌<◌}
use mathlib.Core.Path.{◌≡◌}
use mathlib.Core.Bool.{Bool, true, false}
use native.Mathlib.Omega.{arith}
use native.Mathlib.Nat.{one-mul, mod-eq_of_lt, pow-le-pow_right}
use kernel_r.Prelude.Tests.{ltb, leb, ◌==◌, lt→ltb, if◌then◌else◌}

pub data Run {ℓ} (A : Type ℓ) : Type ℓ where
  ok : A → Run A
  panic : Run A

infixl 5 ◌>>=◌ ◌>>◌
abbrev pub ◌>>=◌ {ℓ κ} : {A : Type ℓ} {B : Type κ} → Run A → (A → Run B) → Run B
ok a >>= f = f a
panic >>= f = panic

abbrev pub ◌>>◌ {ℓ κ} : {A : Type ℓ} {B : Type κ} → Run A → Run B → Run B
m >> k = m >>= λ _. k

-- `assert!`-like guards.
abbrev pub require : Bool → Run (Unit {0})
require true = ok tt
require false = panic

-- 2 ^ 64, the number of values of `usize` and `u64`.
abbrev pub word : ℕ
word = 2 ^ 64

unfoldable pub add_u64 : ℕ → ℕ → Run ℕ
add_u64 a b = if ltb (a + b) word then ok (a + b) else panic

unfoldable pub sub_u64 : ℕ → ℕ → Run ℕ
sub_u64 a b = if leb b a then ok (a - b) else panic

unfoldable pub mul_u64 : ℕ → ℕ → Run ℕ
mul_u64 a b = if ltb (a * b) word then ok (a * b) else panic

-- A division by zero panics.
unfoldable pub div_u64 : ℕ → ℕ → Run ℕ
div_u64 a b = if b == 0 then panic else ok (a / b)

-- A shift by the width of the word or more panics. `<<` drops the high bits.
unfoldable pub shr_u64 : ℕ → ℕ → Run ℕ
shr_u64 a k = if ltb k 64 then ok (a / 2 ^ k) else panic

unfoldable pub shl_u64 : ℕ → ℕ → Run ℕ
shl_u64 a k = if ltb k 64 then ok (a * 2 ^ k % word) else panic

pub shr_u64_lem : (a k : ℕ) → k < 64 → shr_u64 a k ≡ ok (a / 2 ^ k)
unfolding shr_u64
shr_u64_lem a k h = ground arith

pub shl_u64_lem : (a k : ℕ) → k < 64 → shl_u64 a k ≡ ok (a * 2 ^ k % word)
unfolding shl_u64
shl_u64_lem a k h = ground arith

pub shl_u64-one : (k : ℕ) → k < 64 → shl_u64 1 k ≡ ok (2 ^ k)
unfolding shl_u64
shl_u64-one k h =
    let small : 2 ^ k ≤ 2 ^ 63 = pow-le-pow_right {n = 2} (omega arith) {j = 63} (omega arith) in
    let fits : 2 ^ k < word = omega arith in
    rw (lt→ltb k 64 h, one-mul, mod-eq_of_lt {n = 2 ^ k} {m = word} fits)

pub add_u64_lem : (a b : ℕ) → a + b < word → add_u64 a b ≡ ok (a + b)
unfolding add_u64
add_u64_lem a b h = ground arith

pub add_u64-panic : (a b : ℕ) → word ≤ a + b → add_u64 a b ≡ panic
unfolding add_u64
add_u64-panic a b h = ground arith

pub sub_u64_lem : (a b : ℕ) → b ≤ a → sub_u64 a b ≡ ok (a - b)
unfolding sub_u64
sub_u64_lem a b h = ground arith

pub mul_u64_lem : (a b : ℕ) → a * b < word → mul_u64 a b ≡ ok (a * b)
unfolding mul_u64
mul_u64_lem a b h = ground arith

pub div_u64_lem : (a b : ℕ) → 0 < b → div_u64 a b ≡ ok (a / b)
unfolding div_u64
div_u64_lem a b h = ground arith
