-- ===== src/Prelude/Digits.antt =====
-- The native operations on bits are one recursion over binary digits, on fuel. Any fuel from the
-- first operand on gives the same, whatever is done with the digits.
use Prim.Native.Nat.{ℕ, zero, suc, ◌+◌, ◌*◌, ◌/◌, ◌%◌, ◌≤◌, digits}
use mathlib.Core.Path.{◌≡◌, refl, sym, ap, ◌∙◌}
use native.Mathlib.Omega.{arith}

module _ (rest : ℕ → ℕ) (digit : ℕ → ℕ → ℕ) where
  -- Fuel `fuel` against fuel `x`, both below `bound`.
  least_fuel :
      (bound fuel x y : ℕ)
      → fuel ≤ bound
      → x ≤ fuel
      → digits rest digit fuel x y ≡ digits rest digit x x y
  least_fuel bound zero zero y small le = refl
  least_fuel bound zero (suc x) y small le = elim le [ ]
  least_fuel bound (suc fuel) zero y small le = refl
  least_fuel zero (suc fuel) (suc x) y small le = elim small [ ]
  least_fuel (suc bound) (suc fuel) (suc x) y small le =
      let half = least_fuel bound fuel (suc x / 2) (y / 2) (omega arith) (omega arith) in
      let half' = least_fuel bound x (suc x / 2) (y / 2) (omega arith) (omega arith) in
      ap (λ (t : ℕ). t * 2 + digit (suc x % 2) (y % 2)) (half ∙ sym half')

  pub lowest_digit :
      (x y : ℕ)
      → digits rest digit (suc x) (suc x) y
        ≡ digits rest digit (suc x / 2) (suc x / 2) (y / 2) * 2 + digit (suc x % 2) (y % 2)
  lowest_digit x y =
      ap (λ (t : ℕ). t * 2 + digit (suc x % 2) (y % 2))
        (least_fuel x x (suc x / 2) (y / 2) (omega arith) (omega arith))
