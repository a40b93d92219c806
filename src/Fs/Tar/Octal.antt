-- ===== src/Fs/Tar/Octal.antt =====
-- The size field of a header: octal digits, and a terminator.
use native.Mathlib.Nat.{pow-suc, pow-le-pow_right}
use kernel_r.Prelude.{
  ℕ, zero, suc, ◌+◌, ◌-◌, ◌*◌, ◌/◌, ◌%◌, ◌^◌, ◌≤◌, ◌<◌, ◌≡◌, refl, ◌∙◌, ap, true, ◌&&◌, List, [],
  ◌∷◌, ◌++◌, ok, add_u64_lem, mul_u64_lem, word, ltb, leb, arith,
}
use kernel_r.Fs.Tar.{octal_loop, parse_octal}

-- A number as `k` octal digits in ASCII, the highest first.
unfoldable pub octal_field : ℕ → ℕ → List ℕ
octal_field zero n = []
octal_field (suc k) n = octal_field k (n / 8) ++ ((48 + n % 8) ∷ [])

pub append_assoc : (xs ys zs : List ℕ) → (xs ++ ys) ++ zs ≡ xs ++ (ys ++ zs)
append_assoc [] ys zs = refl
append_assoc (x ∷ xs) ys zs = ap (λ t. x ∷ t) (append_assoc xs ys zs)

octal_digit :
    (rest : List ℕ) (result d : ℕ)
    → d < 8
    → result * 8 + d < word
    → octal_loop ((48 + d) ∷ rest) result ≡ octal_loop rest (result * 8 + d)
unfolding octal_loop
octal_digit rest result d small fits = rw (
  (let is_digit : (leb 48 (48 + d) && leb (48 + d) 55) ≡ true = ground arith in is_digit),
  mul_u64_lem result 8 (omega (arith, fits)),
  (let e : 48 + d - 48 ≡ d = omega arith in e),
  add_u64_lem (result * 8) d fits,
)

octal_digits :
    (k n : ℕ) (rest : List ℕ)
    → n < 8 ^ k
    → n < word
    → octal_loop (octal_field k n ++ rest) 0 ≡ octal_loop rest n
unfolding octal_field
octal_digits zero n rest small fits = ap (octal_loop rest) {x = 0} (omega arith)
octal_digits (suc k) n rest small fits =
    ap (λ t. octal_loop t 0) (append_assoc (octal_field k (n / 8)) ((48 + n % 8) ∷ []) rest)
    ∙ octal_digits k (n / 8) ((48 + n % 8) ∷ rest) (omega (arith, pow-suc 8 k)) (omega arith)
    ∙ octal_digit rest (n / 8) (n % 8) (omega arith) (omega arith)
    ∙ ap (octal_loop rest) (omega arith)

-- After the digits the loop ends at the terminator, and if all digits were zero it reads on.
octal_end : (n : ℕ) (rest : List ℕ) → 0 < n → octal_loop (0 ∷ rest) n ≡ ok n
unfolding octal_loop
octal_end n rest pos = rw (let e : ltb 0 n ≡ true = ground arith in e)

-- `parse_octal` reads back the size that a header of the archive has: up to 21 octal digits, with
-- leading zeros, and a zero byte, if the size is not 0, whatever follows.
pub parse_octal-octal_field :
    (k n : ℕ) (rest : List ℕ)
    → k ≤ 21
    → 0 < n
    → n < 8 ^ k
    → parse_octal (octal_field k n ++ (0 ∷ rest)) ≡ ok n
unfolding parse_octal
parse_octal-octal_field k n rest short pos small =
    let bound : 8 ^ k ≤ 8 ^ 21 = pow-le-pow_right {n = 8} (omega arith) {j = 21} short in
    octal_digits k n (0 ∷ rest) small (omega (arith, bound)) ∙ octal_end n rest pos

-- A field of twelve bytes, of any size that has eleven digits.
pub size_field : (n : ℕ) → n < 8 ^ 11 → parse_octal (octal_field 11 n ++ (0 ∷ [])) ≡ ok n
unfolding parse_octal octal_loop
size_field n small = octal_digits 11 n (0 ∷ []) small (omega arith) ∙ ground arith
