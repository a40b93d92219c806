-- ===== src/Process/Files/Naming.antt =====
-- The name that `open` reads from the memory of the user, and the file of that name.
use native.Mathlib.Decide.{ℕ_discrete}
use kernel_r.Prelude.{
  ℕ, zero, suc, ◌+◌, ◌≤◌, ◌<◌, ◌≡◌, ◌≢◌, refl, ◌∙◌, ap, inl, inr, ◌⊎◌, Option, none, some, List,
  Bool, true, false, Bool-cases, ◌==◌, get_elem?, length, arith, if◌then◌else◌,
}
use kernel_r.Fs.Tar.{TarVnode, lookup}
use kernel_r.Fs.Tar.Names.{Found, lookup-Found}
use kernel_r.Process.Files.{Kernel, name_length, bytes_from, find_in, named}

-- The bytes at `ptr` up to the first zero byte, which is one of the first 256 but not the first.
pub record IsName (mem : ℕ → ℕ) (ptr : ℕ) (name : List ℕ) : Type 0 where
  pub some_byte : 0 < length name
  pub short : length name < 256
  pub bytes : (i : ℕ) → i < length name → get_elem? name i ≡ some (mem (ptr + i))
  pub before : (i : ℕ) → i < length name → mem (ptr + i) ≢ 0
  pub ends : mem (ptr + length name) ≡ 0

-- What a name leads to: a file of the root with that name, the first of them; or none, because
-- there is no name, it is no text, there is no root, or no file of the root has it.
pub data Named (utf8 : List ℕ → Bool) (mem : ℕ → ℕ) (root : Option (List TarVnode)) (ptr : ℕ)
    : Option TarVnode → Type 0 where
  empty : mem ptr ≡ 0 → Named utf8 mem root ptr none
  endless : ((i : ℕ) → i < 256 → mem (ptr + i) ≢ 0) → Named utf8 mem root ptr none
  not_text :
      (name : List ℕ) → IsName mem ptr name → utf8 name ≡ false → Named utf8 mem root ptr none
  no_root : root ≡ none → Named utf8 mem root ptr none
  looked_up :
      (name : List ℕ) (files : List TarVnode) (found : Option TarVnode)
      → IsName mem ptr name
      → utf8 name ≡ true
      → root ≡ some files
      → Found name files found
      → Named utf8 mem root ptr found

-- The first zero byte from the place `i` on, or none in `rounds` bytes.
FirstZero : (ℕ → ℕ) → (ptr i rounds len : ℕ) → Type 0
FirstZero mem ptr i rounds len =
    ((len ≡ 0) × ((j : ℕ) → i ≤ j → j < i + rounds → mem (ptr + j) ≢ 0))
    ⊎ ((i ≤ len)
        × (len < i + rounds)
        × (mem (ptr + len) ≡ 0)
        × ((j : ℕ) → i ≤ j → j < len → mem (ptr + j) ≢ 0))

from_here :
    (mem : ℕ → ℕ) (ptr i k : ℕ)
    → mem (ptr + i) ≢ 0
    → ((j : ℕ) → i + 1 ≤ j → j < k → mem (ptr + j) ≢ 0)
    → (j : ℕ) → i ≤ j
    → j < k
    → mem (ptr + j) ≢ 0
from_here mem ptr i k here later j le lt z = elim (ℕ_discrete i j) [
  | yes same ↦ here (ap (λ n. mem (ptr + n)) same ∙ z)
  | no ne ↦ later j (omega (arith, le, ne)) lt z
]

name_length-FirstZero :
    (mem : ℕ → ℕ) (ptr i rounds : ℕ) → FirstZero mem ptr i rounds (name_length mem ptr i rounds)
unfolding FirstZero
name_length-FirstZero mem ptr i zero = inl (refl, λ j le lt z. omega (arith, le, lt))
name_length-FirstZero mem ptr i (suc rounds) = elim (Bool-cases (mem (ptr + i) == 0)) [
  | inl here ↦
      rw here
        (inr (omega arith, omega arith, ground (arith, here), λ j le lt z. omega (arith, le, lt)))
  | inr other ↦
      (let nonzero : mem (ptr + i) ≢ 0 = λ z. ground (arith, other, z) in
        rw other (elim (name_length-FirstZero mem ptr (i + 1) rounds) [
          | inl (none_left, all) ↦ inl (
            none_left,
            from_here mem ptr i (i + suc rounds) nonzero (λ j le lt. all j le (omega (arith, lt))),
          )
          | inr (le, lt, ends, before) ↦ inr (
            omega (arith, le),
            omega (arith, lt),
            ends,
            from_here mem ptr i (name_length mem ptr (i + 1) rounds) nonzero before,
          )
        ]))
]

length-bytes_from : (mem : ℕ → ℕ) (ptr n : ℕ) → length (bytes_from mem ptr n) ≡ n
length-bytes_from mem ptr zero = refl
length-bytes_from mem ptr (suc n) = omega (arith, length-bytes_from mem (ptr + 1) n)

bytes_from-at :
    (mem : ℕ → ℕ) (ptr n i : ℕ) → i < n → get_elem? (bytes_from mem ptr n) i ≡ some (mem (ptr + i))
bytes_from-at mem ptr zero i lt = absurd (omega (arith, lt))
bytes_from-at mem ptr (suc n) zero lt = ap (λ a. some (mem a)) {x = ptr} (omega arith)
bytes_from-at mem ptr (suc n) (suc i) lt =
    bytes_from-at mem (ptr + 1) n i (omega (arith, lt))
    ∙ ap (λ a. some (mem a)) {x = ptr + 1 + i} (omega arith)

bytes_from-IsName :
    (mem : ℕ → ℕ) (ptr len : ℕ)
    → 0 < len
    → len < 256
    → mem (ptr + len) ≡ 0
    → ((j : ℕ) → 0 ≤ j → j < len → mem (ptr + j) ≢ 0)
    → IsName mem ptr (bytes_from mem ptr len)
bytes_from-IsName mem ptr len pos short ends before =
    let is_len = length-bytes_from mem ptr len in
    record {
      some_byte = omega (arith, pos, is_len);
      short = omega (arith, short, is_len);
      bytes = λ i lt. bytes_from-at mem ptr len i (omega (arith, lt, is_len));
      before = λ i lt. before i (omega arith) (omega (arith, lt, is_len));
      ends = ap (λ n. mem (ptr + n)) is_len ∙ ends;
    }

find_in-Named :
    (utf8 : List ℕ → Bool) (mem : ℕ → ℕ) (root : Option (List TarVnode)) (ptr : ℕ) (name : List ℕ)
    → IsName mem ptr name
    → Named utf8 mem root ptr (if utf8 name then find_in root name else none)
find_in-Named utf8 mem root ptr name is_name = elim (Bool-cases (utf8 name)) [
  | inr bytes ↦ rw bytes (not_text name is_name bytes)
  | inl text ↦ rw text (by_root utf8 mem root ptr name is_name text)
]
  where
    by_root :
        (utf8 : List ℕ → Bool) (mem : ℕ → ℕ) (root : Option (List TarVnode)) (ptr : ℕ)
        (name : List ℕ)
        → IsName mem ptr name
        → utf8 name ≡ true
        → Named utf8 mem root ptr (find_in root name)
    by_root utf8 mem none ptr name is_name text = no_root refl
    by_root utf8 mem (some files) ptr name is_name text =
        looked_up name files (lookup files name) is_name text refl (lookup-Found files name)

-- The name that `open` reads is the bytes before the first zero byte, and the file is the first of
-- the root with that name.
pub named-Named :
    {Q : Type 0} (utf8 : List ℕ → Bool) (mem : ℕ → ℕ) (k : Kernel Q) (ptr : ℕ)
    → Named utf8 mem k.root ptr (named utf8 mem k ptr)
unfolding named FirstZero
named-Named utf8 mem k ptr =
    by_length (name_length mem ptr 0 256) (name_length-FirstZero mem ptr 0 256)
  where
    by_length :
        (len : ℕ)
        → FirstZero mem ptr 0 256 len
        → Named utf8 mem k.root ptr (
            if len == 0
            then none
            else (if utf8 (bytes_from mem ptr len)
                then find_in k.root (bytes_from mem ptr len)
                else none))
    by_length zero (inl (_, all)) = endless (λ j lt. all j (omega arith) lt)
    by_length zero (inr (_, _, ends, _)) = empty (ap mem {x = ptr} (omega arith) ∙ ends)
    by_length (suc len) (inl (z, _)) = absurd (omega (arith, z))
    by_length (suc len) (inr (_, lt, ends, before)) =
        let some_bytes : (suc len == 0) ≡ false = ground arith in
        rw some_bytes (
          find_in-Named utf8 mem k.root ptr (bytes_from mem ptr (suc len))
            (bytes_from-IsName mem ptr (suc len) (omega arith) lt ends before))
