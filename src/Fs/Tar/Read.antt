-- ===== src/Fs/Tar/Read.antt =====
-- Reading a file of the archive.
use kernel_r.Prelude.{
  ℕ, zero, suc, ◌+◌, ◌-◌, ◌≤◌, min, ◌≡◌, refl, ◌∙◌, ap, ap₂, some, List, [], ◌∷◌, ◌++◌, length,
  take, drop, leb, Bool-cases, inl, inr, arith,
}
use kernel_r.Fs.Tar.{TarVnode, bytes_at, read}

-- The bytes of a file.
abbrev pub content : (ℕ → ℕ) → TarVnode → List ℕ
content mem v = bytes_at mem v.data_ptr v.size

pub length-bytes_at : (mem : ℕ → ℕ) (p n : ℕ) → length (bytes_at mem p n) ≡ n
length-bytes_at mem p zero = refl
length-bytes_at mem p (suc n) = ap suc (length-bytes_at mem (p + 1) n)

pub drop-bytes_at :
    (mem : ℕ → ℕ) (p n k : ℕ) → k ≤ n → drop k (bytes_at mem p n) ≡ bytes_at mem (p + k) (n - k)
drop-bytes_at mem p n zero h = ap₂ (λ a b. bytes_at mem a b) (omega arith) (omega arith)
drop-bytes_at mem p zero (suc k) h = absurd (omega arith)
drop-bytes_at mem p (suc n) (suc k) h =
    drop-bytes_at mem (p + 1) n k (omega arith)
    ∙ ap₂ (λ a b. bytes_at mem a b) (omega arith) (omega arith)

pub take-bytes_at : (mem : ℕ → ℕ) (p n k : ℕ) → k ≤ n → take k (bytes_at mem p n) ≡ bytes_at mem p k
take-bytes_at mem p n zero h = refl
take-bytes_at mem p zero (suc k) h = absurd (omega arith)
take-bytes_at mem p (suc n) (suc k) h =
    ap (λ t. mem p ∷ t) (take-bytes_at mem (p + 1) n k (omega arith))

drop_all : (xs : List ℕ) (k : ℕ) → length xs ≤ k → drop k xs ≡ []
drop_all [] zero h = refl
drop_all [] (suc k) h = refl
drop_all (x ∷ xs) zero h = absurd (omega arith)
drop_all (x ∷ xs) (suc k) h = drop_all xs k (omega arith)

-- How many bytes a read returns.
abbrev pub available : TarVnode → ℕ → List ℕ → ℕ
available v offset buf = min (length buf) (v.size - offset)

-- `read` fills the front of the buffer with the file's bytes from the offset on, as many as the
-- buffer and the rest of the file have, returns their number, and leaves the rest of the buffer.
-- At or past the end that number is 0.
pub read-content :
    (mem : ℕ → ℕ) (v : TarVnode) (offset : ℕ) (buf : List ℕ)
    → read mem v offset buf ≡ (
      some (available v offset buf),
      take (available v offset buf) (drop offset (content mem v))
          ++ drop (available v offset buf) buf,
    )
unfolding read
read-content mem v offset buf = elim (Bool-cases (leb v.size offset)) [
  | inl past ↦
      (let none_left : available v offset buf ≡ 0 = ground arith in rw (past, none_left) refl)
  | inr inside ↦
      (let le : offset ≤ v.size = ground arith in
        rw
          (
            inside,
            drop-bytes_at mem v.data_ptr v.size offset le,
            take-bytes_at mem (v.data_ptr + offset) (v.size - offset) (available v offset buf)
                (omega arith),
          )
          refl)
]
