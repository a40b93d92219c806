-- ===== src/Fs/Tar/Names.antt =====
-- The directory: files by name and by index.
use mathlib.Core.Option.{some-injective, none-ne-some}
use kernel_r.Prelude.{
  same_bytes, true_ne_false, ℕ, zero, suc, ◌<◌, ◌≡◌, ◌≢◌, refl, sym, ◌∙◌, ap, ap₂, true, Option,
  none, some, List, [], ◌∷◌, get_elem?, Bool-cases, inl, inr, arith,
}
use kernel_r.Fs.Tar.{TarVnode, lookup}

same_bytes_refl : (xs : List ℕ) → same_bytes xs xs ≡ true
same_bytes_refl [] = refl
same_bytes_refl (x ∷ xs) = ground (arith, same_bytes_refl xs)

same_bytes-eq : (xs ys : List ℕ) → same_bytes xs ys ≡ true → xs ≡ ys
same_bytes-eq [] [] e = refl
same_bytes-eq [] (y ∷ ys) e = cc
same_bytes-eq (x ∷ xs) [] e = cc
same_bytes-eq (x ∷ xs) (y ∷ ys) e =
    ap₂ (λ a b. a ∷ b) (ground arith) (same_bytes-eq xs ys (ground arith))

-- What `lookup` answers: the first file of the name, or that there is none.
pub data Found (name : List ℕ) : List TarVnode → Option TarVnode → Type 0 where
  absent :
      {files : List TarVnode}
      → ((i : ℕ) (f : TarVnode) → get_elem? files i ≡ some f → f.name ≢ name)
      → Found name files none
  first :
      {files : List TarVnode} {file : TarVnode} (k : ℕ)
      → get_elem? files k ≡ some file
      → file.name ≡ name
      → ((i : ℕ) (f : TarVnode) → i < k → get_elem? files i ≡ some f → f.name ≢ name)
      → Found name files (some file)

names_behind :
    (name : List ℕ) (f : TarVnode) (files : List TarVnode) (k : ℕ)
    → f.name ≢ name
    → ((i : ℕ) (g : TarVnode) → i < k → get_elem? files i ≡ some g → g.name ≢ name)
    → (i : ℕ) (g : TarVnode) → i < suc k
    → get_elem? (f ∷ files) i ≡ some g
    → g.name ≢ name
names_behind name f files k ne before zero g lt e same =
    ne (ap (λ (t : TarVnode). t.name) (some-injective f g e) ∙ same)
names_behind name f files k ne before (suc i) g lt e same = before i g (omega arith) e same

Found-behind :
    (name : List ℕ) (f : TarVnode) (files : List TarVnode) (o : Option TarVnode)
    → f.name ≢ name
    → Found name files o
    → Found name (f ∷ files) o
Found-behind name f files none ne (absent all) =
    absent (λ i g e. names_behind name f files i ne (λ j h lt e'. all j h e') i g (omega arith) e)
Found-behind name f files (some file) ne (first k at named before) =
    first (suc k) at named (names_behind name f files k ne before)

-- `lookup` returns the first file of the directory that has the name, byte for byte, and `None`
-- just when no file has it.
pub lookup-Found : (files : List TarVnode) (name : List ℕ) → Found name files (lookup files name)
unfolding lookup
lookup-Found [] name = absent (λ i f e. absurd (none-ne-some f e))
lookup-Found (f ∷ files) name = elim (Bool-cases (same_bytes f.name name)) [
  | inl same ↦ rw same (first 0 refl (same_bytes-eq f.name name same) (λ i g lt e. elim lt [ ]))
  | inr differ ↦ rw differ (
      Found-behind name f files (lookup files name)
        (λ e. true_ne_false (sym (ap (λ t. same_bytes t name) e ∙ same_bytes_refl name) ∙ differ))
        (lookup-Found files name))
]
