-- ===== src/Fs/Tar/Archive.antt =====
-- `parse_tarball` on an archive that is laid out in memory.
use kernel_r.Prelude.{
  ℕ, zero, suc, ◌+◌, ◌^◌, ◌<◌, ◌≡◌, ◌≢◌, refl, sym, ◌∙◌, ap, true, false, some, List, [], ◌∷◌, ◌++◌,
  length, take, drop, ok, add_u64_lem, word, ◌==◌, arith,
}
use kernel_r.Mm.Align.Laws.{round_up, align_to-round_up, round_up_lem}
use kernel_r.Fs.Tar.{
  TarVnode, bytes_at, first_zero, parse_octal, parse_header, parse_loop, parse_tarball,
}
use kernel_r.Fs.Tar.Octal.{octal_field, size_field}
use kernel_r.Fs.Tar.Read.{drop-bytes_at, take-bytes_at}

abbrev pub AllNonzero : List ℕ → Type 0
AllNonzero [] = Unit {0}
AllNonzero (b ∷ bytes) = (b ≢ 0) × AllNonzero bytes

-- A header at `addr`: a name of 1 to 99 bytes and a zero, and the size as eleven octal digits and
-- a zero. The data follow, padded to a multiple of 512, and all of it lies in the address space.
pub record IsHeader (mem : ℕ → ℕ) (addr : ℕ) (v : TarVnode) : Type 0 where
  pub name_len : ℕ
  pub name_pos : 0 < name_len
  pub name_short : name_len < 100
  pub name_at : bytes_at mem addr name_len ≡ v.name
  pub name_bytes : AllNonzero (bytes_at mem addr name_len)
  pub name_end : mem (addr + name_len) ≡ 0
  pub size_small : v.size < 8 ^ 11
  pub size_at : bytes_at mem (addr + 124) 12 ≡ octal_field 11 v.size ++ (0 ∷ [])
  pub data_at : v.data_ptr ≡ addr + 512
  pub fits : addr + 512 + v.size + 512 < word

-- The files, one header after the other, up to one that begins with a zero.
pub data Archive (mem : ℕ → ℕ) : ℕ → List TarVnode → Type 0 where
  archive_end : {addr : ℕ} → mem addr ≡ 0 → Archive mem addr []
  archive_file :
      {addr : ℕ} {files : List TarVnode} (v : TarVnode)
      → IsHeader mem addr v
      → Archive mem (addr + (512 + round_up v.size 512)) files
      → Archive mem addr (v ∷ files)

first_zero-bytes_at :
    (mem : ℕ → ℕ) (n k p i : ℕ)
    → k < n
    → AllNonzero (bytes_at mem p k)
    → mem (p + k) ≡ 0
    → first_zero (bytes_at mem p n) i ≡ i + k
unfolding first_zero
first_zero-bytes_at mem zero k p i lt all e = elim lt [ ]
first_zero-bytes_at mem (suc n) zero p i lt all e =
    let here : mem p ≡ 0 = ap mem {x = p} {y = p + 0} (omega arith) ∙ e in rw here (omega arith)
first_zero-bytes_at mem (suc n) (suc k) p i lt (ne, all) e =
    let not_here : (mem p == 0) ≡ false = ground (arith, ne) in
    rw not_here (
      first_zero-bytes_at mem n k (p + 1) (i + 1) (omega arith) all
        (ap mem {x = p + 1 + k} {y = p + suc k} (omega arith) ∙ e)
      ∙ omega arith)

first_byte : (mem : ℕ → ℕ) (p k : ℕ) → 0 < k → AllNonzero (bytes_at mem p k) → (mem p == 0) ≡ false
first_byte mem p zero h all = elim h [ ]
first_byte mem p (suc k) h (ne, all) = ground (arith, ne)

-- A header is read as it was written.
parse_header-IsHeader :
    (mem : ℕ → ℕ) (addr : ℕ) (v : TarVnode)
    → IsHeader mem addr v
    → parse_header mem addr ≡ ok (v, addr + (512 + round_up v.size 512))
unfolding parse_header
parse_header-IsHeader mem addr v h =
    let up = round_up_lem v.size 512 0 (omega arith) in
    let null_idx : first_zero (take 100 (bytes_at mem addr 512)) 0 ≡ h.name_len =
      ap (λ t. first_zero t 0) (take-bytes_at mem addr 512 100 (omega arith))
      ∙ first_zero-bytes_at mem 100 h.name_len addr 0 h.name_short h.name_bytes h.name_end
      ∙ omega arith in
    let size_bytes : take 12 (drop 124 (bytes_at mem addr 512))
        ≡ octal_field 11 v.size ++ (0 ∷ []) =
      ap (take 12) (drop-bytes_at mem addr 512 124 (omega arith))
      ∙ take-bytes_at mem (addr + 124) 388 12 (omega arith)
      ∙ h.size_at in
    let size : parse_octal (take 12 (drop 124 (bytes_at mem addr 512))) ≡ ok v.size =
      ap parse_octal size_bytes ∙ size_field v.size h.size_small in
    let named : take h.name_len (bytes_at mem addr 512) ≡ v.name =
      take-bytes_at mem addr 512 h.name_len (omega (arith, h.name_short)) ∙ h.name_at in
    rw
      (
        size,
        add_u64_lem addr 512 (omega (arith, h.fits)),
        align_to-round_up v.size 9 (omega arith) (omega (arith, h.fits)),
        add_u64_lem 512 (round_up v.size 512) (omega (arith, h.fits, up)),
        add_u64_lem addr (512 + round_up v.size 512) (omega (arith, h.fits, up)),
        null_idx,
        named,
        sym h.data_at,
      )
      refl

append_nil : (xs : List TarVnode) → xs ++ [] ≡ xs
append_nil [] = refl
append_nil (x ∷ xs) = ap (λ t. x ∷ t) (append_nil xs)

append_one :
    (xs : List TarVnode) (y : TarVnode) (ys : List TarVnode)
    → (xs ++ (y ∷ [])) ++ ys ≡ xs ++ (y ∷ ys)
append_one [] y ys = refl
append_one (x ∷ xs) y ys = ap (λ t. x ∷ t) (append_one xs y ys)

parse_loop-Archive :
    (mem : ℕ → ℕ) (fuel addr : ℕ) (files before : List TarVnode)
    → length files < fuel
    → Archive mem addr files
    → parse_loop fuel mem addr before ≡ ok (some (before ++ files))
unfolding parse_loop
parse_loop-Archive mem zero addr files before lt a = elim lt [ ]
parse_loop-Archive mem (suc fuel) addr [] before lt (archive_end e) =
    let last : (mem addr == 0) ≡ true = ground (arith, e) in
    rw last (ap (λ t. ok (some t)) (sym (append_nil before)))
parse_loop-Archive mem (suc fuel) addr (v ∷ files) before lt (archive_file w h rest) =
    let more : (mem addr == 0) ≡ false = first_byte mem addr h.name_len h.name_pos h.name_bytes in
    rw (more, parse_header-IsHeader mem addr v h)
      (parse_loop-Archive mem fuel _ files (before ++ (v ∷ [])) (omega arith) rest
        ∙ ap (λ t. ok (some t)) (append_one before v files))

-- `parse_tarball` on an archive in memory does not panic, ends after one round more than it has
-- files, and returns exactly its files: names, sizes and places of their data.
pub parse_tarball-Archive :
    (mem : ℕ → ℕ) (fuel addr : ℕ) (files : List TarVnode)
    → length files < fuel
    → Archive mem addr files
    → parse_tarball fuel mem addr ≡ ok (some files)
unfolding parse_tarball
parse_tarball-Archive mem fuel addr files lt a = parse_loop-Archive mem fuel addr files [] lt a
