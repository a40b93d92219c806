-- ===== src/Fs/Tar/Tests.antt =====
-- A directory of two files of the same name.
use kernel_r.Prelude.{
  ◌&&◌, ◌==◌, leb, if◌then◌else◌, ℕ, ◌-◌, ◌≡◌, refl, take, drop, some, List, [], ◌∷◌, ◌++◌, ok,
  arith,
}
use kernel_r.Fs.Tar.Archive.{Archive, archive_end, archive_file, parse_tarball-Archive}
use kernel_r.Fs.Tar.{parse_tarball, TarVnode, parse_octal, read, lookup}
use kernel_r.Fs.Tar.Octal.{octal_field, parse_octal-octal_field}
use kernel_r.Fs.Tar.Read.{content, available, read-content}
use kernel_r.Fs.Tar.Names.{Found, lookup-Found}

abbrev ab : TarVnode
ab = record { name = 97 ∷ 98 ∷ []; size = 3; data_ptr = 1000 }

abbrev ab_again : TarVnode
ab_again = record { name = 97 ∷ 98 ∷ []; size = 5; data_ptr = 2000 }

abbrev files : List TarVnode
files = ab ∷ ab_again ∷ []

abbrev mem : ℕ → ℕ
mem = λ p. p - 990

parse_octal-octal_field_example : parse_octal (octal_field 11 4095 ++ (0 ∷ [])) ≡ ok 4095
parse_octal-octal_field_example =
    parse_octal-octal_field 11 4095 [] (omega arith) (omega arith) (omega arith)

read-content_example : read mem ab 1 (7 ∷ 7 ∷ 7 ∷ []) ≡ (
  some (available ab 1 (7 ∷ 7 ∷ 7 ∷ [])),
  take (available ab 1 (7 ∷ 7 ∷ 7 ∷ [])) (drop 1 (content mem ab))
      ++ drop (available ab 1 (7 ∷ 7 ∷ 7 ∷ [])) (7 ∷ 7 ∷ 7 ∷ []),
)
read-content_example = read-content mem ab 1 (7 ∷ 7 ∷ 7 ∷ [])

lookup-Found_example : Found (97 ∷ 98 ∷ []) files (lookup files (97 ∷ 98 ∷ []))
lookup-Found_example = lookup-Found files (97 ∷ 98 ∷ [])

read_two : read mem ab 1 (7 ∷ 7 ∷ 7 ∷ []) ≡ (some 2, 11 ∷ 12 ∷ 7 ∷ [])
unfolding read
read_two = refl

finds_first : lookup files (97 ∷ 98 ∷ []) ≡ some ab
unfolding lookup
finds_first = refl

-- One file `a` of three bytes, whose header is at 1024.
abbrev archive_mem : ℕ → ℕ
archive_mem p =
    if p == 1024 then 97 else if leb 1148 p && leb p 1157 then 48 else if p == 1158 then 51 else 0

abbrev small : TarVnode
small = record { name = 97 ∷ []; size = 3; data_ptr = 1536 }

small-Archive : Archive archive_mem 1024 (small ∷ [])
unfolding octal_field
small-Archive =
    archive_file small
      (record {
        name_len = 1;
        name_pos = omega arith;
        name_short = omega arith;
        name_at = refl;
        name_bytes = (omega arith, tt);
        name_end = refl;
        size_small = omega arith;
        size_at = refl;
        data_at = refl;
        fits = omega arith;
      })
      (archive_end refl)

parse_tarball-Archive_example : parse_tarball 2 archive_mem 1024 ≡ ok (some (small ∷ []))
parse_tarball-Archive_example =
    parse_tarball-Archive archive_mem 2 1024 (small ∷ []) (omega arith) small-Archive
