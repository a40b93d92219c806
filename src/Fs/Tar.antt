-- ===== src/Fs/Tar.antt =====
-- src/fs/tar.rs: the files of the initial archive. `mem` is the memory the archive lies in, by
-- address; a name is the list of its bytes, and a pointer to a file's data is its address.
pub mod Octal
pub mod Read
pub mod Names
pub mod Archive
mod Tests
use kernel_r.Mm.Align.{align_to}
use kernel_r.Prelude.{
  same_bytes, ℕ, zero, suc, ◌+◌, ◌-◌, min, Bool, true, false, ◌&&◌, ◌||◌, Option, none, some, List,
  [], ◌∷◌, ◌++◌, length, get_elem?, take, drop, replicate, Run, ok, ◌>>=◌, add_u64, mul_u64, ltb,
  leb, ◌==◌, if◌then◌else◌,
}

pub record TarVnode : Type 0 where
  pub name : List ℕ
  pub size : ℕ
  pub data_ptr : ℕ

pub record DirEntry : Type 0 where
  pub entry_size : ℕ
  pub entry_type : ℕ
  pub name_len : ℕ
  pub entry_name : List ℕ

-- `n` bytes of the memory from `p` on.
abbrev pub bytes_at : (ℕ → ℕ) → ℕ → ℕ → List ℕ
bytes_at mem p zero = []
bytes_at mem p (suc n) = mem p ∷ bytes_at mem (p + 1) n

-- The answer of `read` and the buffer it leaves.
unfoldable pub read : (ℕ → ℕ) → TarVnode → ℕ → List ℕ → Option ℕ × List ℕ
read mem v offset buf =
    if leb v.size offset
    then (some 0, buf)
    else let bytes_to_read = min (length buf) (v.size - offset) in
      (
        some bytes_to_read,
        bytes_at mem (v.data_ptr + offset) bytes_to_read ++ drop bytes_to_read buf,
      )

-- The loop of `parse_octal` from `result` on.
unfoldable pub octal_loop : List ℕ → ℕ → Run ℕ
octal_loop [] result = ok result
octal_loop (b ∷ bytes) result =
    let next = (do
      shifted ← mul_u64 result 8
      result' ← add_u64 shifted (b - 48)
      octal_loop bytes result') in
    let rest = octal_loop bytes result in
    if leb 48 b && leb b 55
    then next
    else if (b == 0) || (b == 32)
    then (if ltb 0 result then ok result else rest)
    else rest

unfoldable pub parse_octal : List ℕ → Run ℕ
unfolding octal_loop
parse_octal bytes = octal_loop bytes 0

-- `TarDirectory::lookup`, on the directory's files.
unfoldable pub lookup : List TarVnode → List ℕ → Option TarVnode
lookup [] name = none
lookup (i ∷ files) name =
    let later = lookup files name in if same_bytes i.name name then some i else later

abbrev pub entry_of : Option TarVnode → Option DirEntry
entry_of none = none
entry_of (some file) =
    let len = min (length file.name) 63 in
    some (record {
      entry_size = file.size;
      entry_type = 1;
      name_len = len;
      entry_name = take len file.name ++ replicate (64 - len) 0;
    })

unfoldable pub readdir : List TarVnode → ℕ → Option DirEntry
readdir files index = entry_of (get_elem? files index)

-- for i in 0..100 { if header[i] == 0 { null_idx = i; break; } }
unfoldable pub first_zero : List ℕ → ℕ → ℕ
first_zero [] i = 0
first_zero (b ∷ bytes) i = let later = first_zero bytes (i + 1) in if b == 0 then i else later

-- One round of the loop of `parse_tarball`: the file of the header, and the next header.
unfoldable pub parse_header : (ℕ → ℕ) → ℕ → Run (TarVnode × ℕ)
unfolding first_zero
parse_header mem current_addr = do
  let header = bytes_at mem current_addr 512
  let null_idx = first_zero (take 100 header) 0
  size ← parse_octal (take 12 (drop 124 header))
  data_ptr ← add_u64 current_addr 512
  padded ← align_to size 512
  advance ← add_u64 512 padded
  next_addr ← add_u64 current_addr advance
  ok (record { name = take null_idx header; size = size; data_ptr = data_ptr }, next_addr)

-- The loop, on fuel: `none` when that runs out.
unfoldable pub parse_loop : ℕ → (ℕ → ℕ) → ℕ → List TarVnode → Run (Option (List TarVnode))
parse_loop zero mem current_addr files = ok none
parse_loop (suc fuel) mem current_addr files =
    let more = (do
      (file, next_addr) ← parse_header mem current_addr
      parse_loop fuel mem next_addr (files ++ (file ∷ []))) in
    if mem current_addr == 0 then ok (some files) else more

unfoldable pub parse_tarball : ℕ → (ℕ → ℕ) → ℕ → Run (Option (List TarVnode))
unfolding parse_loop
parse_tarball fuel mem base_addr = parse_loop fuel mem base_addr []
