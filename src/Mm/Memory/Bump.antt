-- ===== src/Mm/Memory/Bump.antt =====
-- The bump allocator hands out free blocks of usable memory, always past the last one.
use mathlib.Core.Option.{some-injective, none-ne-some}
use kernel_r.Prelude.{
  ℕ, zero, suc, ◌+◌, ◌*◌, ◌/◌, ◌≤◌, ◌<◌, ◌≡◌, refl, sym, inl, inr, subst, true, false, ◌==◌,
  Bool-cases, Option, none, some, List, [], ◌∷◌, get_elem?, Run, ok, word, arith, ltb, add_u64_lem,
  mul_u64_lem, if◌then◌else◌,
}
use kernel_r.Mm.Memory.{
  RegionTracker, MemoryMapEntry, BumpAllocator, page_up, in_entry, in_entries, taken,
  allocate_contiguous_frames,
}
use kernel_r.Mm.Memory.Reserved.{IsTracker, reserved, is_reserved-reserved}
use kernel_r.Mm.Memory.Search.{Block, block, nowhere, search-Block, bit_and_page}

page_up_lem : (a : ℕ) → a + 4095 < word → page_up a ≡ ok ((a + 4095) / 4096 * 4096)
page_up_lem a h = let mask = bit_and_page (a + 4095) h in rw (add_u64_lem a 4095 h, mask) refl

-- The entries' ends, and the frame after the last block, leave room for a block in the word.
pub record HasRoom (b : BumpAllocator) (count : ℕ) (maps : List MemoryMapEntry) : Type 0 where
  pub next : b.next_free_frame + count * 4096 + 8192 < word
  pub ends :
      (i : ℕ) (mem : MemoryMapEntry)
      → get_elem? maps i ≡ some mem
      → mem.base_addr + mem.length + count * 4096 + 8192 < word

-- A block of frames at page `p` that lies in usable memory, past the last block.
pub record Fits (b : BumpAllocator) (mem : MemoryMapEntry) (count p : ℕ) : Type 0 where
  pub usable : mem.typ ≡ 1
  pub inside : mem.base_addr ≤ p * 4096
  pub ends : (p + count) * 4096 ≤ mem.base_addr + mem.length
  pub past : b.next_free_frame ≤ p * 4096

-- The answer for a part of the map: a block of frames none of which is reserved, or that every block
-- of the part has a reserved frame.
pub data Answer (t : RegionTracker) (b : BumpAllocator) (count : ℕ) (maps : List MemoryMapEntry)
    : Option ℕ × BumpAllocator → Type 0 where
  given :
      (i : ℕ) (mem : MemoryMapEntry) (p : ℕ)
      → get_elem? maps i ≡ some mem
      → Fits b mem count p
      → ((j : ℕ) → j < count → reserved t ((p + j) * 4096) 4096 ≡ false)
      → Answer t b count maps
          (some (p * 4096), record b { next_free_frame = p * 4096 + count * 4096 })
  refused :
      ((i : ℕ) (mem : MemoryMapEntry) (p : ℕ)
        → get_elem? maps i ≡ some mem
        → Fits b mem count p
        → (j : ℕ) × (j < count) × (reserved t ((p + j) * 4096) 4096 ≡ true))
      → Answer t b count maps (none, b)

-- The least page at or past both the entry's base and the last block.
abbrev from_of : BumpAllocator → MemoryMapEntry → ℕ
from_of b mem = if ltb mem.base_addr b.next_free_frame then b.next_free_frame else mem.base_addr

module _ (t : RegionTracker) (v : IsTracker t) where
  in_usable :
      (b : BumpAllocator) (count : ℕ) (mem : MemoryMapEntry)
      → b.next_free_frame + count * 4096 + 8192 < word
      → mem.base_addr + mem.length + count * 4096 + 8192 < word
      → mem.typ ≡ 1
      → (out : Option ℕ) × (in_entry t b count (count * 4096) mem ≡ ok out)
        × Block
            (λ a. reserved t a 4096)
            ((from_of b mem + 4095) / 4096)
            count
            (mem.base_addr + mem.length)
            out
  in_usable b count mem next bound usable =
      let from = from_of b mem in
      let low : from + count * 4096 + 8192 < word = ground (arith, next, bound) in
      let end = mem.base_addr + mem.length in
      let (out, run, answer) =
        search-Block t (λ a. reserved t a 4096) (λ a fits. is_reserved-reserved t a 4096 v fits)
          (end / 4096 + 1) ((from + 4095) / 4096) count end (omega arith) (omega (arith, low))
          bound in
      let is_usable : (mem.typ == 1) ≡ true = ground (arith, usable) in
      let sum = add_u64_lem mem.base_addr mem.length (omega (arith, bound)) in
      let up = page_up_lem from (omega (arith, low)) in (out, rw (is_usable, sum, up) run, answer)

  from_least :
      (b : BumpAllocator) (mem : MemoryMapEntry) (p : ℕ)
      → mem.base_addr ≤ p * 4096
      → b.next_free_frame ≤ p * 4096
      → (from_of b mem + 4095) / 4096 ≤ p
  from_least b mem p base next =
      let least : from_of b mem ≤ p * 4096 = ground (arith, base, next) in omega (arith, least)

  from_past :
      (b : BumpAllocator) (mem : MemoryMapEntry) (p : ℕ)
      → (from_of b mem + 4095) / 4096 ≤ p
      → (mem.base_addr ≤ p * 4096) × (b.next_free_frame ≤ p * 4096)
  from_past b mem p low =
      let up : from_of b mem ≤ p * 4096 = omega (arith, low) in
      (ground (arith, up), ground (arith, up))

  later :
      (b : BumpAllocator) (count : ℕ) (mem : MemoryMapEntry) (rest : List MemoryMapEntry)
      (out : Option ℕ × BumpAllocator)
      → ((p : ℕ)
          → Fits b mem count p
          → (j : ℕ) × (j < count) × (reserved t ((p + j) * 4096) 4096 ≡ true))
      → Answer t b count rest out
      → Answer t b count (mem ∷ rest) out
  later b count mem rest _ no_block (given i m p at fits free) = given (suc i) m p at fits free
  later b count mem rest _ no_block (refused all) = refused (by_entry all)
    where
      by_entry :
          ((i : ℕ) (m : MemoryMapEntry) (p : ℕ)
            → get_elem? rest i ≡ some m
            → Fits b m count p
            → (j : ℕ) × (j < count) × (reserved t ((p + j) * 4096) 4096 ≡ true))
          → (i : ℕ) (m : MemoryMapEntry) (p : ℕ) → get_elem? (mem ∷ rest) i ≡ some m
          → Fits b m count p
          → (j : ℕ) × (j < count) × (reserved t ((p + j) * 4096) 4096 ≡ true)
      by_entry all zero m p at fits =
          no_block p (subst (λ x. Fits b x count p) (sym (some-injective mem m at)) fits)
      by_entry all (suc i) m p at fits = all i m p at fits

  abbrev pub Answered :
      BumpAllocator → ℕ → List MemoryMapEntry → Run (Option ℕ × BumpAllocator) → Type 0
  Answered b count maps run =
      (out : Option ℕ × BumpAllocator) × (run ≡ ok out) × Answer t b count maps out

  found_by :
      (b : BumpAllocator) (count : ℕ) (mem : MemoryMapEntry) (rest : List MemoryMapEntry)
      (out : Option ℕ)
      → b.next_free_frame + count * 4096 + 8192 < word
      → mem.base_addr + mem.length + count * 4096 + 8192 < word
      → mem.typ ≡ 1
      → Block
          (λ a. reserved t a 4096)
          ((from_of b mem + 4095) / 4096)
          count
          (mem.base_addr + mem.length)
          out
      → Answered b count rest (in_entries t b count (count * 4096) rest)
      → Answered b count
          (mem ∷ rest)
          (taken b (count * 4096) (in_entries t b count (count * 4096) rest) out)
  found_by b count mem rest (some _) next bound usable (block p low fits free) others =
      let (inside, past) = from_past b mem p low in
      (
        (some (p * 4096), record b { next_free_frame = p * 4096 + count * 4096 }),
        rw (add_u64_lem (p * 4096) (count * 4096) (omega (arith, fits, bound))) refl,
        given 0 mem p refl (record { usable = usable; inside = inside; ends = fits; past = past })
            free,
      )
  found_by b count mem rest none next bound usable (nowhere all) (out, run, answer) = (
    out,
    run,
    later b count mem rest out
        (λ p fits. all p (from_least b mem p fits.inside fits.past) fits.ends) answer,
  )

  in_entries-Answered :
      (b : BumpAllocator) (count : ℕ) (maps : List MemoryMapEntry)
      → HasRoom b count maps
      → Answered b count maps (in_entries t b count (count * 4096) maps)
  in_entries-Answered b count [] room =
      ((none, b), refl, refused (λ i mem p at fits. absurd (none-ne-some mem at)))
  in_entries-Answered b count (mem ∷ rest) room =
      let others =
        in_entries-Answered b count rest
          (record { next = room.next; ends = λ i m at. room.ends (suc i) m at }) in
      elim (Bool-cases (mem.typ == 1)) [
        | inl is_usable ↦
            (let usable : mem.typ ≡ 1 = ground (arith, is_usable) in
              let bound = room.ends 0 mem refl in
              let (out, run, found) = in_usable b count mem room.next bound usable in
              rw run (found_by b count mem rest out room.next bound usable found others))
        | inr other ↦
            (let (out, run, answer) = others in
              (
                out,
                rw other run,
                later b count mem rest out (λ p fits. absurd (ground (arith, other, fits.usable)))
                    answer,
              ))
      ]

  -- With room in the word allocate_contiguous_frames does not panic and ends. It gives the first byte
  -- of a block of free pages in usable memory, past all earlier blocks, and moves past it; or it
  -- gives none, when each such block has a page that meets a reserved region.
  pub allocate_contiguous_frames-Answered :
      (b : BumpAllocator) (count : ℕ)
      → HasRoom b count b.memory_map
      → Answered b count b.memory_map (allocate_contiguous_frames t b count)
  unfolding allocate_contiguous_frames
  allocate_contiguous_frames-Answered b count room =
      rw (mul_u64_lem count 4096 (omega (arith, room.next)))
        (in_entries-Answered b count b.memory_map room)
