-- ===== src/Mm/Memory/Frames.antt =====
-- A frame that was allocated can be given back.
use kernel_r.Prelude.{
  ℕ, ◌+◌, ◌-◌, ◌≤◌, ◌<◌, ◌≡◌, refl, Option, none, some, [], ok, word, arith, sub_u64_lem,
  add_u64_lem,
}
use kernel_r.Mm.Buddy.{BuddyAllocator, max_order}
use kernel_r.Mm.Buddy.Alloc.{Allocated, exhausted, given, alloc-Allocated}
use kernel_r.Mm.Buddy.Cover.{Lists, cover}
use kernel_r.Mm.Buddy.Place.{Region, IsManaged}
use kernel_r.Mm.Buddy.Valid.{IsValid}
use kernel_r.Mm.Buddy.RoundTrip.{given_back}
use kernel_r.Mm.Memory.{allocate_frame, phys_of, clear_frame, phys_offset}

-- What the caller sees of the answer: no memory is left, or a frame that clear_frame takes back.
abbrev pub TakenBack : BuddyAllocator → Region → Lists → Option ℕ → Type 0
TakenBack b r lists none = (o : ℕ) → o < max_order → lists o ≡ []
TakenBack b r lists (some frame) =
    (b' : BuddyAllocator) × (lists' : Lists) × (clear_frame b frame ≡ ok b')
    × IsValid r b' lists'
    × ((p : ℕ) → cover lists' p ≡ cover lists p)

module _ {r : Region} (managed : IsManaged r) (high : phys_offset ≤ r.base) where
  frame_of :
      {b : BuddyAllocator} {lists lists' : Lists} (out : Option ℕ)
      → IsValid r b lists'
      → ((p : ℕ) → cover lists p ≤ 1)
      → Allocated r 0 lists lists' out
      → (frame : Option ℕ) × (phys_of b out ≡ ok (frame, b)) × TakenBack b r lists frame
  unfolding clear_frame
  frame_of none v once (exhausted empty same) = (none, refl, λ o lt. empty o (omega arith) lt)
  frame_of {b} {lists} (some block) v once (given j e lt exact) =
      let above : phys_offset ≤ block = omega (arith, high, e) in
      let (b', lists', run, valid, same) =
        given_back managed 0 (some block) v once (given j e lt exact) in
      let back : block - phys_offset + phys_offset ≡ block = omega (arith, above) in
      let below : block < word = omega (arith, e, lt, managed.top) in
      (
        some (block - phys_offset),
        rw (sub_u64_lem block phys_offset above) refl,
        (
          b',
          lists',
          rw (add_u64_lem (block - phys_offset) phys_offset (omega (arith, back, below)), back) run,
          valid,
          same,
        ),
      )

  -- On a valid frame allocator whose memory lies at or past PHYS_OFFSET, allocate_frame does not
  -- panic. If it returns a frame, clear_frame of it does not panic and leaves a valid allocator with
  -- the same bytes free as at first; if it returns none, nothing was free.
  pub clear_frame-allocate_frame :
      {b : BuddyAllocator} {lists : Lists}
      → IsValid r b lists
      → (frame : Option ℕ) × (b' : BuddyAllocator) × (allocate_frame b ≡ ok (frame, b'))
        × TakenBack b' r lists frame
  unfolding allocate_frame
  clear_frame-allocate_frame v =
      let (out, b', lists', e, v', a) = alloc-Allocated managed 0 v in
      let (frame, run, back) = frame_of out v' v.repr.once a in (frame, b', rw e run, back)
