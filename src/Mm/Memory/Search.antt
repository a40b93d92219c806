-- ===== src/Mm/Memory/Search.antt =====
-- The search of the bump allocator ends with the first block free of reserved frames, or with none
-- when there is no such block.
use native.Mathlib.Decide.{dec_lt}
use kernel_r.Prelude.{
  ℕ, zero, suc, ◌+◌, ◌-◌, ◌*◌, ◌/◌, ◌≤◌, ◌<◌, ◌≡◌, refl, ◌∙◌, ap, inl, inr, Bool, true, false,
  Bool-cases, Option, none, some, Run, ok, word, arith, bit_and, leb, add_u64_lem, mul_u64_lem,
  leb→le,
}
use kernel_r.Prelude.Bits.{bit_and_clear}
use kernel_r.Mm.Align.{complement}
use kernel_r.Mm.Memory.{RegionTracker, is_reserved, first_reserved, decide, search}

pub bit_and_page : (p : ℕ) → p < word → bit_and p (complement 4095) ≡ p / 4096 * 4096
bit_and_page p h = bit_and_clear 12 p (omega arith) (omega (arith, h))

-- What the loop over the frames of a block finds: no reserved frame, or one.
pub data Hit (frame : ℕ → Bool) (c lo hi : ℕ) : Option ℕ → Type 0 where
  clear : ((j : ℕ) → lo ≤ j → j < hi → frame ((c + j) * 4096) ≡ false) → Hit frame c lo hi none
  hit :
      (j : ℕ)
      → lo ≤ j
      → j < hi
      → frame ((c + j) * 4096) ≡ true
      → Hit frame c lo hi (some ((c + j) * 4096))

-- What the search finds from page `lo` on: a block without reserved frames, or that there is none.
pub data Block (frame : ℕ → Bool) (lo count end : ℕ) : Option ℕ → Type 0 where
  block :
      (p : ℕ)
      → lo ≤ p
      → (p + count) * 4096 ≤ end
      → ((j : ℕ) → j < count → frame ((p + j) * 4096) ≡ false)
      → Block frame lo count end (some (p * 4096))
  nowhere :
      ((p : ℕ)
        → lo ≤ p
        → (p + count) * 4096 ≤ end
        → (j : ℕ) × (j < count) × (frame ((p + j) * 4096) ≡ true))
      → Block frame lo count end none

module _ (tracker : RegionTracker) (frame : ℕ → Bool)
    (reads : (a : ℕ) → a + 4096 < word → is_reserved tracker a 4096 ≡ ok (frame a)) where
  first_reserved-Hit :
      (c i rounds : ℕ)
      → (c + i + rounds) * 4096 + 4096 < word
      → (out : Option ℕ) × (first_reserved tracker (c * 4096) i rounds ≡ ok out)
        × Hit frame c i (i + rounds) out
  first_reserved-Hit c i zero h =
      (none, refl, clear (λ j low high. absurd (omega (arith, low, high))))
  first_reserved-Hit c i (suc rounds) h =
      let here : c * 4096 + i * 4096 ≡ (c + i) * 4096 = omega arith in
      let checks = reads ((c + i) * 4096) (omega (arith, h)) in
      let start = mul_u64_lem i 4096 (omega (arith, h)) in
      let added = add_u64_lem (c * 4096) (i * 4096) (omega (arith, h)) in
      elim (Bool-cases (frame ((c + i) * 4096))) [
        | inl taken ↦ (
          some ((c + i) * 4096),
          rw (start, added, here, checks, taken) refl,
          hit i (omega arith) (omega arith) taken,
        )
        | inr free ↦
            (let (out, run, found) = first_reserved-Hit c (i + 1) rounds (omega (arith, h)) in
              (out, rw (start, added, here, checks, free) run, later c i rounds out free found))
      ]
    where
      later :
          (c i rounds : ℕ) (out : Option ℕ)
          → frame ((c + i) * 4096) ≡ false
          → Hit frame c (i + 1) (i + 1 + rounds) out
          → Hit frame c i (i + suc rounds) out
      later c i rounds none free (clear rest) = clear (λ j low high. elim (dec_lt i j) [
        | yes past ↦ rest j (omega (arith, past)) (omega (arith, high))
        | no first ↦
            ap (λ x. frame ((c + x) * 4096)) {x = j} {y = i} (omega (arith, first, low)) ∙ free
      ])
      later c i rounds (some _) free (hit j low high taken) =
          hit j (omega (arith, low)) (omega (arith, high)) taken

  -- A block that starts at or before a reserved frame of the first block has that frame too.
  skip :
      (c j count end : ℕ) (out : Option ℕ)
      → j < count
      → frame ((c + j) * 4096) ≡ true
      → Block frame (c + j + 1) count end out
      → Block frame c count end out
  skip c j count end (some _) lt taken (block p low fits free) =
      block p (omega (arith, low)) fits free
  skip c j count end none lt taken (nowhere all) = nowhere (λ p low fits. elim (dec_lt (c + j) p) [
    | yes past ↦ all p (omega (arith, past)) fits
    | no early ↦
        (let (k, at) = offset_between p (c + j) (omega (arith, early)) in
          (k, omega (arith, at, low, lt), ap (λ x. frame (x * 4096)) at ∙ taken))
  ])
    where
      offset_between : (p q : ℕ) → p ≤ q → (k : ℕ) × (p + k ≡ q)
      offset_between p q h = (q - p, omega (arith, h))

  -- With a round for each frame below the region's end the search ends with an answer.
  pub search-Block :
      (fuel c count end : ℕ)
      → end < (c + fuel) * 4096
      → (c + count) * 4096 < word
      → end + count * 4096 + 8192 < word
      → (out : Option ℕ) × (search fuel tracker count (count * 4096) end (c * 4096) ≡ ok out)
        × Block frame c count end out
  search-Block zero c count end enough small bound =
      (none, refl, nowhere (λ p low fits. absurd (omega (arith, enough, low, fits))))
  search-Block (suc fuel) c count end enough small bound =
      let sum = add_u64_lem (c * 4096) (count * 4096) (omega (arith, small)) in
      elim (Bool-cases (leb (c * 4096 + count * 4096) end)) [
        | inr past ↦ (
          none,
          rw (sum, past) refl,
          nowhere (λ p low fits. absurd (ground (arith, past, low, fits))),
        )
        | inl inside ↦
            (let room : c * 4096 + count * 4096 ≤ end = leb→le _ _ inside in
              let (out, run, found) = first_reserved-Hit c 0 count (omega (arith, room, bound)) in
              let again : ℕ → Run (Option ℕ) =
                λ next. search fuel tracker count (count * 4096) end next in
              let (out', run', answer) = round_Block fuel c count end out room bound found (λ j lt.
                search-Block fuel (c + j + 1) count end (omega (arith, enough))
                  (omega (arith, lt, room, bound)) bound) in
              (out', rw (sum, inside, run) run', answer))
      ]
    where
      round_Block :
          (fuel c count end : ℕ) (out : Option ℕ)
          → c * 4096 + count * 4096 ≤ end
          → end + count * 4096 + 8192 < word
          → Hit frame c 0 (0 + count) out
          → ((j : ℕ)
              → j < count
              → (out' : Option ℕ) × (search fuel tracker count
                    (count * 4096)
                    end
                    ((c + j + 1) * 4096)
                  ≡ ok out')
                × Block frame (c + j + 1) count end out')
          → (out' : Option ℕ) × (decide
                (λ next. search fuel tracker count (count * 4096) end next)
                (c * 4096)
                out
              ≡ ok out')
            × Block frame c count end out'
      round_Block fuel c count end none room bound (clear free) rest = (
        some (c * 4096),
        refl,
        block c (omega arith) (omega (arith, room))
            (λ j lt. free j (omega arith) (omega (arith, lt))),
      )
      round_Block fuel c count end (some _) room bound (hit j low high taken) rest =
          let (out', run, found) = rest j (omega (arith, high)) in
          let next = add_u64_lem ((c + j) * 4096) 4096 (omega (arith, high, room, bound)) in
          let mask : bit_and ((c + j) * 4096 + 4096) (complement 4095) ≡ (c + j + 1) * 4096 =
            bit_and_page ((c + j) * 4096 + 4096) (omega (arith, high, room, bound)) ∙ omega arith in
          (out', rw (next, mask) run, skip c j count end out' (omega (arith, high)) taken found)
