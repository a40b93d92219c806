-- ===== src/Mm/Memory/Reserved.antt =====
-- `is_reserved` and `reserve_region` as a test on the regions.
use kernel_r.Prelude.{
  ℕ, zero, suc, ◌+◌, ◌≤◌, ◌<◌, ◌≡◌, refl, ◌∙◌, ap, inl, inr, Bool, true, false, ◌&&◌, ◌||◌,
  Bool-cases, List, [], ◌∷◌, length, length-set, set, Run, ok, word, arith, ltb, lt→ltb,
  add_u64_lem,
}
use kernel_r.Mm.Memory.{
  ReservedRegion, RegionTracker, overlaps, any_overlap, is_reserved, reserve_region, max_reserved,
}

-- The array has a place for each region that is counted.
pub record IsTracker (t : RegionTracker) : Type 0 where
  pub places : length t.regions ≡ max_reserved
  pub counted : t.count ≤ max_reserved

-- Whether the range meets one of the first regions.
abbrev pub meets : List ReservedRegion → ℕ → ℕ → ℕ → Bool
meets regions a e zero = false
meets [] a e (suc n) = false
meets (r ∷ rest) a e (suc n) = overlaps a e r || meets rest a e n

abbrev pub reserved : RegionTracker → ℕ → ℕ → Bool
reserved t a size = meets t.regions a (a + size) t.count

any_overlap-meets :
    (regions : List ReservedRegion) (a e n : ℕ)
    → n ≤ length regions
    → any_overlap regions a e n ≡ ok (meets regions a e n)
any_overlap-meets regions a e zero h = refl
any_overlap-meets [] a e (suc n) h = absurd (omega arith)
any_overlap-meets (r ∷ rest) a e (suc n) h = elim (Bool-cases (overlaps a e r)) [
  | inl here ↦ rw here refl
  | inr past ↦ rw past (any_overlap-meets rest a e n (omega arith))
]

-- is_reserved does not panic inside the address space.
pub is_reserved-reserved :
    (t : RegionTracker) (a size : ℕ)
    → IsTracker t
    → a + size < word
    → is_reserved t a size ≡ ok (reserved t a size)
unfolding is_reserved
is_reserved-reserved t a size v fits =
    rw (add_u64_lem a size fits)
      (any_overlap-meets t.regions a (a + size) t.count (omega (arith, v.places, v.counted)))

meets-set :
    (regions : List ReservedRegion) (r : ReservedRegion) (a e n : ℕ)
    → n < length regions
    → meets (set regions n r) a e (suc n) ≡ meets regions a e n || overlaps a e r
meets-set [] r a e n h = absurd (omega arith)
meets-set (x ∷ rest) r a e zero h = or_false (overlaps a e r)
  where
    or_false : (b : Bool) → (b || false) ≡ (false || b)
    or_false true = refl
    or_false false = refl
meets-set (x ∷ rest) r a e (suc n) h =
    ap (λ b. overlaps a e x || b) (meets-set rest r a e n (omega arith))
    ∙ or_assoc (overlaps a e x) (meets rest a e n) (overlaps a e r)
  where
    or_assoc : (x y z : Bool) → (x || (y || z)) ≡ ((x || y) || z)
    or_assoc true y z = refl
    or_assoc false y z = refl

-- What reserve_region leads to.
abbrev pub Reserves : RegionTracker → ℕ → ℕ → List ℕ → Run RegionTracker → Type 0
Reserves t start end name run =
    (t' : RegionTracker) × (run ≡ ok t')
    × IsTracker t'
    × ((a size : ℕ)
        → a + size < word
        → is_reserved t' a size ≡ ok (reserved t a size || (ltb a end && ltb start (a + size))))

-- With a place left reserve_region does not panic, and is_reserved holds afterwards of the ranges
-- that it held of and of those that meet the new region, and of no others.
pub reserve_region-Reserves :
    (t : RegionTracker) (start end : ℕ) (name : List ℕ)
    → IsTracker t
    → t.count < max_reserved
    → Reserves t start end name (reserve_region t start end name)
unfolding reserve_region
reserve_region-Reserves t start end name v room =
    let region : ReservedRegion = record { start = start; end = end; name = name } in
    let t' : RegionTracker = record {
      regions = set t.regions t.count region;
      count = t.count + 1;
    } in
    let v' : IsTracker t' = record {
      places = length-set t.regions t.count region ∙ v.places;
      counted = omega (arith, room);
    } in
    (
      t',
      rw (lt→ltb t.count max_reserved room) refl,
      v',
      λ a size fits.
          is_reserved-reserved t' a size v' fits
          ∙ ap ok (
              ap (meets t'.regions a (a + size)) {x = t.count + 1} {y = suc t.count} (omega arith)
              ∙ meets-set t.regions region a (a + size) t.count (omega (arith, room, v.places))),
    )
