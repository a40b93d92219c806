-- ===== src/Process/Family/Children.antt =====
-- The loop of `wait` over the table of processes, for the children that are wanted.
use mathlib.Core.Option.{some-injective}
use kernel_r.Prelude.{
  ℕ, zero, suc, ◌<◌, ◌-◌, ◌==◌, ==_iff, word, ◌⊎◌, arith, ◌≡◌, refl, sym, ◌∙◌, ap, inl, inr, Option,
  none, some, List, [], ◌∷◌, Bool, true, false, true_ne_false, Bool-cases, get_elem?, if◌then◌else◌,
}
use kernel_r.Process.State.{Process}
use kernel_r.Process.Family.{is_wanted, find_child}

-- What the loop over the table finds: the first dead child that is wanted; that all wanted children live, one
-- at least; or that there are none.
pub data Child (current_pid target : ℕ) (ps : List (Option Process))
    : Bool × Option Process → Type 0 where
  dead :
      (i : ℕ) (p : Process)
      → get_elem? ps i ≡ some (some p)
      → is_wanted current_pid target p ≡ true
      → p.is_zombie ≡ true
      → ((j : ℕ) (q : Process)
          → j < i
          → get_elem? ps j ≡ some (some q)
          → is_wanted current_pid target q ≡ true
          → q.is_zombie ≡ false)
      → Child current_pid target ps (true, some p)
  alive :
      (i : ℕ) (p : Process)
      → get_elem? ps i ≡ some (some p)
      → is_wanted current_pid target p ≡ true
      → ((j : ℕ) (q : Process)
          → get_elem? ps j ≡ some (some q)
          → is_wanted current_pid target q ≡ true
          → q.is_zombie ≡ false)
      → Child current_pid target ps (true, none)
  no_child :
      ((j : ℕ) (q : Process)
        → get_elem? ps j ≡ some (some q)
        → is_wanted current_pid target q ≡ false)
      → Child current_pid target ps (false, none)

skip_place :
    (pid target : ℕ) (slot : Option Process) (rest : List (Option Process))
    (out : Bool × Option Process)
    → ((q : Process) → slot ≡ some q → is_wanted pid target q ≡ false)
    → Child pid target rest out
    → Child pid target (slot ∷ rest) out
skip_place pid target slot rest _ unwanted (dead i p at w z before) =
    dead (suc i) p at w z (by_place i before)
  where
    by_place :
        (i : ℕ)
        → ((j : ℕ) (q : Process)
            → j < i
            → get_elem? rest j ≡ some (some q)
            → is_wanted pid target q ≡ true
            → q.is_zombie ≡ false)
        → (j : ℕ) (q : Process) → j < suc i
        → get_elem? (slot ∷ rest) j ≡ some (some q)
        → is_wanted pid target q ≡ true
        → q.is_zombie ≡ false
    by_place i before zero q lt at w =
        absurd (true_ne_false (sym w ∙ unwanted q (some-injective slot (some q) at)))
    by_place i before (suc j) q lt at w = before j q (omega (arith, lt)) at w
skip_place pid target slot rest _ unwanted (alive i p at w all) =
    alive (suc i) p at w (by_place all)
  where
    by_place :
        ((j : ℕ) (q : Process)
          → get_elem? rest j ≡ some (some q)
          → is_wanted pid target q ≡ true
          → q.is_zombie ≡ false)
        → (j : ℕ) (q : Process) → get_elem? (slot ∷ rest) j ≡ some (some q)
        → is_wanted pid target q ≡ true
        → q.is_zombie ≡ false
    by_place all zero q at w =
        absurd (true_ne_false (sym w ∙ unwanted q (some-injective slot (some q) at)))
    by_place all (suc j) q at w = all j q at w
skip_place pid target slot rest _ unwanted (no_child all) = no_child (by_place all)
  where
    by_place :
        ((j : ℕ) (q : Process) → get_elem? rest j ≡ some (some q) → is_wanted pid target q ≡ false)
        → (j : ℕ) (q : Process) → get_elem? (slot ∷ rest) j ≡ some (some q)
        → is_wanted pid target q ≡ false
    by_place all zero q at = unwanted q (some-injective slot (some q) at)
    by_place all (suc j) q at = all j q at

after_live :
    (pid target : ℕ) (p : Process) (rest : List (Option Process)) (out : Bool × Option Process)
    → is_wanted pid target p ≡ true
    → p.is_zombie ≡ false
    → Child pid target rest out
    → Child pid target (some p ∷ rest) (true, out.1)
after_live pid target p rest _ wanted lives (dead i q at w z before) =
    dead (suc i) q at w z (by_place i before)
  where
    by_place :
        (i : ℕ)
        → ((j : ℕ) (q : Process)
            → j < i
            → get_elem? rest j ≡ some (some q)
            → is_wanted pid target q ≡ true
            → q.is_zombie ≡ false)
        → (j : ℕ) (q : Process) → j < suc i
        → get_elem? (some p ∷ rest) j ≡ some (some q)
        → is_wanted pid target q ≡ true
        → q.is_zombie ≡ false
    by_place i before zero q lt at w =
        ap (λ x. x.is_zombie) (sym (some-injective p q (some-injective (some p) (some q) at)))
        ∙ lives
    by_place i before (suc j) q lt at w = before j q (omega (arith, lt)) at w
after_live pid target p rest _ wanted lives (alive i q at w all) =
    alive 0 p refl wanted (by_place all)
  where
    by_place :
        ((j : ℕ) (q : Process)
          → get_elem? rest j ≡ some (some q)
          → is_wanted pid target q ≡ true
          → q.is_zombie ≡ false)
        → (j : ℕ) (q : Process) → get_elem? (some p ∷ rest) j ≡ some (some q)
        → is_wanted pid target q ≡ true
        → q.is_zombie ≡ false
    by_place all zero q at w =
        ap (λ x. x.is_zombie) (sym (some-injective p q (some-injective (some p) (some q) at)))
        ∙ lives
    by_place all (suc j) q at w = all j q at w
after_live pid target p rest _ wanted lives (no_child all) = alive 0 p refl wanted (by_place all)
  where
    by_place :
        ((j : ℕ) (q : Process) → get_elem? rest j ≡ some (some q) → is_wanted pid target q ≡ false)
        → (j : ℕ) (q : Process) → get_elem? (some p ∷ rest) j ≡ some (some q)
        → is_wanted pid target q ≡ true
        → q.is_zombie ≡ false
    by_place all zero q at w =
        ap (λ x. x.is_zombie) (sym (some-injective p q (some-injective (some p) (some q) at)))
        ∙ lives
    by_place all (suc j) q at w = absurd (true_ne_false (sym w ∙ all j q at))

by_state :
    (pid target : ℕ) (p : Process) (rest : List (Option Process)) (out : Bool × Option Process)
    (state : Bool)
    → is_wanted pid target p ≡ true
    → p.is_zombie ≡ state
    → Child pid target rest out
    → Child pid target (some p ∷ rest) (if state then (true, some p) else (true, out.1))
by_state pid target p rest out true wanted is_dead c =
    dead 0 p refl wanted is_dead (λ j q lt at w. absurd (omega (arith, lt)))
by_state pid target p rest out false wanted lives c =
    after_live pid target p rest out wanted lives c

pub find_child-Child :
    (pid target : ℕ) (ps : List (Option Process)) → Child pid target ps (find_child pid target ps)
find_child-Child pid target [] = no_child (λ j q e. cc)
find_child-Child pid target (none ∷ rest) =
    skip_place pid target none rest (find_child pid target rest) (λ q e. cc)
      (find_child-Child pid target rest)
find_child-Child pid target (some p ∷ rest) = elim (Bool-cases (is_wanted pid target p)) [
  | inr unwanted ↦ rw unwanted (
      skip_place pid target (some p) rest (find_child pid target rest)
        (λ q e. ap (is_wanted pid target) (sym (some-injective p q e)) ∙ unwanted)
        (find_child-Child pid target rest))
  | inl wanted ↦ rw wanted (
      by_state pid target p rest (find_child pid target rest) p.is_zombie wanted refl
        (find_child-Child pid target rest))
]

-- A child of the caller that a wait for `target` is for: any of them, or the one of that pid.
abbrev pub Wanted : (pid target : ℕ) → Process → Type 0
Wanted pid target p = (p.ppid ≡ pid) × ((target ≡ word - 1) ⊎ (target ≡ p.pid))

pub is_wanted-Wanted :
    (pid target : ℕ) (p : Process) → is_wanted pid target p ≡ true → Wanted pid target p
is_wanted-Wanted pid target p w = (
  ground arith,
  elim (Bool-cases (target == word - 1)) [
    | inl any ↦ inl ((==_iff target (word - 1)).0 any)
    | inr one ↦ inr (ground arith)
  ],
)

pub Wanted-is_wanted :
    (pid target : ℕ) (p : Process) → Wanted pid target p → is_wanted pid target p ≡ true
Wanted-is_wanted pid target p (parent, inl any) = ground arith
Wanted-is_wanted pid target p (parent, inr one) = ground arith
