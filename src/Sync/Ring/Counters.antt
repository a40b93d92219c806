-- ===== src/Sync/Ring/Counters.antt =====
-- The indices of the ring as remainders of counters that only grow.
use native.Mathlib.Nat.{div-add-mod, mod-lt, mod-add-mod, add-mod_right, mul-le-mul_left}
use native.Mathlib.Decide.{dec_lt, ℕ_discrete}
use kernel_r.Prelude.{
  ℕ, ◌+◌, ◌/◌, ◌%◌, ◌≤◌, ◌<◌, ◌≡◌, ap, arith, ok, word, true, false, ◌==◌, if◌then◌else◌,
  add_u64_lem,
}
use kernel_r.Sync.Ring.{next_index}

-- Counters less than `N` apart have the same index only if they are equal.
pub mod-injective : (N j k : ℕ) → j ≤ k → k < j + N → j % N ≡ k % N → j ≡ k
mod-injective N j k le lt e = elim (dec_lt (j / N) (k / N)) [
  | yes less ↦ absurd (
      omega (
        arith,
        div-add-mod j N,
        div-add-mod k N,
        e,
        mul-le-mul_left {m = j / N + 1} {n = k / N} N (omega arith),
      ))
  | no ge ↦ omega (
    arith,
    div-add-mod j N,
    div-add-mod k N,
    e,
    mul-le-mul_left {m = k / N} {n = j / N} N (omega arith),
  )
]

pub next_index_lem : (N k : ℕ) → 0 < N → N < word → next_index N (k % N) ≡ ok ((k + 1) % N)
unfolding next_index
next_index_lem N k pos small =
    let below = mod-lt k pos in
    rw (add_u64_lem (k % N) 1 (omega arith)) (ground (arith, mod-add-mod k N 1))

-- Whether there is room, and whether there is an item, as the code tests it on the indices.
pub full_test :
    (N p c : ℕ)
    → c ≤ p
    → p < c + N
    → ((p + 1) % N == c % N) ≡ (if p + 1 == c + N then true else false)
full_test N p c le lt = elim (ℕ_discrete (p + 1) (c + N)) [
  | yes e ↦ ground (arith, ap (λ (t : ℕ). t % N) e, add-mod_right c N)
  | no ne ↦ ground (arith, mod-injective N c (p + 1))
]

pub empty_test : (N p c : ℕ) → c ≤ p → p < c + N → (c % N == p % N) ≡ (c == p)
empty_test N p c le lt = ground (arith, mod-injective N c p)
