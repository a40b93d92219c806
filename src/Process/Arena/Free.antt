-- ===== src/Process/Arena/Free.antt =====
-- The list of empty slots that the arena threads through them.
use kernel_r.Prelude.{
  ℕ, ◌≡◌, ◌∙◌, ap, true, Option, none, some, List, [], ◌∷◌, get_elem?, has, Distinct, arith,
  Bool-cases, inl, inr, ◌==◌,
}
use kernel_r.Process.Arena.{ThreadSlot, empty, ThreadArena}

-- From `head` the links lead through the slots `xs`, all empty.
pub data FreeChain {ℓ} {T : Type ℓ} (slots : List (ThreadSlot T)) : Option ℕ → List ℕ → Type ℓ where
  chain_end : FreeChain slots none []
  chain_slot :
      {next : Option ℕ} {xs : List ℕ} (x : ℕ)
      → get_elem? slots x ≡ some (empty next)
      → FreeChain slots next xs
      → FreeChain slots (some x) (x ∷ xs)

-- The chain is the same in slots that agree on it.
pub FreeChain-same {ℓ} :
    {T : Type ℓ} (slots slots' : List (ThreadSlot T)) {head : Option ℕ} (xs : List ℕ)
    → ((x : ℕ)
        → has x xs ≡ true
        → (s : ThreadSlot T) → get_elem? slots x ≡ some s
        → get_elem? slots' x ≡ some s)
    → FreeChain slots head xs
    → FreeChain slots' head xs
FreeChain-same slots slots' [] same chain_end = chain_end
FreeChain-same slots slots' (x ∷ xs) same (chain_slot y at rest) =
    chain_slot x (same x (ground arith) _ at)
      (FreeChain-same slots slots' xs (λ z i. same z (ground arith)) rest)

-- The empty slots are those of the chain, each once.
pub record IsValid {ℓ} {T : Type ℓ} (a : ThreadArena T) (free : List ℕ) : Type ℓ where
  pub chain : FreeChain a.slots a.free_head free
  pub distinct : Distinct free
  pub complete :
      (x : ℕ) (next : Option ℕ) → get_elem? a.slots x ≡ some (empty next) → has x free ≡ true

pub member_empty {ℓ} :
    {T : Type ℓ} (slots : List (ThreadSlot T)) {head : Option ℕ} (xs : List ℕ) (x : ℕ)
    → FreeChain slots head xs
    → has x xs ≡ true
    → (next : Option ℕ) × (get_elem? slots x ≡ some (empty next))
member_empty slots [] x c i = absurd (ground arith)
member_empty slots (y ∷ ys) x (chain_slot {next} z at rest) i = elim (Bool-cases (x == y)) [
  | inl same ↦ (next, ap (get_elem? slots) {y = y} (ground arith) ∙ at)
  | inr other ↦ member_empty slots ys x rest (ground arith)
]
