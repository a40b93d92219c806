-- ===== src/Process/Arena/Put.antt =====
-- A thread of the arena that `get_mut` lent, put back.
use mathlib.Core.Option.{some-injective, none-ne-some}
use kernel_r.Prelude.{
  ℕ, ◌≡◌, ◌≢◌, sym, ◌∙◌, ap, ◌⊎◌, inl, inr, Option, none, some, List, get_elem?, set,
  get_elem?-set_self, get_elem?-set_ne, lt-of_get_elem?,
}
use native.Mathlib.Decide.{ℕ_discrete}
use kernel_r.Process.Arena.{ThreadSlot, empty, occupied, ThreadArena, get, task_of, put}
use kernel_r.Process.Arena.Free.{FreeChain-same, IsValid, member_empty}

module _ {ℓ} {T : Type ℓ} where
  slot_of :
      (slot : Option (ThreadSlot T)) (task : T)
      → task_of slot ≡ some task
      → slot ≡ some (occupied task)
  slot_of (some (occupied t)) task e = ap (λ x. some (occupied x)) (some-injective t task e)
  slot_of (some (empty n)) task e = absurd (none-ne-some task e)
  slot_of none task e = absurd (none-ne-some task e)

  pub put-get_self :
      (a : ThreadArena T) (t : ℕ) (old new : T)
      → get a t ≡ some old
      → get (put a t new) t ≡ some new
  unfolding get
  put-get_self a t old new e =
      let at = slot_of (get_elem? a.slots t) old e in
      let lt = lt-of_get_elem? a.slots t (occupied old) at in
      ap task_of (get_elem?-set_self a.slots t (occupied new) lt)

  pub put-get_ne : (a : ThreadArena T) (t j : ℕ) (new : T) → j ≢ t → get (put a t new) j ≡ get a j
  unfolding get
  put-get_ne a t j new ne = ap task_of (get_elem?-set_ne a.slots (occupied new) (λ e. ne (sym e)))

  free_other :
      (a : ThreadArena T) (t x : ℕ) (old : T) (n : Option ℕ)
      → get a t ≡ some old
      → get_elem? a.slots x ≡ some (empty n)
      → x ≢ t
  unfolding get
  free_other a t x old n e at same =
      none-ne-some old (sym (ap task_of at) ∙ ap (λ y. get a y) same ∙ e)

  pub put-IsValid :
      (a : ThreadArena T) (t : ℕ) (old new : T) {free : List ℕ}
      → get a t ≡ some old
      → IsValid a free
      → IsValid (put a t new) free
  unfolding get
  put-IsValid a t old new {free} e v =
      let slots = set a.slots t (occupied new) in
      let at = slot_of (get_elem? a.slots t) old e in
      let here =
        get_elem?-set_self a.slots t (occupied new) (lt-of_get_elem? a.slots t (occupied old) at) in
      let other : (x : ℕ) → x ≢ t → get_elem? slots x ≡ get_elem? a.slots x =
        λ x ne. get_elem?-set_ne a.slots (occupied new) (λ s. ne (sym s)) in
      record {
        chain =
            FreeChain-same a.slots slots free
              (λ x i s at_x.
                (let (n, em) = member_empty a.slots free x v.chain i in
                  other x (free_other a t x old n e em) ∙ at_x))
              v.chain;
        distinct = v.distinct;
        complete = λ x n em. elim (ℕ_discrete x t) [
          | yes same ↦ absurd (
              none-ne-some new (
                sym (ap task_of em) ∙ ap (λ y. task_of (get_elem? slots y)) same ∙ ap task_of here))
          | no ne ↦ v.complete x n (sym (other x ne) ∙ em)
        ];
      }

  -- What an id has after the change: the new thread, or what it had.
  pub put-cases :
      (a : ThreadArena T) (t j : ℕ) (old new task : T)
      → get a t ≡ some old
      → get (put a t new) j ≡ some task
      → ((j ≡ t) × (new ≡ task)) ⊎ ((j ≢ t) × (get a j ≡ some task))
  put-cases a t j old new task at e = elim (ℕ_discrete j t) [
    | yes same ↦ inl (
      same,
      some-injective new task
          (sym (put-get_self a t old new at) ∙ ap (get (put a t new)) (sym same) ∙ e),
    )
    | no ne ↦ inr (ne, sym (put-get_ne a t j new ne) ∙ e)
  ]
