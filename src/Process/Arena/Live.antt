-- ===== src/Process/Arena/Live.antt =====
-- `insert`, `remove` and `get` as a table of threads by their ids.
use native.Mathlib.Decide.{ℕ_discrete, dec_lt}
use mathlib.Core.Option.{none-ne-some}
use kernel_r.Prelude.{
  true_ne_false, get_elem?-lt, ℕ, ◌+◌, ◌≤◌, ◌<◌, ◌≡◌, ◌≢◌, refl, sym, ◌∙◌, ap, subst, Bool, true,
  false, Option, none, some, List, [], ◌∷◌, ◌++◌, length, length-append, get_elem?, set,
  get_elem?-set_self, get_elem?-set_ne, get_elem?-append_left, get_elem?-append_last,
  lt-of_get_elem?, get_elem?-ge, has, Distinct, arith, Bool-cases, inl, inr, leb, leb→le, set_back,
  Run, ok,
}
use kernel_r.Process.Arena.{
  ThreadSlot, empty, occupied, ThreadArena, insert, insert_by, remove, remove_slot, get, task_of,
}
use kernel_r.Process.Arena.Free.{
  FreeChain, chain_end, chain_slot, FreeChain-same, IsValid, member_empty,
}

module _ {ℓ} {T : Type ℓ} where
  -- A new thread under an id that was not in use, and every other id as before.
  abbrev pub Inserted : ThreadArena T → T → Run (ℕ × ThreadArena T) → Type ℓ
  Inserted a task run =
      (idx : ℕ) × (a' : ThreadArena T) × (free' : List ℕ) × (run ≡ ok (idx, a'))
      × IsValid a' free'
      × (get a idx ≡ none)
      × (get a' idx ≡ some task)
      × ((j : ℕ) → j ≢ idx → get a' j ≡ get a j)

  abbrev pub Removed : ThreadArena T → ℕ → Run (Option T × ThreadArena T) → Type ℓ
  Removed a pid run =
      (a' : ThreadArena T) × (free' : List ℕ) × (run ≡ ok (get a pid, a'))
      × IsValid a' free'
      × (get a' pid ≡ none)
      × ((j : ℕ) → j ≢ pid → get a' j ≡ get a j)

  is_occupied : Option (ThreadSlot T) → Bool
  is_occupied (some (occupied t)) = true
  is_occupied _ = false

  apart : (task : T) (n : Option ℕ) → some (occupied task) ≡ some (empty n) → ⊥
  unfolding is_occupied
  apart task n e = true_ne_false (ap is_occupied e)

  reuse :
      (a : ThreadArena T) (task : T) (x : ℕ) (xs : List ℕ) (next : Option ℕ)
      → get_elem? a.slots x ≡ some (empty next)
      → FreeChain a.slots next xs
      → Distinct (x ∷ xs)
      → ((y : ℕ) (n : Option ℕ) → get_elem? a.slots y ≡ some (empty n) → has y (x ∷ xs) ≡ true)
      → Inserted a task (insert_by a task (some x))
  unfolding get
  reuse a task x xs next at rest (out, distinct) complete =
      let lt = lt-of_get_elem? a.slots x (empty next) at in
      let other : (y : ℕ)
          → y ≢ x
          → get_elem? (set a.slots x (occupied task)) y ≡ get_elem? a.slots y =
        λ y ne. get_elem?-set_ne a.slots (occupied task) (λ e. ne (sym e)) in
      let here = get_elem?-set_self a.slots x (occupied task) lt in
      (
        x,
        record a { slots = set a.slots x (occupied task); free_head = next },
        xs,
        rw at refl,
        record {
          chain =
              FreeChain-same a.slots (set a.slots x (occupied task)) xs
                (λ y i s e.
                  other y (λ same. absurd (true_ne_false (sym i ∙ ap (λ t. has t xs) same ∙ out)))
                  ∙ e)
                rest;
          distinct = distinct;
          complete = λ y n e. elim (ℕ_discrete y x) [
            | yes same ↦ absurd (
                apart task n
                  (sym here ∙ ap (get_elem? (set a.slots x (occupied task))) (sym same) ∙ e))
            | no ne ↦ ground (arith, complete y n (sym (other y ne) ∙ e))
          ];
        },
        rw at refl,
        rw here refl,
        λ j ne. ap task_of (other j ne),
      )

  grow :
      (a : ThreadArena T) (task : T)
      → a.free_head ≡ none
      → IsValid a []
      → Inserted a task (insert_by a task none)
  unfolding get
  grow a task no_head v =
      let n = length a.slots in
      let more = a.slots ++ (occupied task ∷ []) in
      let below : (j : ℕ) → j < n → get_elem? more j ≡ get_elem? a.slots j =
        λ j lt. get_elem?-append_left a.slots (occupied task ∷ []) j lt in
      let last : get_elem? more n ≡ some (occupied task) =
        get_elem?-append_last a.slots (occupied task) in
      (
        n,
        record a { slots = more },
        [],
        refl,
        record {
          chain = subst (λ t. FreeChain more t []) (sym no_head) chain_end;
          distinct = tt;
          complete = λ y next e. elim (ℕ_discrete y n) [
            | yes same ↦ absurd (apart task next (sym last ∙ ap (get_elem? more) (sym same) ∙ e))
            | no ne ↦
                (let lt : y < n = omega (
                  arith,
                  lt-of_get_elem? more y (empty next) e,
                  length-append a.slots (occupied task ∷ []),
                  ne,
                ) in
                  absurd (true_ne_false (sym (v.complete y next (sym (below y lt) ∙ e)))))
          ];
        },
        ap task_of (get_elem?-ge a.slots n (omega arith)),
        rw last refl,
        λ j ne. elim (dec_lt j n) [
          | yes lt ↦ ap task_of (below j lt)
          | no ge ↦
              (let out : n + 1 ≤ j = omega (arith, ne, ge) in
                ap task_of (
                  get_elem?-ge more j
                    (omega (arith, out, length-append a.slots (occupied task ∷ [])))
                  ∙ sym (get_elem?-ge a.slots j (omega (arith, out)))))
        ],
      )

  insert_by-Inserted :
      (a : ThreadArena T) (task : T) (head : Option ℕ) (free : List ℕ)
      → a.free_head ≡ head
      → FreeChain a.slots head free
      → IsValid a free
      → Inserted a task (insert_by a task head)
  insert_by-Inserted a task none [] e chain_end v = grow a task e v
  insert_by-Inserted a task none (x ∷ xs) e c v = elim c [ ]
  insert_by-Inserted a task (some y) [] e c v = elim c [ ]
  insert_by-Inserted a task (some y) (x ∷ xs) e (chain_slot {next} z at rest) v =
      reuse a task x xs next at rest v.distinct v.complete

  -- On a valid arena `insert` does not panic and leaves it valid. The id it returns had no thread
  -- and now has the new one, and every other id keeps its own.
  pub insert-Inserted :
      (a : ThreadArena T) (task : T) {free : List ℕ}
      → IsValid a free
      → Inserted a task (insert a task)
  unfolding insert
  insert-Inserted a task {free} v = insert_by-Inserted a task a.free_head free refl v.chain v

  release :
      (a : ThreadArena T) (pid : ℕ) (task : T) {free : List ℕ}
      → IsValid a free
      → get_elem? a.slots pid ≡ some (occupied task)
      → Removed a pid (remove_slot a pid (some (occupied task)))
  unfolding get
  release a pid task {free} v at =
      let lt = lt-of_get_elem? a.slots pid (occupied task) at in
      let next = a.free_head in
      let left = set a.slots pid (empty next) in
      let here = get_elem?-set_self a.slots pid (empty next) lt in
      let other : (y : ℕ) → y ≢ pid → get_elem? left y ≡ get_elem? a.slots y =
        λ y ne. get_elem?-set_ne a.slots (empty next) (λ e. ne (sym e)) in
      let out : (y : ℕ) → has y free ≡ true → y ≢ pid = λ y i same.
        (let (n, e) = member_empty a.slots free y v.chain i in
          apart task n (sym at ∙ ap (get_elem? a.slots) (sym same) ∙ e)) in
      (
        record a { slots = left; free_head = some pid },
        pid ∷ free,
        rw at refl,
        record {
          chain =
              chain_slot pid here
                (FreeChain-same a.slots left free (λ y i s e. other y (out y i) ∙ e) v.chain);
          distinct = (ground (arith, out pid), v.distinct);
          complete = λ y n e. ground (arith, v.complete y n, other y, e);
        },
        rw here refl,
        λ j ne. ap task_of (other j ne),
      )

  restore :
      (a : ThreadArena T) (pid : ℕ) (n : Option ℕ) {free : List ℕ}
      → IsValid a free
      → get_elem? a.slots pid ≡ some (empty n)
      → Removed a pid (remove_slot a pid (some (empty n)))
  unfolding get
  restore a pid n {free} v at = (
    a,
    free,
    rw (at, set_back a.slots pid (empty a.free_head) (empty n) at) refl,
    v,
    rw at refl,
    λ j ne. refl,
  )

  remove_slot-Removed :
      (a : ThreadArena T) (pid : ℕ) {free : List ℕ} (slot : Option (ThreadSlot T))
      → IsValid a free
      → pid < length a.slots
      → get_elem? a.slots pid ≡ slot
      → Removed a pid (remove_slot a pid slot)
  remove_slot-Removed a pid (some (occupied task)) v lt at = release a pid task v at
  remove_slot-Removed a pid (some (empty n)) v lt at = restore a pid n v at
  remove_slot-Removed a pid none v lt at =
      (let (s, e) = get_elem?-lt a.slots pid lt in absurd (none-ne-some s (sym at ∙ e)))

  -- On a valid arena `remove` does not panic and leaves it valid. It returns the thread of the id,
  -- if there is one; then the id has none, and every other id keeps its own.
  pub remove-Removed :
      (a : ThreadArena T) (pid : ℕ) {free : List ℕ} → IsValid a free → Removed a pid (remove a pid)
  unfolding remove get
  remove-Removed a pid {free} v = elim (Bool-cases (leb (length a.slots) pid)) [
    | inl past ↦
        (let none_there = get_elem?-ge a.slots pid (leb→le (length a.slots) pid past) in
          rw past (a, free, rw none_there refl, v, rw none_there refl, λ j ne. refl))
    | inr inside ↦
        rw inside (remove_slot-Removed a pid (get_elem? a.slots pid) v (ground arith) refl)
  ]
