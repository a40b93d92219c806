-- ===== src/Sync/Ring/Queue.antt =====
-- The ring as a bounded first-in first-out queue, one operation after another.
use native.Mathlib.Nat.{mod-lt}
use native.Mathlib.Decide.{ℕ_discrete}
use kernel_r.Prelude.{
  ℕ, suc, ◌+◌, ◌%◌, ◌≤◌, ◌<◌, ◌≡◌, ◌≢◌, refl, sym, ◌∙◌, ap, true, false, Option, none, some, List,
  [], ◌∷◌, ◌++◌, length, get_elem?, inl, inr, ok, word, ltb, lt→ltb, ◌==◌, if◌then◌else◌, store,
  store_self, store_ne, length-append, get_elem?-append_left, get_elem?-append_last, get_elem?-lt,
  arith,
}
use kernel_r.Sync.Ring.{RingBuffer, push, pop, next_index}
use kernel_r.Sync.Ring.Counters.{mod-injective, next_index_lem, full_test, empty_test}

-- The slots of the items of `sent` from number `from` on hold them.
abbrev pub Slots {ℓ} : {A : Type ℓ} → ℕ → (ℕ → Option A) → List A → ℕ → Type ℓ
Slots N buffer sent from = (k : ℕ) → from ≤ k → k < length sent → buffer (k % N) ≡ get_elem? sent k

-- A ring into which `sent` has been pushed and from which the first `taken` of it have been popped.
pub record Holds {ℓ} {A : Type ℓ} (N : ℕ) (r : RingBuffer A) (sent : List A) (taken : ℕ)
    : Type ℓ where
  pub le : taken ≤ length sent
  pub room : length sent < taken + N
  pub head_at : r.head ≡ length sent % N
  pub tail_at : r.tail ≡ taken % N
  pub slots : Slots N r.buffer sent taken

module _ {ℓ} {A : Type ℓ} (N : ℕ) where
  -- A slot outside the ones in use can be written.
  pub Slots-store :
      (buffer : ℕ → Option A) (sent : List A) {from : ℕ} (i : ℕ) (v : Option A)
      → ((k : ℕ) → from ≤ k → k < length sent → i % N ≢ k % N)
      → Slots N buffer sent from
      → Slots N (store buffer (i % N) v) sent from
  Slots-store buffer sent i v apart slots k le lt =
      store_ne buffer (i % N) (k % N) v (apart k le lt) ∙ slots k le lt

  -- The item behind the last one is in its slot when it is added to the history.
  pub Slots-append :
      (buffer : ℕ → Option A) (sent : List A) {from : ℕ} (item : A)
      → buffer (length sent % N) ≡ some item
      → Slots N buffer sent from
      → Slots N buffer (sent ++ (item ∷ [])) from
  Slots-append buffer sent item at slots k le lt = elim (ℕ_discrete k (length sent)) [
    | yes e ↦
        ap (λ (t : ℕ). buffer (t % N)) e
        ∙ at
        ∙ sym (get_elem?-append_last sent item)
        ∙ ap (get_elem? (sent ++ (item ∷ []))) (sym e)
    | no ne ↦
        (let below : k < length sent = omega (arith, length-append sent (item ∷ []), lt, ne) in
          slots k le below ∙ sym (get_elem?-append_left sent (item ∷ []) k below))
  ]

  -- Neither the slot for the next item nor one that was just emptied is in use.
  pub fresh_apart :
      (sent : List A) (from : ℕ)
      → length sent < from + N
      → (k : ℕ) → from ≤ k
      → k < length sent
      → length sent % N ≢ k % N
  fresh_apart sent from room k le lt e =
      omega (arith, mod-injective N k (length sent) (omega arith) (omega arith) (sym e))

  pub emptied_apart :
      (sent : List A) (from : ℕ)
      → length sent < from + N
      → (k : ℕ) → suc from ≤ k
      → k < length sent
      → from % N ≢ k % N
  emptied_apart sent from room k le lt e =
      omega (arith, mod-injective N from k (omega arith) (omega arith) e)

  pushed-Slots :
      {r : RingBuffer A} {sent : List A} {taken : ℕ} (item : A)
      → Holds N r sent taken
      → Slots N (store r.buffer r.head (some item)) (sent ++ (item ∷ [])) taken
  pushed-Slots {r} {sent} {taken} item h = rw h.head_at (
      Slots-append (store r.buffer (length sent % N) (some item)) sent item
        (store_self r.buffer (length sent % N) (some item))
        (Slots-store r.buffer sent (length sent) (some item) (fresh_apart sent taken h.room)
          h.slots))

  -- `push` never panics on a ring in use. It appends its item, unless the ring has all the `N - 1`
  -- items it can hold: then it hands the item back and changes nothing.
  pub push-Holds :
      {r : RingBuffer A} {sent : List A} {taken : ℕ} (item : A)
      → 0 < N
      → N < word
      → Holds N r sent taken
      → (length sent + 1 < taken + N
          → (r' : RingBuffer A) × (push N r item ≡ ok (inl tt, r'))
            × Holds N r' (sent ++ (item ∷ [])) taken)
        × (length sent + 1 ≡ taken + N → push N r item ≡ ok (inr item, r))
  unfolding push
  push-Holds {r} {sent} {taken} item pos small h =
      let next : next_index N r.head ≡ ok ((length sent + 1) % N) =
        ap (next_index N) h.head_at ∙ next_index_lem N (length sent) pos small in
      let is_full : ((length sent + 1) % N == r.tail)
          ≡ (if length sent + 1 == taken + N then true else false) =
        ap (λ (t : ℕ). (length sent + 1) % N == t) h.tail_at
        ∙ full_test N (length sent) taken h.le h.room in
      let inside : ltb r.head N ≡ true =
        ap (λ (t : ℕ). ltb t N) h.head_at ∙ lt→ltb (length sent % N) N (mod-lt (length sent) pos) in
      (
        λ room.
            let not_full : ((length sent + 1) % N == r.tail) ≡ false = is_full ∙ ground arith in
            (
              record r { buffer = store r.buffer r.head (some item); head = (length sent + 1) % N },
              rw (next, not_full, inside) refl,
              record {
                le = omega (arith, h.le, length-append sent (item ∷ []));
                room = omega (arith, room, length-append sent (item ∷ []));
                head_at = ap (λ (t : ℕ). t % N) (sym (length-append sent (item ∷ [])));
                tail_at = h.tail_at;
                slots = pushed-Slots item h;
              },
            ),
        λ full.
            let full' : ((length sent + 1) % N == r.tail) ≡ true = is_full ∙ ground arith in
            rw (next, full') refl,
      )

  -- `pop` never panics on a ring in use. It returns the items in the order in which they were
  -- pushed, each once, and `None` exactly when all have been returned: then it changes nothing.
  pub pop-Holds :
      {r : RingBuffer A} {sent : List A} {taken : ℕ}
      → 0 < N
      → N < word
      → Holds N r sent taken
      → (taken < length sent
          → (item : A) × (r' : RingBuffer A) × (pop N r ≡ ok (some item, r'))
            × (get_elem? sent taken ≡ some item)
            × Holds N r' sent (suc taken))
        × (taken ≡ length sent → pop N r ≡ ok (none, r))
  unfolding pop
  pop-Holds {r} {sent} {taken} pos small h =
      let next : next_index N r.tail ≡ ok ((taken + 1) % N) =
        ap (next_index N) h.tail_at ∙ next_index_lem N taken pos small in
      let is_empty : (r.tail == r.head) ≡ (taken == length sent) =
        ap (λ (t : ℕ). t == r.head) h.tail_at
        ∙ ap (λ (t : ℕ). taken % N == t) h.head_at
        ∙ empty_test N (length sent) taken h.le h.room in
      let inside : ltb r.tail N ≡ true =
        ap (λ (t : ℕ). ltb t N) h.tail_at ∙ lt→ltb (taken % N) N (mod-lt taken pos) in
      (
        λ some_left.
            let not_empty : (r.tail == r.head) ≡ false = is_empty ∙ ground arith in
            let (item, at) = get_elem?-lt sent taken some_left in
            let found : r.buffer r.tail ≡ some item =
              ap r.buffer h.tail_at ∙ h.slots taken (omega arith) some_left ∙ at in
            (
              item,
              record r { buffer = store r.buffer r.tail none; tail = (taken + 1) % N },
              rw (next, not_empty, inside, found) refl,
              at,
              record {
                le = some_left;
                room = omega (arith, h.room);
                head_at = h.head_at;
                tail_at = ap (λ (t : ℕ). t % N) {x = taken + 1} {y = suc taken} (omega arith);
                slots = rw h.tail_at (
                    Slots-store r.buffer sent taken none (emptied_apart sent taken h.room)
                      (λ k le lt. h.slots k (omega arith) lt));
              },
            ),
        λ all_taken.
            let is_empty' : (r.tail == r.head) ≡ true = is_empty ∙ ground arith in
            rw (next, is_empty') refl,
      )
