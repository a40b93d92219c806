-- ===== src/Sync/Ring/Spsc/Invariant.antt =====
-- What holds of the ring and of what each side has read, whatever the order of the steps.
use native.Mathlib.Nat.{mod-lt}
use kernel_r.Prelude.{
  ℕ, suc, ◌+◌, ◌%◌, ◌≤◌, ◌<◌, ◌≡◌, refl, sym, ◌∙◌, ap, ap₂, true, false, Option, none, some, List,
  [], ◌∷◌, ◌++◌, map, take, length, get_elem?, inl, inr, ok, word, ltb, lt→ltb, ◌==◌, if◌then◌else◌,
  store, store_self, store_ne, Bool-cases, length-append, take-append_left, take-suc, map-append,
  get_elem?-append_left, get_elem?-lt, arith,
}
use kernel_r.Sync.Ring.{RingBuffer, next_index}
use kernel_r.Sync.Ring.Counters.{mod-injective, next_index_lem, full_test, empty_test}
use kernel_r.Sync.Ring.Queue.{Slots, Slots-store, Slots-append, fresh_apart, emptied_apart}
use kernel_r.Sync.Ring.Spsc.{
  commit, deliver, Producer, quiet, pushing, push_head, push_both, push_stored, Consumer, idle,
  popping, pop_tail, pop_both, pop_taken, pop_cleared, producer_step, consumer_step, Shared,
}

-- What each side has read, with `p` items pushed and `c` popped. The index that it read of the
-- other side may be old.
pub data ProducerKnows {ℓ} {A : Type ℓ} (N : ℕ) (r : RingBuffer A) (p c : ℕ)
    : Producer A → Type ℓ where
  producer_quiet : ProducerKnows N r p c quiet
  producer_called : {item : A} → ProducerKnows N r p c (pushing item)
  producer_head : {item : A} {head : ℕ} → head ≡ p % N → ProducerKnows N r p c (push_head item head)
  producer_both :
      {item : A} {head tail : ℕ}
      → head ≡ p % N
      → (old : ℕ) → old ≤ c
      → p < old + N
      → tail ≡ old % N
      → ProducerKnows N r p c (push_both item head tail)
  producer_stored :
      {item : A} {next_head : ℕ}
      → next_head ≡ (p + 1) % N
      → p + 1 < c + N
      → r.buffer (p % N) ≡ some item
      → ProducerKnows N r p c (push_stored item next_head)

-- `from` is the first item that is still in its slot: `c`, and `c + 1` once its slot is emptied.
pub data ConsumerKnows {ℓ} {A : Type ℓ} (N : ℕ) (sent : List A) (c from : ℕ)
    : Consumer A → Type ℓ where
  consumer_idle : from ≡ c → ConsumerKnows N sent c from idle
  consumer_called : from ≡ c → ConsumerKnows N sent c from popping
  consumer_tail : {tail : ℕ} → from ≡ c → tail ≡ c % N → ConsumerKnows N sent c from (pop_tail tail)
  consumer_both :
      {tail head : ℕ}
      → from ≡ c
      → tail ≡ c % N
      → (old : ℕ) → c ≤ old
      → old ≤ length sent
      → head ≡ old % N
      → ConsumerKnows N sent c from (pop_both tail head)
  consumer_taken :
      {tail next_tail : ℕ} {item : Option A}
      → from ≡ suc c
      → tail ≡ c % N
      → next_tail ≡ suc c % N
      → c < length sent
      → get_elem? sent c ≡ item
      → ConsumerKnows N sent c from (pop_taken tail next_tail item)
  consumer_cleared :
      {next_tail : ℕ} {item : Option A}
      → from ≡ suc c
      → next_tail ≡ suc c % N
      → c < length sent
      → get_elem? sent c ≡ item
      → ConsumerKnows N sent c from (pop_cleared next_tail item)

pub record Inv {ℓ} {A : Type ℓ} (N : ℕ) (s : Shared A) : Type ℓ where
  pub taken : ℕ
  pub from : ℕ
  pub le : taken ≤ length s.sent
  pub room : length s.sent < taken + N
  pub head_at : s.ring.head ≡ length s.sent % N
  pub tail_at : s.ring.tail ≡ taken % N
  pub slots : Slots N s.ring.buffer s.sent from
  pub order : s.received ≡ map some (take taken s.sent)
  pub producer_knows : ProducerKnows N s.ring (length s.sent) taken s.producer
  pub consumer_knows : ConsumerKnows N s.sent taken from s.consumer

-- A step of the producer succeeds and keeps the invariant.
abbrev pub Produces {ℓ} : {A : Type ℓ} → ℕ → Shared A → Producer A → Type ℓ
Produces {A} N s p =
    (p' : Producer A) × (r' : RingBuffer A) × (producer_step N p s.ring ≡ ok (p', r'))
    × Inv N (record s { producer = p'; ring = r'; sent = commit p s.sent })

abbrev pub Consumes {ℓ} : {A : Type ℓ} → ℕ → Shared A → Consumer A → Type ℓ
Consumes {A} N s c =
    (c' : Consumer A) × (r' : RingBuffer A) × (consumer_step N c s.ring ≡ ok (c', r'))
    × Inv N (record s { consumer = c'; ring = r'; received = deliver c s.received })

from_bounds {ℓ} :
    {A : Type ℓ} {N : ℕ} {sent : List A} {c from : ℕ} {k : Consumer A}
    → ConsumerKnows N sent c from k
    → (c ≤ from) × (from ≤ suc c)
from_bounds (consumer_idle f) = (omega arith, omega arith)
from_bounds (consumer_called f) = (omega arith, omega arith)
from_bounds (consumer_tail f e) = (omega arith, omega arith)
from_bounds (consumer_both f e old le le' e') = (omega arith, omega arith)
from_bounds (consumer_taken f e e' lt at) = (omega arith, omega arith)
from_bounds (consumer_cleared f e' lt at) = (omega arith, omega arith)

consumer_grows {ℓ} :
    {A : Type ℓ} {N : ℕ} {sent : List A} {c from : ℕ} {k : Consumer A} (item : A)
    → ConsumerKnows N sent c from k
    → ConsumerKnows N (sent ++ (item ∷ [])) c from k
consumer_grows item (consumer_idle f) = consumer_idle f
consumer_grows item (consumer_called f) = consumer_called f
consumer_grows item (consumer_tail f e) = consumer_tail f e
consumer_grows {sent} item (consumer_both f e old le le' e') =
    consumer_both f e old le (omega (arith, le', length-append sent (item ∷ []))) e'
consumer_grows {sent} {c} item (consumer_taken f e e' lt at) =
    consumer_taken f e e' (omega (arith, lt, length-append sent (item ∷ [])))
      (get_elem?-append_left sent (item ∷ []) c lt ∙ at)
consumer_grows {sent} {c} item (consumer_cleared f e' lt at) =
    consumer_cleared f e' (omega (arith, lt, length-append sent (item ∷ [])))
      (get_elem?-append_left sent (item ∷ []) c lt ∙ at)

-- The producer's knowledge outlasts a slot emptied by the consumer, and a pop.
producer_keeps {ℓ} :
    {A : Type ℓ} {N : ℕ} {r : RingBuffer A} (r' : RingBuffer A) {p c c' : ℕ} {k : Producer A}
    → c ≤ c'
    → (p + 1 < c + N → r'.buffer (p % N) ≡ r.buffer (p % N))
    → ProducerKnows N r p c k
    → ProducerKnows N r' p c' k
producer_keeps r' le same producer_quiet = producer_quiet
producer_keeps r' le same producer_called = producer_called
producer_keeps r' le same (producer_head e) = producer_head e
producer_keeps r' le same (producer_both e old le' lt e') = producer_both e old (omega arith) lt e'
producer_keeps r' le same (producer_stored e lt at) = producer_stored e (omega arith) (same lt ∙ at)

module _ {ℓ} {A : Type ℓ} (N : ℕ) (pos : 0 < N) (small : N < word) (s : Shared A)
    (i : Inv N s) where
  -- A side that has only read.
  pub with_producer :
      (p : Producer A)
      → ProducerKnows N s.ring (length s.sent) i.taken p
      → Inv N (record s { producer = p })
  with_producer p knows = record {
    taken = i.taken;
    from = i.from;
    le = i.le;
    room = i.room;
    head_at = i.head_at;
    tail_at = i.tail_at;
    slots = i.slots;
    order = i.order;
    producer_knows = knows;
    consumer_knows = i.consumer_knows;
  }

  pub with_consumer :
      (c : Consumer A) → ConsumerKnows N s.sent i.taken i.from c → Inv N (record s { consumer = c })
  with_consumer c knows = record {
    taken = i.taken;
    from = i.from;
    le = i.le;
    room = i.room;
    head_at = i.head_at;
    tail_at = i.tail_at;
    slots = i.slots;
    order = i.order;
    producer_knows = i.producer_knows;
    consumer_knows = knows;
  }

  -- The write of `push`. The tail it was checked against may be old: then there is more room.
  stored_Inv :
      (item : A) (old : ℕ)
      → old ≤ i.taken
      → length s.sent + 1 < old + N
      → Inv N (record s {
        producer = push_stored item ((length s.sent + 1) % N);
        ring = record s.ring { buffer = store s.ring.buffer (length s.sent % N) (some item) };
      })
  stored_Inv item old le lt = record {
    taken = i.taken;
    from = i.from;
    le = i.le;
    room = i.room;
    head_at = i.head_at;
    tail_at = i.tail_at;
    slots =
        Slots-store N s.ring.buffer s.sent (length s.sent) (some item)
          (λ k a b.
            fresh_apart N s.sent i.taken i.room k
              (omega (arith, a, (from_bounds i.consumer_knows).0)) b)
          i.slots;
    order = i.order;
    producer_knows =
        producer_stored refl (omega (arith, le, lt))
          (store_self s.ring.buffer (length s.sent % N) (some item));
    consumer_knows = i.consumer_knows;
  }

  pub produce-Inv :
      (p : Producer A) → ProducerKnows N s.ring (length s.sent) i.taken p → Produces N s p
  unfolding producer_step
  produce-Inv quiet producer_quiet = (quiet, s.ring, refl, with_producer quiet producer_quiet)
  produce-Inv (pushing item) producer_called =
      (push_head item s.ring.head, s.ring, refl, with_producer _ (producer_head i.head_at))
  produce-Inv (push_head item head) (producer_head e) = (
    push_both item head s.ring.tail,
    s.ring,
    refl,
    with_producer _ (producer_both e i.taken (omega arith) i.room i.tail_at),
  )
  produce-Inv (push_both item head tail) (producer_both e old le lt e') =
      let next : next_index N head ≡ ok ((length s.sent + 1) % N) =
        ap (next_index N) e ∙ next_index_lem N (length s.sent) pos small in
      let is_full : ((length s.sent + 1) % N == tail)
          ≡ (if length s.sent + 1 == old + N then true else false) =
        ap (λ (t : ℕ). (length s.sent + 1) % N == t) e'
        ∙ full_test N (length s.sent) old (omega (arith, le, i.le)) lt in
      let inside : ltb head N ≡ true =
        ap (λ (t : ℕ). ltb t N) e ∙ lt→ltb (length s.sent % N) N (mod-lt (length s.sent) pos) in
      elim (Bool-cases ((length s.sent + 1) % N == tail)) [
        | inl full ↦ rw (next, full) (quiet, s.ring, refl, with_producer quiet producer_quiet)
        | inr room ↦
            let lt' : length s.sent + 1 < old + N = ground (arith, lt, is_full, room) in
            rw (next, room, inside, e)
              (
                push_stored item ((length s.sent + 1) % N),
                record s.ring { buffer = store s.ring.buffer (length s.sent % N) (some item) },
                refl,
                stored_Inv item old le lt',
              )
      ]
  produce-Inv (push_stored item next_head) (producer_stored e lt at) = (
    quiet,
    record s.ring { head = next_head },
    refl,
    record {
      taken = i.taken;
      from = i.from;
      le = omega (arith, i.le, length-append s.sent (item ∷ []));
      room = omega (arith, lt, length-append s.sent (item ∷ []));
      head_at = e ∙ ap (λ (t : ℕ). t % N) (sym (length-append s.sent (item ∷ [])));
      tail_at = i.tail_at;
      slots = Slots-append N s.ring.buffer s.sent item at i.slots;
      order = i.order ∙ ap (map some) (sym (take-append_left i.taken s.sent (item ∷ []) i.le));
      producer_knows = producer_quiet;
      consumer_knows = consumer_grows item i.consumer_knows;
    },
  )

  -- The slot of the item being popped is emptied: the producer's slot is another.
  emptied_Inv :
      (c : Consumer A)
      → i.taken < length s.sent
      → ConsumerKnows N s.sent i.taken (suc i.taken) c
      → Inv N (record s {
        consumer = c;
        ring = record s.ring { buffer = store s.ring.buffer (i.taken % N) none };
      })
  emptied_Inv c lt knows = record {
    taken = i.taken;
    from = suc i.taken;
    le = i.le;
    room = i.room;
    head_at = i.head_at;
    tail_at = i.tail_at;
    slots =
        Slots-store N s.ring.buffer s.sent i.taken none (emptied_apart N s.sent i.taken i.room)
          (λ k a b. i.slots k (omega (arith, a, (from_bounds i.consumer_knows).1)) b);
    order = i.order;
    producer_knows =
        producer_keeps _ (omega arith)
          (λ room. store_ne s.ring.buffer (i.taken % N) (length s.sent % N) none (λ e.
            omega
              (arith, lt, mod-injective N i.taken (length s.sent) i.le (omega (arith, room)) e)))
          i.producer_knows;
    consumer_knows = knows;
  }

  pub consume-Inv : (c : Consumer A) → ConsumerKnows N s.sent i.taken i.from c → Consumes N s c
  unfolding consumer_step
  consume-Inv idle (consumer_idle f) = (idle, s.ring, refl, with_consumer idle (consumer_idle f))
  consume-Inv popping (consumer_called f) =
      (pop_tail s.ring.tail, s.ring, refl, with_consumer _ (consumer_tail f i.tail_at))
  consume-Inv (pop_tail tail) (consumer_tail f e) = (
    pop_both tail s.ring.head,
    s.ring,
    refl,
    with_consumer _ (consumer_both f e (length s.sent) i.le (omega arith) i.head_at),
  )
  consume-Inv (pop_both tail head) (consumer_both f e old le le' e') =
      let next : next_index N tail ≡ ok ((i.taken + 1) % N) =
        ap (next_index N) e ∙ next_index_lem N i.taken pos small in
      let is_empty : (tail == head) ≡ (i.taken == old) =
        ap (λ (t : ℕ). t == head) e
        ∙ ap (λ (t : ℕ). i.taken % N == t) e'
        ∙ empty_test N old i.taken le (omega (arith, le', i.room)) in
      let inside : ltb tail N ≡ true =
        ap (λ (t : ℕ). ltb t N) e ∙ lt→ltb (i.taken % N) N (mod-lt i.taken pos) in
      elim (Bool-cases (tail == head)) [
        | inl empty ↦ rw (next, empty) (idle, s.ring, refl, with_consumer idle (consumer_idle f))
        | inr left ↦
            let lt : i.taken < length s.sent = ground (arith, le, le', is_empty, left) in
            let at : get_elem? s.sent i.taken ≡ s.ring.buffer (i.taken % N) =
              sym (i.slots i.taken (omega (arith, f)) lt) in
            rw (next, left, inside, e)
              (
                pop_taken (i.taken % N) ((i.taken + 1) % N) (s.ring.buffer (i.taken % N)),
                record s.ring { buffer = store s.ring.buffer (i.taken % N) none },
                refl,
                emptied_Inv _ lt (
                    consumer_taken refl refl
                      (ap (λ (t : ℕ). t % N) {x = i.taken + 1} {y = suc i.taken} (omega arith)) lt
                      at),
              )
      ]
  consume-Inv (pop_taken tail next_tail item) (consumer_taken f e e' lt at) =
      let inside : ltb tail N ≡ true =
        ap (λ (t : ℕ). ltb t N) e ∙ lt→ltb (i.taken % N) N (mod-lt i.taken pos) in
      rw (inside, e)
        (
          pop_cleared next_tail item,
          record s.ring { buffer = store s.ring.buffer (i.taken % N) none },
          refl,
          emptied_Inv _ lt (consumer_cleared refl e' lt at),
        )
  consume-Inv (pop_cleared next_tail item) (consumer_cleared f e lt at) =
      let (x, at') = get_elem?-lt s.sent i.taken lt in
      (
        idle,
        record s.ring { tail = next_tail },
        refl,
        record {
          taken = suc i.taken;
          from = i.from;
          le = lt;
          room = omega (arith, i.room);
          head_at = i.head_at;
          tail_at = e;
          slots = i.slots;
          order =
              ap₂ (λ u v. u ++ (v ∷ [])) i.order (sym at ∙ at')
              ∙ sym (map-append some (take i.taken s.sent) (x ∷ []))
              ∙ ap (map some) (take-suc s.sent i.taken x at');
          producer_knows = producer_keeps _ (omega arith) (λ room. refl) i.producer_knows;
          consumer_knows = consumer_idle f;
        },
      )
