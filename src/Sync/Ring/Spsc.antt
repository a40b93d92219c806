-- ===== src/Sync/Ring/Spsc.antt =====
-- `push` and `pop` of src/sync/queue.rs as sequences of memory accesses, one step each, so that a
-- producer and a consumer can interleave. Release and acquire order the slot accesses as the
-- steps do, so the accesses are taken to happen in some one order.
pub mod Invariant
pub mod Reach
use kernel_r.Prelude.{
  ℕ, Option, none, some, List, [], ◌∷◌, ◌++◌, Run, ok, ◌>>=◌, ◌>>◌, require, ltb, ◌==◌,
  if◌then◌else◌, store, ◌≡◌, Bool, true, false, ◌⊎◌, inl, inr,
}
use kernel_r.Sync.Ring.{RingBuffer, next_index, new, push, pop}

-- Where the producer is in `push`, with the values it has read.
pub data Producer {ℓ} (A : Type ℓ) : Type ℓ where
  quiet : Producer A
  pushing : A → Producer A
  push_head : A → ℕ → Producer A
  push_both : A → ℕ → ℕ → Producer A
  push_stored : A → ℕ → Producer A

-- Where the consumer is in `pop`.
pub data Consumer {ℓ} (A : Type ℓ) : Type ℓ where
  idle : Consumer A
  popping : Consumer A
  pop_tail : ℕ → Consumer A
  pop_both : ℕ → ℕ → Consumer A
  pop_taken : ℕ → ℕ → Option A → Consumer A
  pop_cleared : ℕ → Option A → Consumer A

unfoldable pub producer_step {ℓ} :
    {A : Type ℓ} → ℕ → Producer A → RingBuffer A → Run (Producer A × RingBuffer A)
producer_step N quiet r = ok (quiet, r)
producer_step N (pushing item) r = ok (push_head item r.head, r)
producer_step N (push_head item head) r = ok (push_both item head r.tail, r)
producer_step N (push_both item head tail) r = do
  next_head ← next_index N head
  if next_head == tail then ok (quiet, r) else do
    require (ltb head N)
    ok (push_stored item next_head, record r { buffer = store r.buffer head (some item) })
producer_step N (push_stored item next_head) r = ok (quiet, record r { head = next_head })

unfoldable pub consumer_step {ℓ} :
    {A : Type ℓ} → ℕ → Consumer A → RingBuffer A → Run (Consumer A × RingBuffer A)
consumer_step N idle r = ok (idle, r)
consumer_step N popping r = ok (pop_tail r.tail, r)
consumer_step N (pop_tail tail) r = ok (pop_both tail r.head, r)
consumer_step N (pop_both tail head) r = do
  next_tail ← next_index N tail
  if tail == head then ok (idle, r) else do
    require (ltb tail N)
    ok (pop_taken tail next_tail (r.buffer tail), record r { buffer = store r.buffer tail none })
consumer_step N (pop_taken tail next_tail item) r = do
  require (ltb tail N)
  ok (pop_cleared next_tail item, record r { buffer = store r.buffer tail none })
consumer_step N (pop_cleared next_tail item) r = ok (idle, record r { tail = next_tail })

-- The ring with its two users, and what has been pushed and what has been returned so far.
pub record Shared {ℓ} (A : Type ℓ) : Type ℓ where
  pub ring : RingBuffer A
  pub producer : Producer A
  pub consumer : Consumer A
  pub sent : List A
  pub received : List (Option A)

unfoldable pub start {ℓ} : {A : Type ℓ} → Shared A
unfolding new
start = record { ring = new; producer = quiet; consumer = idle; sent = []; received = [] }

-- The last step of a `push` adds its item to the history, and that of a `pop` returns its own.
abbrev pub commit {ℓ} : {A : Type ℓ} → Producer A → List A → List A
commit (push_stored item next_head) sent = sent ++ (item ∷ [])
commit _ sent = sent

abbrev pub deliver {ℓ} : {A : Type ℓ} → Consumer A → List (Option A) → List (Option A)
deliver (pop_cleared next_tail item) received = received ++ (item ∷ [])
deliver _ received = received

pub data Step {ℓ} {A : Type ℓ} (N : ℕ) : Shared A → Shared A → Type ℓ where
  call_push :
      (s : Shared A) (item : A)
      → s.producer ≡ quiet
      → Step N s (record s { producer = pushing item })
  call_pop : (s : Shared A) → s.consumer ≡ idle → Step N s (record s { consumer = popping })
  produce :
      (s : Shared A) (p : Producer A) (r : RingBuffer A)
      → producer_step N s.producer s.ring ≡ ok (p, r)
      → Step N s (record s { producer = p; ring = r; sent = commit s.producer s.sent })
  consume :
      (s : Shared A) (c : Consumer A) (r : RingBuffer A)
      → consumer_step N s.consumer s.ring ≡ ok (c, r)
      → Step N s (record s { consumer = c; ring = r; received = deliver s.consumer s.received })

pub data Reachable {ℓ} {A : Type ℓ} (N : ℕ) : Shared A → Type ℓ where
  at_start : Reachable N start
  after : (s s' : Shared A) → Reachable N s → Step N s s' → Reachable N s'
