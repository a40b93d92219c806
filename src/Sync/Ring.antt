-- ===== src/Sync/Ring.antt =====
-- src/sync/queue.rs: the single-producer single-consumer ring buffer. `N` is the const parameter,
-- and the array is read and written only below it. `Ok(())` is `inl tt`, `Err(item)` is `inr item`.
pub mod Counters
pub mod Queue
pub mod Spsc
mod Tests
use kernel_r.Prelude.{
  ℕ, ◌%◌, Option, none, some, ◌⊎◌, inl, inr, Run, ok, panic, ◌>>=◌, ◌>>◌, require, add_u64, ltb,
  ◌==◌, if◌then◌else◌, store,
}

pub record RingBuffer {ℓ} (A : Type ℓ) : Type ℓ where
  pub buffer : ℕ → Option A
  pub head : ℕ
  pub tail : ℕ

-- (i + 1) % N; a remainder by zero panics.
unfoldable pub next_index : ℕ → ℕ → Run ℕ
next_index N i = do next ← add_u64 i 1; if N == 0 then panic else ok (next % N)

unfoldable pub new {ℓ} : {A : Type ℓ} → RingBuffer A
new = record { buffer = λ i. none; head = 0; tail = 0 }

unfoldable pub push {ℓ} : {A : Type ℓ} → ℕ → RingBuffer A → A → Run ((Unit {0} ⊎ A) × RingBuffer A)
push N r item = do
  next_head ← next_index N r.head
  if next_head == r.tail then ok (inr item, r) else do
    require (ltb r.head N)
    ok (inl tt, record r { buffer = store r.buffer r.head (some item); head = next_head })

unfoldable pub pop {ℓ} : {A : Type ℓ} → ℕ → RingBuffer A → Run (Option A × RingBuffer A)
pop N r = do
  next_tail ← next_index N r.tail
  if r.tail == r.head then ok (none, r) else do
    require (ltb r.tail N)
    ok (r.buffer r.tail, record r { buffer = store r.buffer r.tail none; tail = next_tail })
