-- ===== src/Sync/Blocking.antt =====
-- src/sync/sync.rs: `wake_one`, and the rounds of `Semaphore` and `Mutex`. With interrupts disabled
-- on one processor a round of `acquire` or `lock`, up to its `int 0x20`, is one step for all others.
pub mod Rounds
pub mod Locks
mod Tests
use kernel_r.Prelude.{
  ℕ, ◌+◌, ◌-◌, ◌%◌, Run, ok, panic, ◌>>=◌, Option, none, some, List, [], ◌∷◌, ◌++◌, Bool, true,
  false, ltb, word, if◌then◌else◌,
}
use kernel_r.Process.Arena.{get, put}
use kernel_r.Process.State.{Scheduler, WaitQueue, new_queue, blocked}
use kernel_r.Process.Scheduler.{RunQueue, wake_task, unwrap}

pub record Semaphore : Type 0 where
  pub wait_queue : WaitQueue
  pub count : ℕ

unfoldable pub new_semaphore : ℕ → Semaphore
new_semaphore initial_count = record { wait_queue = new_queue; count = initial_count }

pub record Mutex {ℓ} (T : Type ℓ) : Type ℓ where
  pub is_locked : Bool
  pub wait_queue : WaitQueue
  pub data_cell : T

unfoldable pub new_mutex {ℓ} : {T : Type ℓ} → T → Mutex T
new_mutex v = record { is_locked = false; wait_queue = new_queue; data_cell = v }

-- The fetch_add of `release`, which wraps.
abbrev pub release_add : Semaphore → Semaphore
release_add sem = record sem { count = (sem.count + 1) % word }

module _ {Q : Type 0} where
  -- The thread that runs goes to sleep: its state, and its place in the queue.
  unfoldable pub wait_on : WaitQueue → Scheduler Q → Run (WaitQueue × Scheduler Q)
  wait_on w s = do
    current_id ← unwrap s.current_task
    task ← unwrap (get s.tasks current_id)
    ok (
      record w { waiters = w.waiters ++ (current_id ∷ []) },
      record s { tasks = put s.tasks current_id (record task { state = blocked }) },
    )

  -- A round of `acquire`: whether it returns. The weak exchange may fail though nothing changed, as
  -- `exchanged` says.
  unfoldable pub acquire_round :
      Bool → Semaphore → Scheduler Q → Run (Bool × Semaphore × Scheduler Q)
  acquire_round exchanged sem s =
      let sleeps = (do
        (w, waiting) ← wait_on sem.wait_queue s
        ok (false, record sem { wait_queue = w }, waiting)) in
      if ltb 0 sem.count
      then (if exchanged
          then ok (true, record sem { count = sem.count - 1 }, s)
          else ok (false, sem, s))
      else sleeps

  -- A round of `lock`.
  unfoldable pub lock_round {ℓ} :
      {T : Type ℓ} → Mutex T → Scheduler Q → Run (Bool × Mutex T × Scheduler Q)
  lock_round m s =
      let sleeps = (do
        (w, waiting) ← wait_on m.wait_queue s
        ok (false, record m { wait_queue = w }, waiting)) in
      if m.is_locked then sleeps else ok (true, record m { is_locked = true }, s)

  module _ (queue : RunQueue Q) where
    abbrev pub wake_first :
        List ℕ → WaitQueue → Scheduler Q → Run (Option ℕ × WaitQueue × Scheduler Q)
    wake_first [] w s = ok (none, w, s)
    wake_first (id ∷ rest) w s = do
      woken ← wake_task queue s id
      ok (some id, record w { waiters = rest }, woken)

    unfoldable pub wake_one : WaitQueue → Scheduler Q → Run (Option ℕ × WaitQueue × Scheduler Q)
    wake_one w s = wake_first w.waiters w s

    unfoldable pub release : Semaphore → Scheduler Q → Run (Semaphore × Scheduler Q)
    release sem s = do
      let added = release_add sem
      (id, w, woken) ← wake_one added.wait_queue s
      ok (record added { wait_queue = w }, woken)

    -- `drop` of a MutexGuard.
    unfoldable pub drop_guard {ℓ} :
        {T : Type ℓ} → Mutex T → Scheduler Q → Run (Mutex T × Scheduler Q)
    drop_guard m s = do
      (id, w, woken) ← wake_one m.wait_queue s
      ok (record m { is_locked = false; wait_queue = w }, woken)
