-- ===== src/Sync/Blocking/Tests.antt =====
-- An instance of each theorem, with thread 3 running and thread 4 waiting.
use kernel_r.Prelude.{ℕ, ◌≡◌, refl, ok, List, [], ◌∷◌, Bool, true, false, arith}
use kernel_r.Process.State.{Scheduler, SchedNode, ready}
use kernel_r.Process.Scheduler.Tick.{IsScheduler}
use kernel_r.Process.Tests.Five.{queue, thread, five, five-IsScheduler, five_three}
use kernel_r.Sync.Blocking.{Semaphore, Mutex, acquire_round, lock_round}
use kernel_r.Sync.Blocking.Rounds.{Runs}
use kernel_r.Sync.Blocking.Locks.{Acquired, acquire_round-Acquired, HasLock, lock_round-HasLock}

abbrev empty_semaphore : Semaphore
empty_semaphore = record { wait_queue = record { waiters = 4 ∷ [] }; count = 0 }

five-Runs : Runs five 0 3 (thread 3 ready (4 ∷ []))
five-Runs = record { current = refl; thread = five_three; live = refl; other = omega arith }

acquire_round-Acquired_example :
    (done : Bool) × (sem' : Semaphore) × (s' : Scheduler (List SchedNode)) × (acquire_round true
        empty_semaphore five
      ≡ ok (done, sem', s'))
    × IsScheduler queue s' 0 []
    × Acquired queue true empty_semaphore five 0 3 (thread 3 ready (4 ∷ [])) [] done sem' s'
acquire_round-Acquired_example =
    acquire_round-Acquired queue true empty_semaphore five 0 3 (thread 3 ready (4 ∷ []))
      five-IsScheduler five-Runs

abbrev unlocked : Mutex ℕ
unlocked = record { is_locked = false; wait_queue = record { waiters = 4 ∷ [] }; data_cell = 9 }

lock_round-HasLock_example :
    (m' : Mutex ℕ) × (lock_round unlocked five ≡ ok (true, m', five))
    × HasLock queue m' 0 five 3 (thread 3 ready (4 ∷ [])) [] five []
lock_round-HasLock_example =
    lock_round-HasLock queue unlocked five five five 0 3 (thread 3 ready (4 ∷ [])) refl
      five-IsScheduler five-Runs five-IsScheduler
