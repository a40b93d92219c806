-- ===== src/Sync/Blocking/Locks.antt =====
-- The semaphore counts its permits, and the mutex has one holder.
use native.Mathlib.Nat.{mod-eq_of_lt}
use kernel_r.Prelude.{
  ℕ, ◌+◌, ◌-◌, ◌%◌, ◌<◌, ◌≡◌, refl, inl, inr, ◌⊎◌, ok, Option, List, Bool, true, false, ltb, word,
  arith, Bool-cases,
}
use kernel_r.Process.State.{Thread, Scheduler}
use kernel_r.Process.Scheduler.{RunQueue}
use kernel_r.Process.Scheduler.Tick.{IsScheduler}
use kernel_r.Sync.Blocking.{Semaphore, Mutex, acquire_round, lock_round, release, drop_guard}
use kernel_r.Sync.Blocking.Rounds.{Runs, Waits, wait_on-Waits, FirstWoken, wake_one-FirstWoken}

module _ {Q : Type 0} (queue : RunQueue Q) where
  -- A round of acquire takes a permit and returns; or there is none, and the thread waits at the end
  -- of the queue; or the weak exchange failed, and nothing is changed.
  abbrev pub Acquired :
      Bool
      → Semaphore
      → Scheduler Q
      → (idle t : ℕ) → Thread
      → List ℕ
      → Bool
      → Semaphore
      → Scheduler Q
      → Type 0
  Acquired exchanged sem s idle t task free true sem' s' =
      (sem'.count + 1 ≡ sem.count) × (sem'.wait_queue ≡ sem.wait_queue) × (s' ≡ s)
  Acquired exchanged sem s idle t task free false sem' s' =
      (sem'.count ≡ sem.count)
      × (((sem.count ≡ 0) × Waits queue sem.wait_queue s idle t task free sem'.wait_queue s')
          ⊎ ((exchanged ≡ false) × (0 < sem.count) × (sem' ≡ sem) × (s' ≡ s)))

  -- With the invariant and a live running thread a round of acquire does not panic, keeps the
  -- invariant, and does one of the three.
  pub acquire_round-Acquired :
      (exchanged : Bool) (sem : Semaphore) (s : Scheduler Q) (idle t : ℕ) (task : Thread)
      {free : List ℕ}
      → IsScheduler queue s idle free
      → Runs s idle t task
      → (done : Bool) × (sem' : Semaphore) × (s' : Scheduler Q) × (acquire_round exchanged sem s
          ≡ ok (done, sem', s'))
        × IsScheduler queue s' idle free
        × Acquired exchanged sem s idle t task free done sem' s'
  unfolding acquire_round
  acquire_round-Acquired exchanged sem s idle t task v r = elim (Bool-cases (ltb 0 sem.count)) [
    | inr no_permit ↦
        (let (w', s', run, waits) = wait_on-Waits queue sem.wait_queue s idle t task v r in
          (
            false,
            record sem { wait_queue = w' },
            s',
            rw (no_permit, run) refl,
            waits.0,
            (refl, inl (ground (arith, no_permit), waits)),
          ))
    | inl permit ↦ elim (Bool-cases exchanged) [
      | inl swapped ↦ (
        true,
        record sem { count = sem.count - 1 },
        s,
        rw (permit, swapped) refl,
        v,
        (ground (arith, permit), refl, refl),
      )
      | inr missed ↦ (
        false,
        sem,
        s,
        rw (permit, missed) refl,
        v,
        (refl, inr (missed, ground (arith, permit), refl, refl)),
      )
    ]
  ]

  -- With the invariant release does not panic and keeps it: there is one permit more, and the head of
  -- the queue, if there is one, is taken off and awake.
  pub release-FirstWoken :
      (sem : Semaphore) (s : Scheduler Q) (idle : ℕ) {free : List ℕ}
      → IsScheduler queue s idle free
      → sem.count + 1 < word
      → (sem' : Semaphore) × (s' : Scheduler Q) × (release queue sem s ≡ ok (sem', s'))
        × IsScheduler queue s' idle free
        × (sem'.count ≡ sem.count + 1)
        × ((id : Option ℕ) × FirstWoken queue sem.wait_queue.waiters s idle free id sem'.wait_queue
              s')
  unfolding release
  release-FirstWoken sem s idle v room =
      let (id, w', s', run, v', woken) = wake_one-FirstWoken queue sem.wait_queue s idle v in
      (
        record sem { count = (sem.count + 1) % word; wait_queue = w' },
        s',
        rw run refl,
        v',
        mod-eq_of_lt {n = sem.count + 1} {m = word} room,
        (id, woken),
      )

  -- What a thread that has the lock can rely on: in `s₁` a round of another thread waits, and in
  -- `s₂` dropping the guard wakes the first that waits, after which a round of any thread gets it.
  abbrev pub HasLock :
      {T : Type 0}
      → Mutex T
      → (idle : ℕ) → (s₁ : Scheduler Q) → (t : ℕ) → Thread
      → (free₁ : List ℕ) → (s₂ : Scheduler Q) → (free₂ : List ℕ) → Type 0
  HasLock {T} m idle s₁ t task free₁ s₂ free₂ =
      ((m' : Mutex T) × (s' : Scheduler Q) × (lock_round m s₁ ≡ ok (false, m', s'))
        × (m'.is_locked ≡ true)
        × Waits queue m.wait_queue s₁ idle t task free₁ m'.wait_queue s')
      × ((m' : Mutex T) × (s' : Scheduler Q) × (drop_guard queue m s₂ ≡ ok (m', s'))
          × IsScheduler queue s' idle free₂
          × ((id : Option ℕ) × FirstWoken queue m.wait_queue.waiters s₂ idle free₂ id m'.wait_queue
                s')
          × ((s'' : Scheduler Q)
              → lock_round m' s'' ≡ ok (true, record m' { is_locked = true }, s'')))

  -- A round of lock on an unlocked mutex returns. While its guard lives, a round of another running
  -- thread waits; dropping it does not panic, keeps the scheduler's invariant, wakes the head of the
  -- queue, and lets the next round of any thread have the lock.
  pub lock_round-HasLock :
      {T : Type 0} (m : Mutex T) (s s₁ s₂ : Scheduler Q) (idle t : ℕ) (task : Thread)
      {free₁ free₂ : List ℕ}
      → m.is_locked ≡ false
      → IsScheduler queue s₁ idle free₁
      → Runs s₁ idle t task
      → IsScheduler queue s₂ idle free₂
      → (m' : Mutex T) × (lock_round m s ≡ ok (true, m', s))
        × HasLock m' idle s₁ t task free₁ s₂ free₂
  unfolding lock_round drop_guard
  lock_round-HasLock m s s₁ s₂ idle t task unlocked v₁ r v₂ =
      let (w₁, s₁', run₁, waits) = wait_on-Waits queue m.wait_queue s₁ idle t task v₁ r in
      let (id, w₂, s₂', run₂, v', woken) = wake_one-FirstWoken queue m.wait_queue s₂ idle v₂ in
      (
        record m { is_locked = true },
        rw unlocked refl,
        (
          (record m { is_locked = true; wait_queue = w₁ }, s₁', rw run₁ refl, refl, waits),
          (
            record m { is_locked = false; wait_queue = w₂ },
            s₂',
            rw run₂ refl,
            v',
            (id, woken),
            (λ s''. refl),
          ),
        ),
      )
