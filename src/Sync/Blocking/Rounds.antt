-- ===== src/Sync/Blocking/Rounds.antt =====
-- Each round of the semaphore and the mutex keeps the scheduler's invariant.
use kernel_r.Prelude.{
  ℕ, ◌≡◌, ◌≢◌, refl, sym, ◌∙◌, ok, Option, none, some, List, [], ◌∷◌, ◌++◌, false, true_ne_false,
}
use kernel_r.Process.Arena.{get, put}
use kernel_r.Process.Arena.Put.{put-get_self}
use kernel_r.Process.State.{Thread, Scheduler, WaitQueue, blocked, is_zombie}
use kernel_r.Process.Scheduler.{RunQueue}
use kernel_r.Process.Scheduler.Tick.{IsScheduler}
use kernel_r.Process.Scheduler.Wake.{WokenFrom}
use kernel_r.Process.Scheduler.Exit.{current-IsScheduler, wake_task-IsScheduler}
use kernel_r.Sync.Blocking.{wait_on, wake_one, wake_first}

-- The thread that runs: alive, and not the idle one.
pub record Runs {Q : Type 0} (s : Scheduler Q) (idle t : ℕ) (task : Thread) : Type 0 where
  pub current : s.current_task ≡ some t
  pub thread : get s.tasks t ≡ some task
  pub live : is_zombie task.state ≡ false
  pub other : t ≢ idle

module _ {Q : Type 0} (queue : RunQueue Q) where
  -- The thread that ran is blocked, at the end of the queue.
  abbrev pub Waits :
      WaitQueue → Scheduler Q → (idle t : ℕ) → Thread → List ℕ → WaitQueue → Scheduler Q → Type 0
  Waits w s idle t task free w' s' =
      IsScheduler queue s' idle free
      × (w'.waiters ≡ w.waiters ++ (t ∷ []))
      × (get s'.tasks t ≡ some (record task { state = blocked }))

  pub wait_on-Waits :
      (w : WaitQueue) (s : Scheduler Q) (idle t : ℕ) (task : Thread) {free : List ℕ}
      → IsScheduler queue s idle free
      → Runs s idle t task
      → (w' : WaitQueue) × (s' : Scheduler Q) × (wait_on w s ≡ ok (w', s'))
        × Waits w s idle t task free w' s'
  unfolding wait_on
  wait_on-Waits w s idle t task v r =
      let asleep : Thread = record task { state = blocked } in
      let sane = v.kept.sane t task r.thread in
      (
        record w { waiters = w.waiters ++ (t ∷ []) },
        record s { tasks = put s.tasks t asleep },
        rw (r.current, r.thread) refl,
        (
          current-IsScheduler queue s idle t task asleep v r.current r.thread
              (record {
                tid = sane.tid;
                timed = record {
                  weight = sane.timed.weight;
                  word_weight = sane.timed.word_weight;
                  burst = sane.timed.burst;
                };
                top = sane.top;
                node = λ z. sane.node r.live;
                home = λ z. sane.home r.live;
              })
              refl (λ z. absurd (true_ne_false (sym z ∙ r.live)))
              (λ z. absurd (true_ne_false (sym z))) r.other,
          refl,
          put-get_self s.tasks t task asleep r.thread,
        ),
      )

  -- What waking one leads to: the queue without its head, which is awake.
  abbrev pub FirstWoken :
      List ℕ → Scheduler Q → ℕ → List ℕ → Option ℕ → WaitQueue → Scheduler Q → Type 0
  FirstWoken [] s idle free id w' s' = (id ≡ none) × (w'.waiters ≡ []) × (s' ≡ s)
  FirstWoken (h ∷ rest) s idle free id w' s' =
      (id ≡ some h)
      × (w'.waiters ≡ rest)
      × ((task : Thread) → get s.tasks h ≡ some task → WokenFrom task (get s'.tasks h))

  wake_first-FirstWoken :
      (ws : List ℕ) (w : WaitQueue) (s : Scheduler Q) (idle : ℕ) {free : List ℕ}
      → w.waiters ≡ ws
      → IsScheduler queue s idle free
      → (id : Option ℕ) × (w' : WaitQueue) × (s' : Scheduler Q) × (wake_first queue ws w s
          ≡ ok (id, w', s'))
        × IsScheduler queue s' idle free
        × FirstWoken ws s idle free id w' s'
  wake_first-FirstWoken [] w s idle e v = (none, w, s, refl, v, (refl, e, refl))
  wake_first-FirstWoken (h ∷ rest) w s idle e v =
      let (s', run, v', woken) = wake_task-IsScheduler queue s idle h v in
      (some h, record w { waiters = rest }, s', rw run refl, v', (refl, refl, woken.awake))

  -- wake_one keeps the invariant, takes the head off the queue and wakes it.
  pub wake_one-FirstWoken :
      (w : WaitQueue) (s : Scheduler Q) (idle : ℕ) {free : List ℕ}
      → IsScheduler queue s idle free
      → (id : Option ℕ) × (w' : WaitQueue) × (s' : Scheduler Q) × (wake_one queue w s
          ≡ ok (id, w', s'))
        × IsScheduler queue s' idle free
        × FirstWoken w.waiters s idle free id w' s'
  unfolding wake_one
  wake_one-FirstWoken w s idle v = wake_first-FirstWoken w.waiters w s idle refl v
