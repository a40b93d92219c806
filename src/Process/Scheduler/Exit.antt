-- ===== src/Process/Scheduler/Exit.antt =====
-- A thread that ends, sleeps or joins another: `exit_thread`, `sleep_current_task` and `join`.
use mathlib.Core.Option.{some-injective}
use native.Mathlib.Decide.{ℕ_discrete}
use kernel_r.Prelude.{
  ℕ, has, ◌≡◌, ◌≢◌, refl, inl, inr, sym, ◌∙◌, ap, Option, some, List, true, false, arith,
  true_ne_false, Bool-cases, ◌>>=◌, Run, ok,
}
use kernel_r.Process.Arena.{get, put}
use kernel_r.Process.Arena.Put.{put-get_self, put-get_ne}
use kernel_r.Process.State.{Thread, ThreadState, zombie, sleeping, Scheduler, new_queue, is_zombie}
use kernel_r.Process.Scheduler.Queue.{
  RunQueue, same_task, wake_task, wake_all, sleep_current_task, unwrap,
}
use kernel_r.Process.Scheduler.Schedule.{exit_thread}
use kernel_r.Process.Scheduler.Valid.{IsSane, Alone, waits_task, put-IsKept, put-IsQueued}
use kernel_r.Process.Scheduler.Wake.{woken_state, WokenFrom, IsWoken, wake_task-Woken}
use kernel_r.Process.Scheduler.WakeAll.{AreWoken, wake_all-AllWoken}
use kernel_r.Process.Scheduler.Tick.{IsScheduler, same_self}

module _ {Q : Type 0} (queue : RunQueue Q) where
  present_after :
      (s : Scheduler Q) (t c : ℕ) (old new task : Thread)
      → get s.tasks t ≡ some old
      → get s.tasks c ≡ some task
      → (task' : Thread) × (get (put s.tasks t new) c ≡ some task')
  present_after s t c old new task at there = elim (ℕ_discrete c t) [
    | yes same ↦ (new, ap (get (put s.tasks t new)) same ∙ put-get_self s.tasks t old new at)
    | no ne ↦ (task, put-get_ne s.tasks t c new ne ∙ there)
  ]

  -- The running thread changes; whatever it becomes, it is not in the tree.
  pub current-IsScheduler :
      (s : Scheduler Q) (idle t : ℕ) (old new : Thread) {free : List ℕ}
      → IsScheduler queue s idle free
      → s.current_task ≡ some t
      → get s.tasks t ≡ some old
      → IsSane s.processes idle t new
      → new.pid ≡ old.pid
      → (is_zombie old.state ≡ true → is_zombie new.state ≡ true)
      → (is_zombie new.state ≡ true → Alone (get s.tasks) t old)
      → t ≢ idle
      → IsScheduler queue (record s { tasks = put s.tasks t new }) idle free
  current-IsScheduler s idle t old new v is_t at sane pid dead alone not_idle =
      let out : (task : Thread) → waits_task s.current_task idle t (some task) ≡ false =
        λ task. (ap (λ c. waits_task c idle t (some task)) is_t ∙ ground (arith, same_self t)) in
      record {
        kept =
            put-IsKept queue s idle t old new s.system_runtime s.tree v.kept at sane pid dead alone
              (λ i. absurd (not_idle i));
        queued =
            put-IsQueued queue s s.current_task s.current_task idle t old new s.system_runtime
              s.tree at v.queued (λ j ne. refl) (λ j ne. refl)
              (v.queued t ∙ ap (waits_task s.current_task idle t) at ∙ out old ∙ sym (out new));
        current = λ c is_c.
            (let (task, there) = v.current c is_c in present_after s t c old new task at there);
        lively = v.lively;
      }

  -- With the invariant wake_task does not panic and keeps it: a thread that sleeps or is blocked
  -- becomes ready, with only its times, burst score and node of the tree changed, a wake of any other
  -- changes nothing, and all other threads and the rest of the scheduler but for the tree are as
  -- before.
  pub wake_task-IsScheduler :
      (s : Scheduler Q) (idle t : ℕ) {free : List ℕ}
      → IsScheduler queue s idle free
      → (s' : Scheduler Q) × (wake_task queue s t ≡ ok s')
        × IsScheduler queue s' idle free
        × IsWoken queue s s' idle t free
  wake_task-IsScheduler s idle t v =
      let (s', run, w) = wake_task-Woken queue s idle t v.kept v.queued in
      (
        s',
        run,
        record {
          kept = w.kept;
          queued = w.queued;
          current = λ c is_c.
              (let (task, at) = v.current c (sym w.current ∙ is_c) in
                elim (ℕ_discrete c t) [
                  | yes same ↦
                      (let (task', at', _, _, _, _) =
                          w.awake task (ap (get s.tasks) (sym same) ∙ at) in
                        (task', ap (get s'.tasks) same ∙ at'))
                  | no ne ↦ (task, w.others c ne ∙ at)
                ]);
          lively = λ z i.
              ap (λ c. same_task c z) w.current ∙ v.lively z (ap (has z) (sym w.graveyard) ∙ i);
        },
        w,
      )

  -- With a running thread other than the idle one, sleep_current_task does not panic: the thread
  -- sleeps, and the invariant is kept.
  pub sleep_current_task-IsScheduler :
      (s : Scheduler Q) (idle t : ℕ) (task : Thread) {free : List ℕ}
      → IsScheduler queue s idle free
      → s.current_task ≡ some t
      → get s.tasks t ≡ some task
      → is_zombie task.state ≡ false
      → t ≢ idle
      → (s' : Scheduler Q) × (sleep_current_task s ≡ ok s')
        × IsScheduler queue s' idle free
        × (get s'.tasks t ≡ some (record task { state = sleeping }))
  unfolding sleep_current_task
  sleep_current_task-IsScheduler s idle t task v is_t at live not_idle =
      let asleep : Thread = record task { state = sleeping } in
      let sane = v.kept.sane t task at in
      (
        record s { tasks = put s.tasks t asleep },
        rw (is_t, at) refl,
        current-IsScheduler s idle t task asleep v is_t at
            (record {
              tid = sane.tid;
              timed = record {
                weight = sane.timed.weight;
                word_weight = sane.timed.word_weight;
                burst = sane.timed.burst;
              };
              top = sane.top;
              node = λ z. sane.node live;
              home = λ z. sane.home live;
            })
            refl (λ z. absurd (true_ne_false (sym z ∙ live))) (λ z. absurd (true_ne_false (sym z)))
            not_idle,
        put-get_self s.tasks t task asleep at,
      )

  -- A thread of a scheduler after some were woken, dead if it was.
  dead_after :
      (s s' : Scheduler Q) (idle t : ℕ) (ts : List ℕ) (task : Thread) {free : List ℕ}
      → AreWoken queue s s' idle ts free
      → get s.tasks t ≡ some task
      → is_zombie task.state ≡ true
      → (task' : Thread) × (get s'.tasks t ≡ some task')
        × (is_zombie task'.state ≡ true)
        × (task'.pid ≡ task.pid)
  dead_after s s' idle t ts task all at dead = elim (Bool-cases (has t ts)) [
    | inr out ↦ (task, all.others t out ∙ at, dead, refl)
    | inl inside ↦
        (let (task', at', state, pid, _, _) = all.awake t task inside at in
          (task', at', ap is_zombie state ∙ stays task.state ∙ dead, pid))
  ]
    where
      stays : (st : ThreadState) → is_zombie (woken_state st) ≡ is_zombie st
      stays ThreadState.running = refl
      stays ThreadState.ready = refl
      stays ThreadState.sleeping = refl
      stays ThreadState.blocked = refl
      stays ThreadState.zombie = refl

  woken-IsScheduler :
      (s s' : Scheduler Q) (idle t : ℕ) (ts : List ℕ) (task : Thread) {free : List ℕ}
      → IsScheduler queue s idle free
      → AreWoken queue s s' idle ts free
      → s.current_task ≡ some t
      → get s'.tasks t ≡ some task
      → IsScheduler queue s' idle free
  woken-IsScheduler s s' idle t ts task v all is_t at = record {
    kept = all.kept;
    queued = all.queued;
    current = λ c is_c.
        (task, ap (get s'.tasks) (some-injective c t (sym is_c ∙ all.current ∙ is_t)) ∙ at);
    lively = λ z i.
        ap (λ c. same_task c z) all.current ∙ v.lively z (ap (has z) (sym all.graveyard) ∙ i);
  }

  -- What exit_thread leads to: the running thread is dead, and the threads that joined it are awake.
  abbrev pub Exited : Scheduler Q → ℕ → ℕ → Thread → List ℕ → Run (Scheduler Q) → Type 0
  Exited s idle t task free run =
      (s' : Scheduler Q) × (run ≡ ok s')
      × IsScheduler queue s' idle free
      × ((dead : Thread) × (get s'.tasks t ≡ some dead)
          × (is_zombie dead.state ≡ true)
          × (dead.join_queue ≡ new_queue))
      × ((j : ℕ) (other : Thread)
          → has j task.join_queue.waiters ≡ true
          → j ≢ t
          → get s.tasks j ≡ some other
          → WokenFrom other (get s'.tasks j))

  exit-run :
      (s s₂ : Scheduler Q) (t : ℕ) (task dead : Thread)
      → s.current_task ≡ some t
      → get s.tasks t ≡ some task
      → wake_all queue task.join_queue
          (record s { tasks = put s.tasks t (record task { state = zombie }) })
        ≡ ok (new_queue, s₂)
      → get s₂.tasks t ≡ some dead
      → exit_thread queue s
        ≡ ok (record s₂ { tasks = put s₂.tasks t (record dead { join_queue = new_queue }) })
  unfolding exit_thread
  exit-run s s₂ t task dead is_t at run at₂ =
      let go : (tid : Option ℕ)
          → tid ≡ some t
          → (do
            i ← unwrap tid
            task ← unwrap (get s.tasks i)
            (emptied, woken) ←
                wake_all queue task.join_queue
                  (record s { tasks = put s.tasks i (record task { state = zombie }) })
            dead ← unwrap (get woken.tasks i)
            ok (record woken { tasks = put woken.tasks i (record dead { join_queue = emptied }) }))
            ≡ ok (record s₂ { tasks = put s₂.tasks t (record dead { join_queue = new_queue }) }) =
        λ tid e. rw (e, at, run, at₂) refl in
      go s.current_task is_t

  -- When the running thread is not the idle one and no other thread has its process, exit_thread
  -- does not panic and keeps the invariant: the thread is dead, with an empty join queue, and each
  -- thread that waited in that queue is ready.
  pub exit_thread-Exited :
      (s : Scheduler Q) (idle t : ℕ) (task : Thread) {free : List ℕ}
      → IsScheduler queue s idle free
      → s.current_task ≡ some t
      → get s.tasks t ≡ some task
      → Alone (get s.tasks) t task
      → t ≢ idle
      → Exited s idle t task free (exit_thread queue s)
  exit_thread-Exited s idle t task {free} v is_t at alone not_idle =
      let doomed : Thread = record task { state = zombie } in
      let sane = v.kept.sane t task at in
      let s₁ : Scheduler Q = record s { tasks = put s.tasks t doomed } in
      let v₁ =
        current-IsScheduler s idle t task doomed v is_t at
          (record {
            tid = sane.tid;
            timed = record {
              weight = sane.timed.weight;
              word_weight = sane.timed.word_weight;
              burst = sane.timed.burst;
            };
            top = sane.top;
            node = λ z. absurd (true_ne_false z);
            home = λ z. absurd (true_ne_false z);
          })
          refl (λ z. refl) (λ z. alone) not_idle in
      let at₁ = put-get_self s.tasks t task doomed at in
      let (s₂, run₂, all) = wake_all-AllWoken queue task.join_queue s₁ idle v₁.kept v₁.queued in
      let (dead, at₂, is_dead, pid) =
        dead_after s₁ s₂ idle t task.join_queue.waiters doomed all at₁ refl in
      let v₂ = woken-IsScheduler s₁ s₂ idle t task.join_queue.waiters dead v₁ all is_t at₂ in
      let last : Thread = record dead { join_queue = new_queue } in
      let sane₂ = v₂.kept.sane t dead at₂ in
      (
        record s₂ { tasks = put s₂.tasks t last },
        exit-run s s₂ t task dead is_t at run₂ at₂,
        current-IsScheduler s₂ idle t dead last v₂ (all.current ∙ is_t) at₂
            (record {
              tid = sane₂.tid;
              timed = record {
                weight = sane₂.timed.weight;
                word_weight = sane₂.timed.word_weight;
                burst = sane₂.timed.burst;
              };
              top = sane₂.top;
              node = sane₂.node;
              home = sane₂.home;
            })
            refl (λ z. z) (λ z. v₂.kept.alone t dead at₂ is_dead) not_idle,
        (last, put-get_self s₂.tasks t dead last at₂, is_dead, refl),
        λ j other i ne there.
            (let (woken, e, state, p, q, keeps) =
                all.awake j other i (put-get_ne s.tasks t j doomed ne ∙ there) in
              (woken, put-get_ne s₂.tasks t j last ne ∙ e, state, p, q, keeps)),
      )
