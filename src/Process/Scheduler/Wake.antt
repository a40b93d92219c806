-- ===== src/Process/Scheduler/Wake.antt =====
-- `wake_task` and `wake_all` keep the invariant.
use mathlib.Core.Option.{some-injective, none-ne-some}
use kernel_r.Prelude.{
  ℕ, ◌-◌, ◌≡◌, ◌≢◌, refl, inl, inr, sym, ◌∙◌, ap, Option, none, some, List, true, false, ◌&&◌, ◌==◌,
  not, arith, true_ne_false, Bool-cases, Option-cases, Run, ok, ltb, if◌then◌else◌,
}
use kernel_r.Process.Arena.{get, put}
use kernel_r.Process.Arena.Put.{put-get_self, put-get_ne}
use kernel_r.Process.State.{
  Thread, ThreadState, running, ready, sleeping, blocked, zombie, Scheduler, is_ready, is_zombie,
  is_waiting,
}
use kernel_r.Process.Scheduler.Clock.Bounds.{IsTimed, update_deadline_eq, runtime_of, deadline_of}
use kernel_r.Process.Scheduler.Queue.{RunQueue, same_task, wake_task, wake_waiting}
use kernel_r.Process.Scheduler.Valid.{
  IsKept, IsSane, IsQueued, waits_task, put-IsKept, put-IsQueued,
}

-- What waking makes of a state.
abbrev pub woken_state : ThreadState → ThreadState
woken_state sleeping = ready
woken_state blocked = ready
woken_state running = running
woken_state ready = ready
woken_state zombie = zombie

-- A thread but for the fields that waking may write.
abbrev pub rest_of : Thread → Thread
rest_of task = record task {
  state = ready;
  vruntime = 0;
  deadline = 0;
  burst_score = 0;
  rb_node = none;
}

-- The thread after it was woken: ready if it waited, and as it was but for its scheduling fields.
abbrev pub WokenFrom : Thread → Option Thread → Type 0
WokenFrom task found =
    (task' : Thread) × (found ≡ some task')
    × (task'.state ≡ woken_state task.state)
    × (task'.pid ≡ task.pid)
    × (task'.join_queue ≡ task.join_queue)
    × (rest_of task' ≡ rest_of task)

module _ {Q : Type 0} (queue : RunQueue Q) where
  -- A scheduler that keeps the invariant, with the threads of `ts` awake and all others as before.
  pub record IsWoken (s s' : Scheduler Q) (idle t : ℕ) (free : List ℕ) : Type 0 where
    pub kept : IsKept s' idle free
    pub queued : IsQueued queue s'.current_task idle s'
    pub current : s'.current_task ≡ s.current_task
    pub processes : s'.processes ≡ s.processes
    pub graveyard : s'.graveyard ≡ s.graveyard
    pub total : s'.total_weight ≡ s.total_weight
    pub runtime : s'.system_runtime ≡ s.system_runtime
    pub idle_task : s'.idle_task_id ≡ s.idle_task_id
    pub others : (j : ℕ) → j ≢ t → get s'.tasks j ≡ get s.tasks j
    pub awake : (task : Thread) → get s.tasks t ≡ some task → WokenFrom task (get s'.tasks t)
    pub unchanged :
        ((task : Thread) → get s.tasks t ≡ some task → is_waiting task.state ≡ false) → s' ≡ s

  abbrev pub Woken : Scheduler Q → ℕ → ℕ → List ℕ → Run (Scheduler Q) → Type 0
  Woken s idle t free run = (s' : Scheduler Q) × (run ≡ ok s') × IsWoken s s' idle t free

  asleep :
      (st : ThreadState)
      → is_waiting st ≡ true
      → (is_ready st ≡ false) × (is_zombie st ≡ false) × (woken_state st ≡ ready)
  asleep sleeping w = (refl, refl, refl)
  asleep blocked w = (refl, refl, refl)
  asleep running w = cc
  asleep ready w = cc
  asleep zombie w = cc

  awake_state : (st : ThreadState) → is_waiting st ≡ false → st ≡ woken_state st
  awake_state sleeping w = cc
  awake_state blocked w = cc
  awake_state running w = refl
  awake_state ready w = refl
  awake_state zombie w = refl

  waiting_not_idle :
      (s : Scheduler Q) (idle t : ℕ) (task : Thread) {free : List ℕ}
      → IsKept s idle free
      → get s.tasks t ≡ some task
      → is_ready task.state ≡ false
      → t ≢ idle
  waiting_not_idle s idle t task {free} v at not_ready same =
      let (i, e, r) = v.idle_ready in
      let is_i = some-injective task i (sym at ∙ ap (get s.tasks) same ∙ e) in
      true_ne_false (sym r ∙ ap (λ x. is_ready x.state) (sym is_i) ∙ not_ready)

  put-IsWoken :
      (s : Scheduler Q) (idle t : ℕ) (old new : Thread) (tree : Q) {free : List ℕ}
      → IsKept s idle free
      → IsQueued queue s.current_task idle s
      → get s.tasks t ≡ some old
      → is_waiting old.state ≡ true
      → IsSane s.processes idle t new
      → new.pid ≡ old.pid
      → new.state ≡ ready
      → new.join_queue ≡ old.join_queue
      → rest_of new ≡ rest_of old
      → ((j : ℕ) → j ≢ t → queue.contains tree j ≡ queue.contains s.tree j)
      → queue.contains tree t ≡ waits_task s.current_task idle t (some new)
      → IsWoken s (record s { tasks = put s.tasks t new; tree = tree }) idle t free
  put-IsWoken s idle t old new tree v q at waiting sane pid is_ready_now joins rest others here =
      let (not_ready, live, wakes) = asleep old.state waiting in
      record {
        kept =
            put-IsKept queue s idle t old new s.system_runtime tree v at sane pid
              (λ z. absurd (true_ne_false (sym z ∙ live)))
              (λ z. absurd (true_ne_false (sym z ∙ ap is_zombie is_ready_now)))
              (λ i. ap is_ready is_ready_now);
        queued =
            put-IsQueued queue s s.current_task s.current_task idle t old new s.system_runtime tree
              at q (λ j ne. refl) others here;
        current = refl;
        processes = refl;
        graveyard = refl;
        total = refl;
        runtime = refl;
        idle_task = refl;
        others = λ j ne. put-get_ne s.tasks t j new ne;
        awake = λ task e.
            (let same = some-injective old task (sym at ∙ e) in
              (
                new,
                put-get_self s.tasks t old new at,
                is_ready_now ∙ sym wakes ∙ ap (λ x. woken_state x.state) same,
                pid ∙ ap (λ x. x.pid) same,
                joins ∙ ap (λ x. x.join_queue) same,
                rest ∙ ap rest_of same,
              ));
        unchanged = λ still. absurd (true_ne_false (sym waiting ∙ still old at));
      }

  wake_waiting-Woken :
      (s : Scheduler Q) (idle t : ℕ) (task : Thread) {free : List ℕ}
      → IsKept s idle free
      → IsQueued queue s.current_task idle s
      → get s.tasks t ≡ some task
      → is_waiting task.state ≡ true
      → Woken s idle t free (wake_waiting queue s t task)
  wake_waiting-Woken s idle t task {free} v q at waiting =
      let (not_ready, live, wakes) = asleep task.state waiting in
      let sane = v.sane t task at in
      let not_idle = waiting_not_idle s idle t task v at not_ready in
      let min_vruntime : ℕ = s.system_runtime - task.time_slice in
      let raised : ℕ = if ltb task.vruntime min_vruntime then min_vruntime else task.vruntime in
      let w : Thread = record task { state = ready; vruntime = raised; burst_score = 0 } in
      let timed : IsTimed w = record {
        weight = sane.timed.weight;
        word_weight = sane.timed.word_weight;
        burst = omega arith;
      } in
      let w' : Thread = record w { vruntime = runtime_of w; deadline = deadline_of w } in
      let (node, has_node, id) = sane.node live not_idle in
      let filled = record node { vruntime = w'.vruntime; deadline = w'.deadline } in
      let w'' : Thread = record w' { rb_node = some filled } in
      let out : queue.contains s.tree t ≡ false =
        q t
        ∙ ap (waits_task s.current_task idle t) at
        ∙ ap (λ b. b && not (same_task s.current_task t) && not (idle == t)) not_ready in
      elim (Bool-cases (same_task s.current_task t)) [
        | inl is_current ↦ (
          record s { tasks = put s.tasks t w' },
          rw (update_deadline_eq w timed, is_current) refl,
          put-IsWoken s idle t task w' s.tree v q at waiting
              (record {
                tid = sane.tid;
                timed = record {
                  weight = timed.weight;
                  word_weight = timed.word_weight;
                  burst = timed.burst;
                };
                top = sane.top;
                node = λ z ne. (node, has_node, id);
                home = λ z. sane.home live;
              })
              refl refl refl refl (λ j ne. refl)
              (out ∙ sym (ap (λ b. not b && not (idle == t)) is_current)),
        )
        | inr other ↦
            (let absent : queue.contains s.tree node.task_id ≡ false =
                ap (queue.contains s.tree) id ∙ out in
              (
                record s { tasks = put s.tasks t w''; tree = queue.rbtree_insert s.tree filled },
                rw (update_deadline_eq w timed, other, has_node) refl,
                put-IsWoken s idle t task w'' (queue.rbtree_insert s.tree filled) v q at waiting
                    (record {
                      tid = sane.tid;
                      timed = record {
                        weight = timed.weight;
                        word_weight = timed.word_weight;
                        burst = timed.burst;
                      };
                      top = sane.top;
                      node = λ z ne. (filled, refl, id);
                      home = λ z. sane.home live;
                    })
                    refl refl refl refl
                    (λ j ne.
                      queue.contains-rbtree_insert s.tree filled j absent ∙ ground (arith, id, ne))
                    (queue.contains-rbtree_insert s.tree filled t absent
                      ∙ ground (arith, id, not_idle, other)),
              ))
      ]

  unchanged-Woken :
      (s : Scheduler Q) (idle t : ℕ) {free : List ℕ}
      → IsKept s idle free
      → IsQueued queue s.current_task idle s
      → ((task : Thread) → get s.tasks t ≡ some task → is_waiting task.state ≡ false)
      → IsWoken s s idle t free
  unchanged-Woken s idle t v q still = record {
    kept = v;
    queued = q;
    current = refl;
    processes = refl;
    graveyard = refl;
    total = refl;
    runtime = refl;
    idle_task = refl;
    others = λ j ne. refl;
    awake = λ task e. (task, e, awake_state task.state (still task e), refl, refl, refl);
    unchanged = λ quiet. refl;
  }

  -- Under the invariant wake_task does not panic and keeps it: a thread that waits becomes ready, in
  -- the tree unless it is the one that runs, and nothing else changes.
  pub wake_task-Woken :
      (s : Scheduler Q) (idle t : ℕ) {free : List ℕ}
      → IsKept s idle free
      → IsQueued queue s.current_task idle s
      → Woken s idle t free (wake_task queue s t)
  unfolding wake_task
  wake_task-Woken s idle t {free} v q = elim (Option-cases (get s.tasks t)) [
    | inl missing ↦ (
      s,
      rw missing refl,
      unchanged-Woken s idle t v q (λ task e. absurd (none-ne-some task (sym missing ∙ e))),
    )
    | inr (task, at) ↦ elim (Bool-cases (is_waiting task.state)) [
      | inl waiting ↦
          (let (s', run, woken) = wake_waiting-Woken s idle t task v q at waiting in
            (s', rw (at, waiting) run, woken))
      | inr awake ↦ (
        s,
        rw (at, awake) refl,
        unchanged-Woken s idle t v q (λ other e.
            ap (λ x. is_waiting x.state) (some-injective other task (sym e ∙ at)) ∙ awake),
      )
    ]
  ]
