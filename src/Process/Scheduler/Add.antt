-- ===== src/Process/Scheduler/Add.antt =====
-- `add_task`: a new thread has a free id, and waits in the tree.
use mathlib.Core.Option.{none-ne-some}
use native.Mathlib.Decide.{ℕ_discrete}
use kernel_r.Prelude.{
  ℕ, ◌+◌, ◌<◌, ◌≡◌, ◌≢◌, refl, inl, inr, sym, ◌∙◌, ap, subst, Option, none, some, List, word, true,
  false, ◌||◌, ◌==◌, arith, true_ne_false, Bool-cases, Run, ok, add_u64_lem,
}
use kernel_r.Process.Arena.{get, put}
use kernel_r.Process.Arena.Live.{insert-Inserted}
use kernel_r.Process.Arena.Put.{put-get_self, put-get_ne, put-cases, put-IsValid}
use kernel_r.Process.State.{Thread, SchedNode, Scheduler, is_ready, is_zombie}
use kernel_r.Process.Scheduler.Queue.{RunQueue, same_task, add_task}
use kernel_r.Process.Scheduler.Clock.Bounds.{IsTimed}
use kernel_r.Process.Scheduler.Valid.{IsSane, HasProcess, waits_task}
use kernel_r.Process.Scheduler.Settle.{live_of_ready}
use kernel_r.Process.Scheduler.Tick.{IsScheduler}

-- A new thread, ready to run, whose process is no dead thread's.
pub record IsNew {Q : Type 0} (s : Scheduler Q) (task : Thread) : Type 0 where
  pub up : is_ready task.state ≡ true
  pub timed : IsTimed task
  pub top : task.stack_base + task.stack_len < word
  pub home : HasProcess s.processes task.pid
  pub weighs : s.total_weight + task.weight < word
  pub fresh :
      (t : ℕ) (dead : Thread)
      → get s.tasks t ≡ some dead
      → is_zombie dead.state ≡ true
      → dead.pid ≢ task.pid

module _ {Q : Type 0} (queue : RunQueue Q) where
  -- The thread is under an id that had none, with that id and a node of its own, in the tree; all
  -- other threads and the rest of the scheduler are as before.
  abbrev pub Added : Scheduler Q → ℕ → Thread → Run (ℕ × Scheduler Q) → Type 0
  Added s idle task run =
      (t : ℕ) × (s' : Scheduler Q) × (free' : List ℕ) × (run ≡ ok (t, s'))
      × IsScheduler queue s' idle free'
      × (get s.tasks t ≡ none)
      × (queue.contains s'.tree t ≡ true)
      × ((node : SchedNode) × (get s'.tasks t ≡ some (record task { tid = t; rb_node = some node }))
          × (node.task_id ≡ t)
          × (node.vruntime ≡ task.vruntime)
          × (node.deadline ≡ task.deadline))
      × ((j : ℕ) → j ≢ t → get s'.tasks j ≡ get s.tasks j)
      × (s'.total_weight ≡ s.total_weight + task.weight)
      × (s'.processes ≡ s.processes)
      × (s'.current_task ≡ s.current_task)
      × (s'.system_runtime ≡ s.system_runtime)
      × (s'.graveyard ≡ s.graveyard)
      × (s'.idle_task_id ≡ s.idle_task_id)

  not_named :
      (s : Scheduler Q) (t : ℕ) {idle : ℕ} {free : List ℕ}
      → IsScheduler queue s idle free
      → get s.tasks t ≡ none
      → same_task s.current_task t ≡ false
  not_named s t v missing = by_current s.current_task v.current
    where
      by_current :
          (c : Option ℕ)
          → ((x : ℕ) → c ≡ some x → (task : Thread) × (get s.tasks x ≡ some task))
          → same_task c t ≡ false
      by_current none there = refl
      by_current (some x) there = elim (Bool-cases (x == t)) [
        | inl same ↦
            (let (task, e) = there x refl in
              absurd (
                none-ne-some task
                  (sym missing ∙ ap (get s.tasks) {x = t} (ground (arith, same)) ∙ e)))
        | inr other ↦ other
      ]

  -- With the invariant and a new ready thread, add_task does not panic and keeps the invariant: the
  -- id it returns had no thread, and now has the given one with only that id and a node of its own
  -- set, which has its times, and is in the tree; every other id is as before, the total weight grows
  -- by its weight, and the rest of the scheduler is as before.
  pub add_task-Added :
      (s : Scheduler Q) (idle : ℕ) (task : Thread) {free : List ℕ}
      → IsScheduler queue s idle free
      → IsNew s task
      → Added s idle task (add_task queue s task)
  unfolding add_task
  add_task-Added s idle task v new =
      let (t, a, free', run, valid, was_none, at, others) =
        insert-Inserted s.tasks task v.kept.arena in
      let node : SchedNode = record {
        vruntime = task.vruntime;
        task_id = t;
        deadline = task.deadline;
        min_deadline = task.deadline;
      } in
      let boxed : Thread = record task { tid = t; rb_node = some node } in
      let tasks = put a t boxed in
      let live = live_of_ready task.state new.up in
      let here : get tasks t ≡ some boxed = put-get_self a t task boxed at in
      let there : (j : ℕ) → j ≢ t → get tasks j ≡ get s.tasks j =
        λ j ne. put-get_ne a t j boxed ne ∙ others j ne in
      let old : (j : ℕ) (other : Thread) → get s.tasks j ≡ some other → j ≢ t =
        λ j other e same. none-ne-some other (sym was_none ∙ ap (get s.tasks) (sym same) ∙ e) in
      let keeps : (j : ℕ) (other : Thread) → get s.tasks j ≡ some other → get tasks j ≡ some other =
        λ j other e. there j (old j other e) ∙ e in
      let out : queue.contains s.tree t ≡ false =
        v.queued t ∙ ap (waits_task s.current_task idle t) was_none in
      let (i, i_at, i_up) = v.kept.idle_ready in
      let not_current : same_task s.current_task t ≡ false = not_named s t v was_none in
      let after : Scheduler Q = record s {
        total_weight = s.total_weight + task.weight;
        tasks = tasks;
        tree = queue.rbtree_insert s.tree node;
      } in
      (
        t,
        after,
        free',
        rw (add_u64_lem s.total_weight task.weight new.weighs, run, at) refl,
        record {
          kept = record {
            arena = put-IsValid a t task boxed at valid;
            sane = λ j other e. elim (put-cases a t j task boxed other at e) [
              | inl (same, is_new) ↦
                  subst (λ x. IsSane s.processes idle x other) (sym same)
                    (subst (λ x. IsSane s.processes idle t x) is_new
                      (record {
                        tid = refl;
                        timed = record {
                          weight = new.timed.weight;
                          word_weight = new.timed.word_weight;
                          burst = new.timed.burst;
                        };
                        top = new.top;
                        node = λ z ne. (node, refl, refl);
                        home = λ z. new.home;
                      }))
              | inr (ne, was) ↦ v.kept.sane j other (sym (others j ne) ∙ was)
            ];
            alone = λ j dead e z u other e' ne. elim (put-cases a t j task boxed dead at e) [
              | inl (same, is_new) ↦
                  absurd (true_ne_false (sym z ∙ ap (λ x. is_zombie x.state) (sym is_new) ∙ live))
              | inr (j_ne, was) ↦
                  (let was' = sym (others j j_ne) ∙ was in
                    elim (put-cases a t u task boxed other at e') [
                      | inl (u_same, is_new) ↦
                          (λ q. new.fresh j dead was' z (q ∙ sym (ap (λ x. x.pid) is_new)))
                      | inr (u_ne, u_was) ↦
                          v.kept.alone j dead was' z u other (sym (others u u_ne) ∙ u_was) ne
                    ])
            ];
            idle_id = v.kept.idle_id;
            idle_ready = (i, keeps idle i i_at, i_up);
            buried = λ g b. (let (d, e, z) = v.kept.buried g b in (d, keeps g d e, z));
            distinct = v.kept.distinct;
          };
          queued = λ j. queue.contains-rbtree_insert s.tree node j out ∙ elim (ℕ_discrete j t) [
            | yes same ↦
                (let enters : waits_task s.current_task idle t (some boxed) ≡ true =
                    ground (arith, new.up, not_current, old idle i i_at) in
                  ground (arith, same)
                  ∙ sym (
                      ap (λ x. waits_task s.current_task idle x (get tasks x)) same
                      ∙ ap (waits_task s.current_task idle t) here
                      ∙ enters))
            | no ne ↦
                (let skip : (j == t) || queue.contains s.tree j ≡ queue.contains s.tree j =
                    ground (arith, ne) in
                  skip ∙ v.queued j ∙ ap (waits_task s.current_task idle j) (sym (there j ne)))
          ];
          current = λ c is_c. (let (o, e) = v.current c is_c in (o, keeps c o e));
          lively = v.lively;
        },
        was_none,
        queue.contains-rbtree_insert s.tree node t out ∙ ground arith,
        (node, here, refl, refl, refl),
        there,
        refl,
        refl,
        refl,
        refl,
        refl,
        refl,
      )
