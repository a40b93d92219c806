-- ===== src/Process/Scheduler/Dispatch.antt =====
-- `schedule` picks a ready thread and keeps the invariant.
use kernel_r.Prelude.{
  ℕ, ◌+◌, ◌<◌, ◌≡◌, ◌≢◌, refl, inl, inr, sym, ◌∙◌, ap, Option, none, some, List, true, false, ◌&&◌,
  ◌==◌, not, arith, true_ne_false, Bool-cases, Option-cases, Run, ok, word, get_elem?, add_u64_lem,
}
use kernel_r.Process.Arena.{get}
use kernel_r.Process.State.{Thread, Process, Scheduler, Cpu, Machine, is_ready}
use kernel_r.Process.Scheduler.Queue.{RunQueue}
use kernel_r.Process.Scheduler.Reap.{process_of}
use kernel_r.Process.Scheduler.Schedule.{run_idle, switch_to, dispatch, show_bounds, prev_pid}
use kernel_r.Process.Scheduler.Valid.{IsKept, IsQueued, waits_task, waits}
use kernel_r.Process.Scheduler.Settle.{live_of_ready}

module _ {Q : Type 0} (queue : RunQueue Q) where
  -- The state after a switch to the ready thread `t`: its context is restored, on its own stack.
  pub record IsSwitched (m m' : Machine Q) (idle t ctx : ℕ) (task : Thread) (free : List ℕ)
      : Type 0 where
    pub kept : IsKept m'.sched idle free
    pub queued : IsQueued queue m'.sched.current_task idle m'.sched
    pub current : m'.sched.current_task ≡ some t
    pub thread : get m'.sched.tasks t ≡ some task
    pub runs : is_ready task.state ≡ true
    pub context : ctx ≡ task.stack_pointer
    pub stack : m'.cpu.kernel_rsp ≡ task.stack_base + task.stack_len
    pub tasks : m'.sched.tasks ≡ m.sched.tasks
    pub graveyard : m'.sched.graveyard ≡ m.sched.graveyard
    pub busy : (u : ℕ) → waits none idle m.sched u ≡ true → t ≢ idle

  abbrev pub Switched : Machine Q → ℕ → List ℕ → Run (ℕ × Machine Q) → Type 0
  Switched m idle free run =
      (ctx : ℕ) × (m' : Machine Q) × (t : ℕ) × (task : Thread) × (run ≡ ok (ctx, m'))
      × IsSwitched m m' idle t ctx task free

  current-IsKept :
      (s : Scheduler Q) (idle : ℕ) (tree : Q) (current : Option ℕ) {free : List ℕ}
      → IsKept s idle free
      → IsKept (record s { tree = tree; current_task = current }) idle free
  current-IsKept s idle tree current v = record {
    arena = v.arena;
    sane = v.sane;
    alone = v.alone;
    idle_id = v.idle_id;
    idle_ready = v.idle_ready;
    buried = v.buried;
    distinct = v.distinct;
  }

  idle_waits :
      (idle j : ℕ) (found : Option Thread)
      → waits_task none idle j found ≡ waits_task (some idle) idle j found
  idle_waits idle j (some task) = ground arith
  idle_waits idle j none = refl

  run_idle-Switched :
      (m : Machine Q) (idle : ℕ) {free : List ℕ}
      → IsKept m.sched idle free
      → IsQueued queue none idle m.sched
      → ((t : ℕ) → queue.contains m.sched.tree t ≡ false)
      → Switched m idle free (run_idle queue m m.sched.idle_task_id)
  run_idle-Switched m idle v q empty =
      let (task, at, up) = v.idle_ready in
      let sane = v.sane idle task at in
      let shown = show_bounds queue m.cpu (process_of (get_elem? m.sched.processes task.pid)) in
      (
        task.stack_pointer,
        record m {
          sched = record m.sched { current_task = some idle };
          cpu = record shown { kernel_rsp = task.stack_base + task.stack_len };
        },
        idle,
        task,
        rw (v.idle_id, at, add_u64_lem task.stack_base task.stack_len sane.top) refl,
        record {
          kept = current-IsKept m.sched idle m.sched.tree (some idle) v;
          queued = λ j. q j ∙ idle_waits idle j (get m.sched.tasks j);
          current = refl;
          thread = at;
          runs = up;
          context = refl;
          stack = refl;
          tasks = refl;
          graveyard = refl;
          busy = λ u w. absurd (true_ne_false (sym w ∙ sym (q u) ∙ empty u));
        },
      )

  chosen_waits :
      (w idle j : ℕ) (found : Option Thread)
      → not (j == w) && waits_task none idle j found ≡ waits_task (some w) idle j found
  chosen_waits w idle j (some task) = ground arith
  chosen_waits w idle j none = ground arith

  ready_of_waits :
      (idle w : ℕ) (found : Option Thread)
      → waits_task none idle w found ≡ true
      → (task : Thread) × (found ≡ some task) × (is_ready task.state ≡ true) × (w ≢ idle)
  ready_of_waits idle w (some task) e =
      (task, refl, ground (arith, e), λ same. ground (arith, e, same))
  ready_of_waits idle w none e = absurd (true_ne_false (sym e))

  switch_to-run :
      (m : Machine Q) (w prev : ℕ) (task : Thread) (p : Process)
      → prev_pid queue m.sched m.sched.current_task ≡ ok prev
      → get m.sched.tasks w ≡ some task
      → get_elem? m.sched.processes task.pid ≡ some (some p)
      → task.stack_base + task.stack_len < word
      → (cpu : Cpu) × (switch_to queue m w
          ≡ ok (
            task.stack_pointer,
            record m { sched = record m.sched { current_task = some w }; cpu = cpu },
          ))
        × (cpu.kernel_rsp ≡ task.stack_base + task.stack_len)
  switch_to-run m w prev task p prev_ok at home fits =
      let top = task.stack_base + task.stack_len in
      let shown = show_bounds queue m.cpu (some p) in
      let add = add_u64_lem task.stack_base task.stack_len fits in
      elim (Bool-cases (prev == task.pid)) [
        | inl same ↦ (
          record shown { kernel_rsp = top; tss_rsp0 = top },
          rw (prev_ok, at, home, same, add) refl,
          refl,
        )
        | inr differ ↦ (
          record shown { cr3 = p.page_table; kernel_rsp = top; tss_rsp0 = top },
          rw (prev_ok, at, home, differ, add) refl,
          refl,
        )
      ]

  pub dispatch-Switched :
      (m : Machine Q) (idle v : ℕ) {free : List ℕ}
      → IsKept m.sched idle free
      → IsQueued queue none idle m.sched
      → ((prev : ℕ) × (prev_pid queue m.sched m.sched.current_task ≡ ok prev))
      → Switched m idle free (dispatch queue m (queue.rbtree_pick_eevdf m.sched.tree v))
  dispatch-Switched m idle v kept q (prev, prev_ok) =
      elim (Option-cases (queue.rbtree_pick_eevdf m.sched.tree v)) [
        | inl null ↦
            rw null (run_idle-Switched m idle kept q (λ t. queue.pick_null m.sched.tree v t null))
        | inr (node, picked) ↦
            (let w = node.task_id in
              let present = queue.pick_member m.sched.tree v node picked in
              let (task, at, up, not_idle) =
                ready_of_waits idle w (get m.sched.tasks w) (sym (q w) ∙ present) in
              let sane = kept.sane w task at in
              let (p, home) = sane.home (live_of_ready task.state up) in
              let removed : Machine Q = record m {
                sched = record m.sched { tree = queue.rbtree_remove m.sched.tree node };
              } in
              let (cpu, run, stack) =
                switch_to-run removed w prev task p prev_ok at home sane.top in
              (
                task.stack_pointer,
                record removed {
                  sched = record removed.sched { current_task = some w };
                  cpu = cpu;
                },
                w,
                task,
                rw (picked, run) refl,
                record {
                  kept =
                      current-IsKept m.sched idle (queue.rbtree_remove m.sched.tree node) (some w)
                        kept;
                  queued = λ j.
                      queue.contains-rbtree_remove m.sched.tree node j present
                      ∙ ap (λ b. not (j == w) && b) (q j)
                      ∙ chosen_waits w idle j (get m.sched.tasks j);
                  current = refl;
                  thread = at;
                  runs = up;
                  context = refl;
                  stack = stack;
                  tasks = refl;
                  graveyard = refl;
                  busy = λ u waiting. not_idle;
                },
              ))
      ]
