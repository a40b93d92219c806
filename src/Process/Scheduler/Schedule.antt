-- ===== src/Process/Scheduler/Schedule.antt =====
-- `schedule`, and the threads that end, join and yield.
use kernel_r.Prelude.{
  ℕ, ◌/◌, Run, ok, panic, ◌>>=◌, Option, none, some, ◌∷◌, ◌++◌, [], Bool, true, false, not, ◌==◌,
  ltb, get_elem?, word, add_u64, shl_u64, shr_u64, if◌then◌else◌, ◌-◌,
}
use kernel_r.Process.Arena.{get, put, is_empty}
use kernel_r.Process.State.{
  Thread, Process, SchedNode, zombie, blocked, is_ready, is_zombie, Scheduler, Cpu, Machine,
  update_bounds,
}
use kernel_r.Process.Scheduler.Clock.{update_deadline, sub_i64, time_consumed}
use kernel_r.Process.Scheduler.Queue.{RunQueue, unwrap, enqueue, wake_all}
use kernel_r.Process.Scheduler.Reap.{process_of, reap_zombies}

module _ {Q : Type 0} (queue : RunQueue Q) where
  -- if self.total_weight > 0
  abbrev pub advance : Scheduler Q → Run ℕ
  advance s = do
    consumed ← shl_u64 time_consumed 20
    if ltb 0 s.total_weight
        then add_u64 s.system_runtime (consumed / s.total_weight)
        else ok s.system_runtime

  -- The running thread pays for its tick.
  abbrev pub charge : Scheduler Q → Thread → ℕ → Run (Thread × Scheduler Q)
  charge s task context = do
    runtime ← add_u64 task.real_runtime time_consumed
    burst ← add_u64 task.burst_score time_consumed
    half ← shr_u64 burst 1
    now ← advance s
    let paid = record task { stack_pointer = context; real_runtime = runtime; burst_score = half }
    timed ← update_deadline paid
    lag ← sub_i64 now timed.vruntime
    ok (record timed { lag = lag }, record s { system_runtime = now })

  -- A ready thread other than the idle one goes back to the tree.
  abbrev pub requeue : Scheduler Q → ℕ → Thread → Run (Scheduler Q)
  requeue s task_idx task =
      let back = (do
        (queued, tree) ← enqueue queue s.tree task
        ok (record s { tasks = put s.tasks task_idx queued; tree = tree })) in
      let left = ok (record s { tasks = put s.tasks task_idx task }) in
      let checked = (do
        idle ← unwrap s.idle_task_id
        if not (task.tid == idle) then back else left) in
      if is_ready task.state then checked else left

  abbrev pub settle_task : Scheduler Q → ℕ → Thread → ℕ → Run (Scheduler Q)
  settle_task s task_idx task context =
      let dead =
        requeue (record s { graveyard = s.graveyard ++ (task_idx ∷ []) }) task_idx
          (record task { rb_node = none }) in
      let alive = (do (charged, now) ← charge s task context; requeue now task_idx charged) in
      if is_zombie task.state then dead else alive

  abbrev pub settle_found : Scheduler Q → ℕ → Option Thread → ℕ → Run (Scheduler Q)
  settle_found s task_idx (some task) context = settle_task s task_idx task context
  settle_found s task_idx none context = ok s

  -- if let Some(task_idx) = self.current_task
  abbrev pub settle : Scheduler Q → Option ℕ → ℕ → Run (Scheduler Q)
  settle s (some task_idx) context = settle_found s task_idx (get s.tasks task_idx) context
  settle s none context = ok s

  abbrev pub show_bounds : Cpu → Option Process → Cpu
  show_bounds cpu (some p) = record cpu { bounds = update_bounds cpu.bounds p }
  show_bounds cpu none = cpu

  -- stack.as_ptr() + stack.len()
  abbrev pub stack_top : Thread → Run ℕ
  stack_top task = add_u64 task.stack_base task.stack_len

  -- The tree is empty.
  abbrev pub run_idle : Machine Q → Option ℕ → Run (ℕ × Machine Q)
  run_idle m (some idle_task_id) = do
    task ← unwrap (get m.sched.tasks idle_task_id)
    let shown = show_bounds m.cpu (process_of (get_elem? m.sched.processes task.pid))
    top ← stack_top task
    ok (
      task.stack_pointer,
      record m {
        sched = record m.sched { current_task = some idle_task_id };
        cpu = record shown { kernel_rsp = top };
      },
    )
  run_idle m none = panic

  -- The pid of the thread that ran; usize::MAX when there was none.
  abbrev pub prev_pid : Scheduler Q → Option ℕ → Run ℕ
  prev_pid s (some prev_idx) = do prev ← unwrap (get s.tasks prev_idx); ok prev.pid
  prev_pid s none = ok (word - 1)

  -- CR3 is written when the process changes.
  abbrev pub load_page_table : Cpu → ℕ → ℕ → Option Process → Run Cpu
  load_page_table cpu prev next found =
      let loaded = (do process ← unwrap found; ok (record cpu { cr3 = process.page_table })) in
      if prev == next then ok cpu else loaded

  abbrev pub switch_to : Machine Q → ℕ → Run (ℕ × Machine Q)
  switch_to m winner_idx = do
    prev ← prev_pid m.sched m.sched.current_task
    task ← unwrap (get m.sched.tasks winner_idx)
    let found = process_of (get_elem? m.sched.processes task.pid)
    loaded ← load_page_table (show_bounds m.cpu found) prev task.pid found
    top ← stack_top task
    ok (
      task.stack_pointer,
      record m {
        sched = record m.sched { current_task = some winner_idx };
        cpu = record loaded { kernel_rsp = top; tss_rsp0 = top };
      },
    )

  abbrev pub dispatch : Machine Q → Option SchedNode → Run (ℕ × Machine Q)
  dispatch m (some node) =
      switch_to
        (record m { sched = record m.sched { tree = queue.rbtree_remove m.sched.tree node } })
        node.task_id
  dispatch m none = run_idle m m.sched.idle_task_id

  -- The context to restore, and the state after. The page table's address is taken to be aligned,
  -- so that containing_address keeps it.
  unfoldable pub schedule : Machine Q → ℕ → Run (ℕ × Machine Q)
  schedule m context =
      let switched = (do
        clean ← reap_zombies m
        settled ← settle clean.sched clean.sched.current_task context
        dispatch (record clean { sched = settled })
            (queue.rbtree_pick_eevdf settled.tree settled.system_runtime)) in
      if is_empty m.sched.tasks then ok (context, m) else switched

  -- exit_thread up to its `int 0x20`, which calls `schedule`.
  unfoldable pub exit_thread : Scheduler Q → Run (Scheduler Q)
  exit_thread s = do
    tid ← unwrap s.current_task
    task ← unwrap (get s.tasks tid)
    (emptied, woken) ←
        wake_all queue task.join_queue
          (record s { tasks = put s.tasks tid (record task { state = zombie }) })
    dead ← unwrap (get woken.tasks tid)
    ok (record woken { tasks = put woken.tasks tid (record dead { join_queue = emptied }) })

module _ {Q : Type 0} where
  -- The wait of `join`: the caller is blocked, and in the target's queue.
  abbrev pub join_target : Scheduler Q → ℕ → ℕ → Option Thread → Run (Bool × Scheduler Q)
  join_target s current_id target_tid (some target) =
      let waits = (do
        current ← unwrap (get s.tasks current_id)
        let tasks = put s.tasks current_id (record current { state = blocked })
        let joined = record target {
          join_queue = record target.join_queue {
            waiters = target.join_queue.waiters ++ (current_id ∷ []);
          };
        }
        ok (true, record s { tasks = put tasks target_tid joined })) in
      if is_zombie target.state then ok (false, s) else waits
  join_target s current_id target_tid none = ok (false, s)

  -- `join` up to its `int 0x20`: whether the thread has to yield.
  unfoldable pub join : Scheduler Q → ℕ → Run (Bool × Scheduler Q)
  join s target_tid = do
    current_id ← unwrap s.current_task
    let joined = join_target s current_id target_tid (get s.tasks target_tid)
    if current_id == target_tid then ok (false, s) else joined
