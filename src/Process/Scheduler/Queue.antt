-- ===== src/Process/Scheduler/Queue.antt =====
-- The run queue, and the operations that put threads in it: `add_task`, `wake_task`, and `wake_all`
-- of src/sync/sync.rs.
use kernel_r.Prelude.{
  ℕ, Run, ok, panic, ◌>>=◌, ◌≡◌, Option, none, some, List, [], ◌∷◌, Bool, true, false, ◌&&◌, ◌||◌,
  not, ◌==◌, ltb, ◌-◌, add_u64, if◌then◌else◌,
}
use kernel_r.Process.Arena.{insert, get, put}
use kernel_r.Process.State.{
  Thread, ready, sleeping, is_waiting, SchedNode, Scheduler, WaitQueue, new_queue,
}
use kernel_r.Process.Scheduler.Clock.{update_deadline}

-- What the scheduler relies on: a node that is not in the tree can be inserted, one that is in it
-- can be removed, and the pick is a node of the tree, null only when the tree is empty.
pub record RunQueue (Q : Type 0) : Type 0 where
  pub rbtree_insert : Q → SchedNode → Q
  pub rbtree_remove : Q → SchedNode → Q
  pub rbtree_pick_eevdf : Q → ℕ → Option SchedNode
  pub contains : Q → ℕ → Bool
  pub contains-rbtree_insert :
      (q : Q) (n : SchedNode) (t : ℕ)
      → contains q n.task_id ≡ false
      → contains (rbtree_insert q n) t ≡ (t == n.task_id) || contains q t
  pub contains-rbtree_remove :
      (q : Q) (n : SchedNode) (t : ℕ)
      → contains q n.task_id ≡ true
      → contains (rbtree_remove q n) t ≡ not (t == n.task_id) && contains q t
  pub pick_member :
      (q : Q) (v : ℕ) (n : SchedNode) → rbtree_pick_eevdf q v ≡ some n → contains q n.task_id ≡ true
  pub pick_null : (q : Q) (v t : ℕ) → rbtree_pick_eevdf q v ≡ none → contains q t ≡ false

abbrev pub unwrap {ℓ} : {A : Type ℓ} → Option A → Run A
unwrap (some a) = ok a
unwrap none = panic

abbrev pub same_task : Option ℕ → ℕ → Bool
same_task (some c) t = c == t
same_task none t = false

module _ {Q : Type 0} (queue : RunQueue Q) where
  -- The node of a thread with its times, and the tree with it. A write through null is a fault.
  abbrev pub enqueue : Q → Thread → Run (Thread × Q)
  enqueue tree task = do
    node ← unwrap task.rb_node
    let filled = record node { vruntime = task.vruntime; deadline = task.deadline }
    ok (record task { rb_node = some filled }, queue.rbtree_insert tree filled)

  unfoldable pub add_task : Scheduler Q → Thread → Run (ℕ × Scheduler Q)
  add_task s task = do
    weight ← add_u64 s.total_weight task.weight
    (task_id, tasks) ← insert s.tasks task
    added ← unwrap (get tasks task_id)
    let node : SchedNode = record {
      vruntime = task.vruntime;
      task_id = task_id;
      deadline = task.deadline;
      min_deadline = task.deadline;
    }
    let boxed = record added { tid = task_id; rb_node = some node }
    ok (
      task_id,
      record s {
        total_weight = weight;
        tasks = put tasks task_id boxed;
        tree = queue.rbtree_insert s.tree node;
      },
    )

  -- A thread that waits is ready again, and in the tree unless it is the one that runs.
  abbrev pub wake_waiting : Scheduler Q → ℕ → Thread → Run (Scheduler Q)
  wake_waiting s task_idx task = do
    let min_vruntime = s.system_runtime - task.time_slice
    let raised = if ltb task.vruntime min_vruntime then min_vruntime else task.vruntime
    woken ← update_deadline (record task { state = ready; vruntime = raised; burst_score = 0 })
    if same_task s.current_task task_idx
        then ok (record s { tasks = put s.tasks task_idx woken })
        else (do
          (queued, tree) ← enqueue s.tree woken
          ok (record s { tasks = put s.tasks task_idx queued; tree = tree }))

  abbrev pub wake_found : Scheduler Q → ℕ → Option Thread → Run (Scheduler Q)
  wake_found s task_idx (some task) =
      let woken = wake_waiting s task_idx task in if is_waiting task.state then woken else ok s
  wake_found s task_idx none = ok s

  unfoldable pub wake_task : Scheduler Q → ℕ → Run (Scheduler Q)
  wake_task s task_idx = wake_found s task_idx (get s.tasks task_idx)

  -- `while let Some(head_id) = state.waiters.pop_front()`
  abbrev pub wake_each : List ℕ → Scheduler Q → Run (Scheduler Q)
  wake_each [] s = ok s
  wake_each (head_id ∷ rest) s = do woken ← wake_task s head_id; wake_each rest woken

  unfoldable pub wake_all : WaitQueue → Scheduler Q → Run (WaitQueue × Scheduler Q)
  wake_all w s = do woken ← wake_each w.waiters s; ok (new_queue, woken)

module _ {Q : Type 0} where
  unfoldable pub set_idle_task : Scheduler Q → Thread → Run (Scheduler Q)
  set_idle_task s task = do
    (task_id, tasks) ← insert s.tasks task
    added ← unwrap (get tasks task_id)
    ok (record s {
      tasks = put tasks task_id (record added { tid = task_id });
      idle_task_id = some task_id;
    })

  abbrev pub sleep_by : Scheduler Q → Option ℕ → Run (Scheduler Q)
  sleep_by s (some task_idx) = do
    task ← unwrap (get s.tasks task_idx)
    ok (record s { tasks = put s.tasks task_idx (record task { state = sleeping }) })
  sleep_by s none = ok s

  unfoldable pub sleep_current_task : Scheduler Q → Run (Scheduler Q)
  sleep_current_task s = sleep_by s s.current_task
