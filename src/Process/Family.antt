-- ===== src/Process/Family.antt =====
-- `exit` (60) and `wait` (61) of src/process/syscall.rs: a process that ends stays in the table
-- until its parent waits for it. Printing is not modelled.
pub mod Children
pub mod Waiting
mod Tests
use kernel_r.Prelude.{
  ℕ, ◌+◌, ◌-◌, ◌%◌, ◌^◌, Run, ok, ◌>>=◌, Option, none, some, List, [], ◌∷◌, ◌++◌, Bool, true, false,
  ◌&&◌, ◌||◌, not, ◌==◌, ltb, get_elem?, set, store, map, word, if◌then◌else◌,
}
use kernel_r.Process.Arena.{get, put}
use kernel_r.Process.State.{Thread, Process, Scheduler, Machine, WaitQueue, blocked}
use kernel_r.Process.Scheduler.{RunQueue, unwrap, process_of, wake_all, exit_thread}

abbrev pub echild : ℕ
echild = word - 10

-- p.ppid == current_pid, and the target is -1 or the child.
abbrev pub is_wanted : ℕ → ℕ → Process → Bool
is_wanted current_pid target p =
    (p.ppid == current_pid) && ((target == word - 1) || (target == p.pid))

-- `child_found` and `zombie_child` after the loop over the table.
abbrev pub find_child : ℕ → ℕ → List (Option Process) → Bool × Option Process
find_child current_pid target [] = (false, none)
find_child current_pid target (none ∷ rest) = find_child current_pid target rest
find_child current_pid target (some p ∷ rest) =
    let (found, child) = find_child current_pid target rest in
    if is_wanted current_pid target p
    then (if p.is_zombie then (true, some p) else (true, child))
    else (found, child)

abbrev pub code_of : Option ℕ → ℕ
code_of (some code) = code
code_of none = 0

-- The dead process in the table.
abbrev pub mark_dead : List (Option Process) → ℕ → ℕ → Option Process → List (Option Process)
mark_dead ps pid code (some p) =
    set ps pid (some (record p { exit_code = some code; is_zombie = true }))
mark_dead ps pid code none = ps

abbrev pub orphan : ℕ → Option Process → Option Process
orphan pid (some child) = some (if child.ppid == pid then record child { ppid = 0 } else child)
orphan pid none = none

abbrev pub parent_of : Option Process → Option ℕ
parent_of (some p) = some p.ppid
parent_of none = none

module _ {Q : Type 0} where
  -- The child's place is free, its page tables are destroyed, and its code is written where the
  -- pointer is one of the user's. `mem` has the words of 32 bits.
  abbrev pub harvest : Machine Q → (ℕ → ℕ) → ℕ → Process → Option ℕ × (ℕ → ℕ) × Machine Q
  harvest m mem status_ptr p = (
    some p.pid,
    (if not (status_ptr == 0) && ltb status_ptr 2147483648
        then store mem status_ptr (code_of p.exit_code)
        else mem),
    record m {
      sched = record m.sched { processes = set m.sched.processes p.pid none };
      cpu = record m.cpu { destroyed = p.page_table ∷ m.cpu.destroyed };
    },
  )

  -- The thread is blocked, in the wait queue of its process.
  abbrev pub await : Scheduler Q → ℕ → ℕ → Thread → Run (Scheduler Q)
  await s id pid task = do
    parent ← unwrap (process_of (get_elem? s.processes pid))
    let waiting = record parent {
      wait_queue = record parent.wait_queue { waiters = parent.wait_queue.waiters ++ (id ∷ []) };
    }
    ok (record s {
      tasks = put s.tasks id (record task { state = blocked });
      processes = set s.processes pid (some waiting);
    })

  abbrev pub wait_by :
      Machine Q
      → (ℕ → ℕ)
      → ℕ
      → ℕ
      → Thread
      → Bool × Option Process
      → Run (Option ℕ × (ℕ → ℕ) × Machine Q)
  wait_by m mem status_ptr id task (false, child) = ok (some echild, mem, m)
  wait_by m mem status_ptr id task (true, some p) = do
    slot ← unwrap (get_elem? m.sched.processes p.pid)
    ok (harvest m mem status_ptr p)
  wait_by m mem status_ptr id task (true, none) = do
    asleep ← await m.sched id task.pid task
    ok (none, mem, record m { sched = asleep })

  -- A round of the loop: the answer in rax, or none when the thread sleeps and tries again.
  unfoldable pub wait_round :
      Machine Q → (ℕ → ℕ) → (target status_ptr : ℕ) → Run (Option ℕ × (ℕ → ℕ) × Machine Q)
  wait_round m mem target status_ptr = do
    id ← unwrap m.sched.current_task
    task ← unwrap (get m.sched.tasks id)
    wait_by m mem status_ptr id task (find_child task.pid target m.sched.processes)

  -- The parent's queue, if it has one.
  abbrev pub wake_parent : RunQueue Q → Scheduler Q → ℕ → Option Process → Run (Scheduler Q)
  wake_parent queue s ppid (some parent) = do
    (emptied, woken) ← wake_all queue parent.wait_queue s
    ok (record woken {
      processes = set woken.processes ppid (some (record parent { wait_queue = emptied }));
    })
  wake_parent queue s ppid none = ok s

  abbrev pub tell_parent : RunQueue Q → Scheduler Q → Option ℕ → Run (Scheduler Q)
  tell_parent queue s (some ppid) =
      wake_parent queue s ppid (process_of (get_elem? s.processes ppid))
  tell_parent queue s none = ok s

  -- `exit` up to the `int 0x20` of exit_thread.
  unfoldable pub sys_exit : RunQueue Q → Scheduler Q → ℕ → Run (Scheduler Q)
  sys_exit queue s arg = do
    id ← unwrap s.current_task
    task ← unwrap (get s.tasks id)
    let own = process_of (get_elem? s.processes task.pid)
    let marked = mark_dead s.processes task.pid (arg % 2 ^ 32) own
    let left = record s { processes = map (orphan task.pid) marked }
    told ← tell_parent queue left (parent_of own)
    exit_thread queue told
