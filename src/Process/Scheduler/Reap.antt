-- ===== src/Process/Scheduler/Reap.antt =====
-- `reap_zombies`: dead threads leave the arena, and the processes that no parent waits for leave
-- the table.
use kernel_r.Prelude.{
  ℕ, zero, suc, Run, ok, panic, ◌>>=◌, Option, none, some, List, [], ◌∷◌, ◌++◌, ◌==◌, length,
  get_elem?, set, if◌then◌else◌,
}
use kernel_r.Process.Arena.{remove}
use kernel_r.Process.State.{Thread, Process, Machine}
use kernel_r.Process.Scheduler.Queue.{same_task}

-- What a place of the process table is: out of range and an empty one are `none`.
abbrev pub process_of : Option (Option Process) → Option Process
process_of (some (some p)) = some p
process_of (some none) = none
process_of none = none

module _ {Q : Type 0} where
  -- destroy_user_address_space(process_box.page_table), for a process with no parent.
  abbrev pub drop_process : Machine Q → ℕ → Option Process → Machine Q
  drop_process m pid (some p) =
      let gone = record m {
        sched = record m.sched { processes = set m.sched.processes pid none };
        cpu = record m.cpu { destroyed = p.page_table ∷ m.cpu.destroyed };
      } in
      if p.ppid == 0 then gone else m
  drop_process m pid none = m

  abbrev pub bury : Machine Q → Option Thread → Machine Q
  bury m (some dead) = drop_process m dead.pid (process_of (get_elem? m.sched.processes dead.pid))
  bury m none = m

  -- One round of the loop. `pop_front` of an empty deque is `None`, which `unwrap` rejects unless
  -- it is what `current_task` is; then too `zombie_id.unwrap()` panics.
  abbrev pub reap_one : Machine Q → List ℕ → Run (Machine Q)
  reap_one m [] = panic
  reap_one m (zombie_id ∷ rest) =
      let removed = (do
        (dead, tasks) ← remove m.sched.tasks zombie_id
        ok (bury (record m { sched = record m.sched { tasks = tasks; graveyard = rest } }) dead)) in
      if same_task m.sched.current_task zombie_id
      then ok (record m { sched = record m.sched { graveyard = rest ++ (zombie_id ∷ []) } })
      else removed

  abbrev pub reap_rounds : ℕ → Machine Q → Run (Machine Q)
  reap_rounds zero m = ok m
  reap_rounds (suc n) m = do next ← reap_one m m.sched.graveyard; reap_rounds n next

  unfoldable pub reap_zombies : Machine Q → Run (Machine Q)
  reap_zombies m = reap_rounds (length m.sched.graveyard) m
