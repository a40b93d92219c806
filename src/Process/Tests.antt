-- ===== src/Process/Tests.antt =====
-- An instance of each theorem on the scheduler and on new threads, on five threads.
pub mod Five
use mathlib.Core.Option.{some-injective, none-ne-some}
use kernel_r.Prelude.{
  ℕ, zero, suc, ◌+◌, ◌≡◌, refl, sym, ◌∙◌, ap, subst, Option, none, some, List, [], ◌∷◌, Bool, true,
  false, ◌&&◌, ◌||◌, ◌==◌, not, has, arith, true_ne_false, ◌<◌, word, get_elem?, ok, if◌then◌else◌,
}
use kernel_r.Process.Arena.{ThreadSlot, occupied, get}
use kernel_r.Process.Arena.Free.{chain_end}
use kernel_r.Process.State.{
  Thread, ThreadState, ready, sleeping, blocked, zombie, Process, SchedNode, Scheduler, Machine,
  new_queue, is_zombie,
}
use kernel_r.Process.Scheduler.{RunQueue}
use kernel_r.Process.Scheduler.Valid.{IsKept, IsSane, IsQueued, HasProcess}
use kernel_r.Process.Scheduler.Charge.{HasTime}
use kernel_r.Process.Scheduler.Bury.{Reaped, reap_zombies-Reaped}
use kernel_r.Process.Scheduler.Tick.{IsScheduler, Ticked, schedule-Ticked}
use kernel_r.Process.Scheduler.Exit.{
  Exited, exit_thread-Exited, sleep_current_task-IsScheduler, wake_task-IsScheduler,
}
use kernel_r.Process.Scheduler.Wake.{IsWoken}
use kernel_r.Process.Scheduler.Add.{Added, add_task-Added}
use kernel_r.Process.Scheduler.{
  schedule, reap_zombies, exit_thread, sleep_current_task, wake_task, add_task,
}
use kernel_r.Process.Spawn.{new_thread, new_process, enter_process}
use kernel_r.Process.Spawn.Fresh.{IsFresh, new_thread-IsFresh}
use kernel_r.Process.Spawn.Entered.{Entered, enter_process-Entered}
use kernel_r.Process.Tests.Five.{
  queue, thread, process, processes, five, machine, pid_of, five-IsKept, five-IsScheduler,
  five-HasTime, five-Known, dead_pid, five_three,
}

schedule-Ticked_example : Ticked queue machine 0 (schedule queue machine 70000)
schedule-Ticked_example = schedule-Ticked queue machine 0 70000 five-IsScheduler five-HasTime

exit_thread-Exited_example :
    Exited queue five 0 3 (thread 3 ready (4 ∷ [])) [] (exit_thread queue five)
exit_thread-Exited_example =
    exit_thread-Exited queue five 0 3 (thread 3 ready (4 ∷ [])) five-IsScheduler refl five_three
      (λ u other e ne q. ne (sym (q ∙ pid_of u other (five-Known u other e)))) (omega arith)

wake_task-IsScheduler_example :
    (s' : Scheduler (List SchedNode)) × (wake_task queue five 4 ≡ ok s')
    × IsScheduler queue s' 0 []
    × IsWoken queue five s' 0 4 []
wake_task-IsScheduler_example = wake_task-IsScheduler queue five 0 4 five-IsScheduler

add_task-Added_example :
    Added queue five 0 (thread 1 ready []) (add_task queue five (thread 1 ready []))
add_task-Added_example = add_task-Added queue five 0 (thread 1 ready []) five-IsScheduler (record {
  up = refl;
  timed = record { weight = omega arith; word_weight = omega arith; burst = omega arith };
  top = omega arith;
  home = (process 1, refl);
  weighs = omega arith;
  fresh = λ t dead e z q. not_two dead.pid (dead_pid t dead e z) q;
})
  where
    not_two : (n : ℕ) → n ≡ 2 → n ≡ 1 → ⊥
    not_two n e q = absurd (omega (arith, e, q))

new_thread-IsFresh_example :
    (t : Thread) × (mem' : ℕ → ℕ) × (new_thread five 111 8192 (λ q. 7) 222 1024 ≡ ok (t, mem'))
    × IsFresh t mem' 111 8192 222 1024
new_thread-IsFresh_example =
    new_thread-IsFresh five 111 8192 (λ q. 7) 222 1024 (omega arith) (omega arith) (omega arith)
      (omega arith)

enter_process-Entered_example :
    Entered queue five 0 3 9 40960 20480 222 111 333 1024
      (enter_process queue five 111 333 8192 (λ q. 7) 3 9 40960 20480 222 1024)
enter_process-Entered_example =
    enter_process-Entered queue five 0 111 333 8192 (λ q. 7) 3 9 40960 20480 222 1024
      five-IsScheduler
      (record {
        least = omega arith;
        most = omega arith;
        stack = omega arith;
        early = omega arith;
        weighs = omega arith;
      })
      (λ pid t dead first e z q.
        first.free (process 2) (ap (get_elem? processes) (sym q ∙ dead_pid t dead e z)))
