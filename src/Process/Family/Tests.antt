-- ===== src/Process/Family/Tests.antt =====
-- An instance of the theorem on `wait`: the caller is process 0, and all five are its children.
use mathlib.Core.Option.{some-injective, none-ne-some}
use kernel_r.Prelude.{ℕ, zero, suc, ◌≡◌, refl, sym, ap, ok, Option, some, List, [], get_elem?}
use kernel_r.Process.State.{Machine, SchedNode, Process, ready}
use kernel_r.Process.Arena.{get}
use kernel_r.Process.Tests.Five.{five, machine, process, processes, thread}
use kernel_r.Process.Family.{wait_round}
use kernel_r.Process.Family.Waiting.{IsCaller, Waited, wait_round-Waited}

abbrev waiter : Machine (List SchedNode)
waiter = record machine { sched = record five { current_task = some 0 } }

waiter-IsCaller : IsCaller waiter.sched 0 (thread 0 ready []) (process 0)
unfolding get
waiter-IsCaller = record { current = refl; thread = refl; home = refl; places = places }
  where
    pid_eq : (p q : Process) → some (some p) ≡ some (some q) → q.pid ≡ p.pid
    pid_eq p q e = sym (ap (λ x. x.pid) (some-injective p q (some-injective (some p) (some q) e)))

    places : (i : ℕ) (p : Process) → get_elem? processes i ≡ some (some p) → p.pid ≡ i
    places zero p e = pid_eq (process 0) p e
    places (suc zero) p e = pid_eq (process 1) p e
    places (suc (suc zero)) p e = pid_eq (process 2) p e
    places (suc (suc (suc zero))) p e = pid_eq (process 3) p e
    places (suc (suc (suc (suc zero)))) p e = pid_eq (process 4) p e
    places (suc (suc (suc (suc (suc i))))) p e = absurd (none-ne-some (some p) e)

wait_round-Waited_example :
    (out : Option ℕ × (ℕ → ℕ) × Machine (List SchedNode)) × (wait_round waiter (λ q. 0) 2 4096
      ≡ ok out)
    × Waited waiter (λ q. 0) 2 4096 0 (thread 0 ready []) (process 0) out
wait_round-Waited_example =
    wait_round-Waited waiter (λ q. 0) 2 4096 0 (thread 0 ready []) (process 0) waiter-IsCaller
