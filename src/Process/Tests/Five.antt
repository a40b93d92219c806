-- ===== src/Process/Tests/Five.antt =====
-- A scheduler with five threads: the idle one (0), one that waits (1), a dead one (2), the one that
-- runs (3), and one that has joined it (4). The run queue is a list of nodes.
use mathlib.Core.Option.{some-injective, none-ne-some}
use kernel_r.Prelude.{
  ℕ, zero, suc, ◌+◌, ◌≡◌, refl, sym, ◌∙◌, ap, subst, Option, none, some, List, [], ◌∷◌, Bool, true,
  false, ◌&&◌, ◌||◌, ◌==◌, not, has, arith, true_ne_false, ◌<◌, word, get_elem?, if◌then◌else◌,
}
use kernel_r.Process.Arena.{ThreadSlot, occupied, get}
use kernel_r.Process.Arena.Free.{chain_end}
use kernel_r.Process.State.{
  Thread, ThreadState, ready, blocked, zombie, Process, SchedNode, Scheduler, Machine, new_queue,
  is_zombie,
}
use kernel_r.Process.Scheduler.{RunQueue}
use kernel_r.Process.Scheduler.Valid.{IsKept, IsSane, IsQueued, HasProcess}
use kernel_r.Process.Scheduler.Charge.{HasTime}
use kernel_r.Process.Scheduler.Tick.{IsScheduler}

abbrev pub member : List SchedNode → ℕ → Bool
member [] t = false
member (n ∷ rest) t = (t == n.task_id) || member rest t

abbrev pub without : List SchedNode → ℕ → List SchedNode
without [] t = []
without (n ∷ rest) t = let kept = without rest t in if n.task_id == t then kept else n ∷ kept

abbrev pub first : List SchedNode → Option SchedNode
first [] = none
first (n ∷ rest) = some n

pub member-without :
    (q : List SchedNode) (id t : ℕ) → member (without q id) t ≡ not (t == id) && member q t
member-without [] id t = ground arith
member-without (n ∷ rest) id t = ground (arith, member-without rest id t)

pub first-member :
    (q : List SchedNode) (n : SchedNode) → first q ≡ some n → member q n.task_id ≡ true
first-member [] n e = absurd (none-ne-some n e)
first-member (m ∷ rest) n e = ground (arith, ap (λ x. x.task_id) (some-injective m n e))

pub first-none : (q : List SchedNode) (t : ℕ) → first q ≡ none → member q t ≡ false
first-none [] t e = refl
first-none (m ∷ rest) t e = absurd (none-ne-some m (sym e))

abbrev pub queue : RunQueue (List SchedNode)
queue = record {
  rbtree_insert = λ q n. n ∷ q;
  rbtree_remove = λ q n. without q n.task_id;
  rbtree_pick_eevdf = λ q v. first q;
  contains = member;
  contains-rbtree_insert = λ q n t out. refl;
  contains-rbtree_remove = λ q n t inside. member-without q n.task_id t;
  pick_member = λ q v n e. first-member q n e;
  pick_null = λ q v t e. first-none q t e;
}

abbrev pub node_of : ℕ → SchedNode
node_of t = record { vruntime = 0; task_id = t; deadline = 0; min_deadline = 0 }

abbrev pub thread : ℕ → ThreadState → List ℕ → Thread
thread t state joined = record {
  tid = t;
  pid = t;
  stack_pointer = 4096 + t;
  state = state;
  page_table = 0;
  stack_base = 8192;
  stack_len = 131072;
  weight = 1024;
  real_runtime = 5000000;
  vruntime = 0;
  lag = 0;
  time_slice = 4000000;
  deadline = 0;
  burst_score = 0;
  rb_node = some (node_of t);
  next_waiter = none;
  join_queue = record { waiters = joined };
}

abbrev pub process : ℕ → Process
process pid = record {
  pid = pid;
  ppid = 0;
  exit_code = none;
  is_zombie = false;
  wait_queue = new_queue;
  page_table = 4096 + pid;
  heap_start = 0;
  program_break = 0;
  stack_start = 0;
  stack_end = 0;
  fd_table = [];
}

abbrev pub processes : List (Option Process)
processes =
    some (process 0)
    ∷ some (process 1)
    ∷ some (process 2)
    ∷ some (process 3)
    ∷ some (process 4)
    ∷ []

abbrev pub five : Scheduler (List SchedNode)
five = record {
  processes = processes;
  tasks = record {
    slots =
        occupied (thread 0 ready [])
        ∷ occupied (thread 1 ready [])
        ∷ occupied (thread 2 zombie [])
        ∷ occupied (thread 3 ready (4 ∷ []))
        ∷ occupied (thread 4 blocked [])
        ∷ [];
    free_head = none;
  };
  total_weight = 5120;
  system_runtime = 9000000;
  current_task = some 3;
  tree = node_of 1 ∷ [];
  idle_task_id = some 0;
  graveyard = 2 ∷ [];
}

abbrev pub machine : Machine (List SchedNode)
machine = record {
  sched = five;
  cpu = record {
    cr3 = 4099;
    kernel_rsp = 0;
    tss_rsp0 = 0;
    bounds = record { heap_start = 0; program_break = 0; stack_start = 0; stack_end = 0 };
    destroyed = [];
  };
}

abbrev three : ℕ
three = 3

thread-IsSane :
    (t : ℕ) (state : ThreadState) (joined : List ℕ)
    → HasProcess processes t
    → IsSane processes 0 t (thread t state joined)
thread-IsSane t state joined has_process = record {
  tid = refl;
  timed = record { weight = omega arith; word_weight = omega arith; burst = omega arith };
  top = omega arith;
  node = λ live ne. (node_of t, refl, refl);
  home = λ live. has_process;
}

-- What the five ids have.
pub data Known : ℕ → Thread → Type 0 where
  known :
      (t : ℕ) (state : ThreadState) (joined : List ℕ)
      → HasProcess processes t
      → Known t (thread t state joined)

Known-some :
    (t : ℕ) (state : ThreadState) (joined : List ℕ) (task : Thread)
    → HasProcess processes t
    → some (thread t state joined) ≡ some task
    → Known t task
Known-some t state joined task home e =
    subst (Known t) (some-injective (thread t state joined) task e) (known t state joined home)

pub five-Known : (t : ℕ) (task : Thread) → get five.tasks t ≡ some task → Known t task
unfolding get
five-Known zero task e = Known-some 0 ready [] task (process 0, refl) e
five-Known (suc zero) task e = Known-some 1 ready [] task (process 1, refl) e
five-Known (suc (suc zero)) task e = Known-some 2 zombie [] task (process 2, refl) e
five-Known (suc (suc (suc zero))) task e = Known-some 3 ready (4 ∷ []) task (process 3, refl) e
five-Known (suc (suc (suc (suc zero)))) task e = Known-some 4 blocked [] task (process 4, refl) e
five-Known (suc (suc (suc (suc (suc t))))) task e = absurd (none-ne-some task e)

pub pid_of : (t : ℕ) (task : Thread) → Known t task → task.pid ≡ t
pid_of t task (known _ state joined home) = refl

pub five-IsKept : IsKept five 0 []
unfolding get
five-IsKept = record {
  arena = record { chain = chain_end; distinct = tt; complete = no_empty };
  sane = λ t task e. sane_known t task (five-Known t task e);
  alone = λ t dead e z u other e' ne q.
      ne (
        sym (pid_of u other (five-Known u other e')) ∙ sym q ∙ pid_of t dead (five-Known t dead e));
  idle_id = refl;
  idle_ready = (thread 0 ready [], refl, refl);
  buried =
      λ g i. (thread 2 zombie [], ap (get five.tasks) {x = g} {y = 2} (ground (arith, i)), refl);
  distinct = (refl, tt);
}
  where
    sane_known : (t : ℕ) (task : Thread) → Known t task → IsSane processes 0 t task
    sane_known t task (known _ state joined home) = thread-IsSane t state joined home

    no_empty :
        (x : ℕ) (next : Option ℕ)
        → get_elem? five.tasks.slots x ≡ some (ThreadSlot.empty next)
        → has x [] ≡ true
    no_empty zero next e = cc
    no_empty (suc zero) next e = cc
    no_empty (suc (suc zero)) next e = cc
    no_empty (suc (suc (suc zero))) next e = cc
    no_empty (suc (suc (suc (suc zero)))) next e = cc
    no_empty (suc (suc (suc (suc (suc x))))) next e = cc

pub five-IsScheduler : IsScheduler queue five 0 []
unfolding get
five-IsScheduler = record {
  kept = five-IsKept;
  queued = queued;
  current = λ c is_c. (
    thread 3 ready (4 ∷ []),
    ap (get five.tasks) {x = c} {y = 3} (sym (some-injective three c is_c)),
  );
  lively = λ z i. ground (arith, i);
}
  where
    queued : IsQueued queue (some 3) 0 five
    queued zero = refl
    queued (suc zero) = refl
    queued (suc (suc zero)) = refl
    queued (suc (suc (suc zero))) = refl
    queued (suc (suc (suc (suc zero)))) = refl
    queued (suc (suc (suc (suc (suc t))))) = ground arith

pub five-HasTime : HasTime five
five-HasTime = record {
  system = omega arith;
  threads = λ t task e. time_known t task (five-Known t task e);
}
  where
    time_known : (t : ℕ) (task : Thread) → Known t task → task.real_runtime + 1000000 < word
    time_known t task (known _ state joined home) = omega arith

state_of :
    (task dead : Thread) → some task ≡ some dead → is_zombie dead.state ≡ is_zombie task.state
state_of task dead e = sym (ap (λ x. is_zombie x.state) (some-injective task dead e))

pub five_three : get five.tasks 3 ≡ some (thread 3 ready (4 ∷ []))
unfolding get
five_three = refl

-- Only thread 2 is dead.
dead_is :
    (t : ℕ) (dead : Thread) → get five.tasks t ≡ some dead → is_zombie dead.state ≡ true → t ≡ 2
unfolding get
dead_is zero dead e z = absurd (true_ne_false (sym z ∙ state_of (thread 0 ready []) dead e))
dead_is (suc zero) dead e z = absurd (true_ne_false (sym z ∙ state_of (thread 1 ready []) dead e))
dead_is (suc (suc zero)) dead e z = refl
dead_is (suc (suc (suc zero))) dead e z =
    absurd (true_ne_false (sym z ∙ state_of (thread 3 ready (4 ∷ [])) dead e))
dead_is (suc (suc (suc (suc zero)))) dead e z =
    absurd (true_ne_false (sym z ∙ state_of (thread 4 blocked []) dead e))
dead_is (suc (suc (suc (suc (suc t))))) dead e z = absurd (none-ne-some dead e)

pub dead_pid :
    (t : ℕ) (dead : Thread)
    → get five.tasks t ≡ some dead
    → is_zombie dead.state ≡ true
    → dead.pid ≡ 2
dead_pid t dead e z = pid_of t dead (five-Known t dead e) ∙ dead_is t dead e z
