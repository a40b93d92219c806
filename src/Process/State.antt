-- ===== src/Process/State.antt =====
-- src/process/process.rs: threads, processes and the scheduler's state, with the `WaitQueue` of
-- src/sync/sync.rs. The run queue, a red-black tree in C, is of any type `Q`.
use kernel_r.Prelude.{ℕ, Bool, true, false, Option, List, []}
use kernel_r.Process.Arena.{ThreadArena}

pub record ThreadContext : Type 0 where
  pub r15 : ℕ
  pub r14 : ℕ
  pub r13 : ℕ
  pub r12 : ℕ
  pub r11 : ℕ
  pub r10 : ℕ
  pub r9 : ℕ
  pub r8 : ℕ
  pub rdi : ℕ
  pub rsi : ℕ
  pub rbp : ℕ
  pub rbx : ℕ
  pub rdx : ℕ
  pub rcx : ℕ
  pub rax : ℕ
  pub error_code : ℕ
  pub rip : ℕ
  pub cs : ℕ
  pub rflags : ℕ
  pub rsp : ℕ
  pub ss : ℕ

pub data ThreadState : Type 0 where
  running : ThreadState
  ready : ThreadState
  sleeping : ThreadState
  blocked : ThreadState
  zombie : ThreadState

abbrev pub is_ready : ThreadState → Bool
is_ready ready = true
is_ready _ = false

abbrev pub is_zombie : ThreadState → Bool
is_zombie zombie = true
is_zombie _ = false

-- state == Sleeping || state == Blocked
abbrev pub is_waiting : ThreadState → Bool
is_waiting sleeping = true
is_waiting blocked = true
is_waiting _ = false

-- The deque of its lock-protected state; the lock is not modelled.
pub record WaitQueue : Type 0 where
  pub waiters : List ℕ

abbrev pub new_queue : WaitQueue
new_queue = record { waiters = [] }

abbrev pub max_fds : ℕ
max_fds = 1024

-- A file is a handle: the number of an open file, of which several tables may have clones.
pub record Process : Type 0 where
  pub pid : ℕ
  pub ppid : ℕ
  pub exit_code : Option ℕ
  pub is_zombie : Bool
  pub wait_queue : WaitQueue
  pub page_table : ℕ
  pub heap_start : ℕ
  pub program_break : ℕ
  pub stack_start : ℕ
  pub stack_end : ℕ
  pub fd_table : List (Option ℕ)

-- The links of the tree are the C code's.
pub record SchedNode : Type 0 where
  pub vruntime : ℕ
  pub task_id : ℕ
  pub deadline : ℕ
  pub min_deadline : ℕ

-- The stack is the address of its first byte and its length. `rb_node` is `none` for null; a node is
-- written only while it is outside the tree, so that the tree may hold its value.
pub record Thread : Type 0 where
  pub tid : ℕ
  pub pid : ℕ
  pub stack_pointer : ℕ
  pub state : ThreadState
  pub page_table : ℕ
  pub stack_base : ℕ
  pub stack_len : ℕ
  pub weight : ℕ
  pub real_runtime : ℕ
  pub vruntime : ℕ
  pub lag : ℕ
  pub time_slice : ℕ
  pub deadline : ℕ
  pub burst_score : ℕ
  pub rb_node : Option SchedNode
  pub next_waiter : Option ℕ
  pub join_queue : WaitQueue

pub record CurrentBounds : Type 0 where
  pub heap_start : ℕ
  pub program_break : ℕ
  pub stack_start : ℕ
  pub stack_end : ℕ

-- The atomics are written one after the other, and read by the page fault handler alone.
unfoldable pub update_bounds : CurrentBounds → Process → CurrentBounds
update_bounds b process = record b {
  heap_start = process.heap_start;
  program_break = process.program_break;
  stack_start = process.stack_start;
  stack_end = process.stack_end;
}

pub record Scheduler (Q : Type 0) : Type 0 where
  pub processes : List (Option Process)
  pub tasks : ThreadArena Thread
  pub total_weight : ℕ
  pub system_runtime : ℕ
  pub current_task : Option ℕ
  pub tree : Q
  pub idle_task_id : Option ℕ
  pub graveyard : List ℕ

-- What the scheduler writes outside its own state: CR3, the kernel stack of PER_CPU_0, the stack of
-- the TSS, CURRENT_BOUNDS, and the page tables given to destroy_user_address_space, last first.
pub record Cpu : Type 0 where
  pub cr3 : ℕ
  pub kernel_rsp : ℕ
  pub tss_rsp0 : ℕ
  pub bounds : CurrentBounds
  pub destroyed : List ℕ

pub record Machine (Q : Type 0) : Type 0 where
  pub sched : Scheduler Q
  pub cpu : Cpu
