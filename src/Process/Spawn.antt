-- ===== src/Process/Spawn.antt =====
-- `Thread::new`, `spawn` and the part of `spawn_user_process` after the loading of the program, of
-- src/process/process.rs. Memory is a function from addresses to 64-bit words; the allocator's stack,
-- the addresses of `exit_thread` and `user_mode_trampoline`, and the handle of the console file are
-- given.
pub mod Words
pub mod Fresh
pub mod Place
pub mod Entered
use kernel_r.Prelude.{
  ℕ, zero, suc, ◌+◌, ◌/◌, ◌≡◌, ◌&&◌, max, Run, ok, panic, ◌>>=◌, Option, none, some, List, [], ◌∷◌,
  ◌++◌, Bool, true, false, ltb, leb, length, get_elem?, set, store, replicate, add_u64, sub_u64,
  mul_u64, div_u64, shl_u64, if◌then◌else◌, ◌-◌, ◌<◌,
}
use kernel_r.Process.State.{Thread, ThreadContext, ready, Process, Scheduler, new_queue, max_fds}
use kernel_r.Process.Scheduler.{
  RunQueue, add_task, sub_i64, process_of, scheduler_target_latency, scheduler_min_granularity,
  nice_0_load,
}

abbrev pub kernel_stack_size : ℕ
kernel_stack_size = 131072

abbrev pub user_stack_size : ℕ
user_stack_size = 4194304

-- ThreadContext::default() with the registers that a new thread has.
abbrev pub first_context : ℕ → ℕ → ThreadContext
first_context entry_point rsp = record {
  r15 = 0;
  r14 = 0;
  r13 = 0;
  r12 = 0;
  r11 = 0;
  r10 = 0;
  r9 = 0;
  r8 = 0;
  rdi = 0;
  rsi = 0;
  rbp = 0;
  rbx = 0;
  rdx = 0;
  rcx = 0;
  rax = 0;
  error_code = 0;
  rip = entry_point;
  cs = 8;
  rflags = 514;
  rsp = rsp;
  ss = 0;
}

-- The words of a context in the order of their addresses (#[repr(C)]).
abbrev pub context_words : ThreadContext → List ℕ
context_words c =
    c.r15 ∷ c.r14 ∷ c.r13 ∷ c.r12 ∷ c.r11 ∷ c.r10 ∷ c.r9 ∷ c.r8 ∷ c.rdi ∷ c.rsi ∷ c.rbp ∷ c.rbx
    ∷ c.rdx ∷ c.rcx ∷ c.rax ∷ c.error_code ∷ c.rip ∷ c.cs ∷ c.rflags ∷ c.rsp ∷ c.ss ∷ []

abbrev pub write_words : (ℕ → ℕ) → ℕ → List ℕ → ℕ → ℕ
write_words mem a [] = mem
write_words mem a (w ∷ ws) = write_words (store mem a w) (a + 8) ws

-- vec![0; n]
abbrev pub zeroed : (ℕ → ℕ) → ℕ → ℕ → ℕ → ℕ
zeroed mem base n q = if leb base q && ltb q (base + n) then 0 else mem q

module _ {Q : Type 0} where
  -- if scheduler.total_weight > 0
  unfoldable pub first_slice : Scheduler Q → ℕ → Run ℕ
  first_slice s weight = do
    share ← mul_u64 weight scheduler_target_latency
    part ← div_u64 share (if ltb 0 s.total_weight then s.total_weight else weight)
    ok (max scheduler_min_granularity part)

  -- `Thread::new`, with the stack at `stack_base`: the thread and the memory.
  unfoldable pub new_thread :
      Scheduler Q
      → (exit stack_base : ℕ) → (mem : ℕ → ℕ) → (entry_point weight : ℕ) → Run (Thread × (ℕ → ℕ))
  new_thread s exit stack_base mem entry_point weight = do
    stack_end ← add_u64 stack_base kernel_stack_size
    return_addr_ptr ← sub_u64 stack_end 8
    initial_rsp ← sub_u64 return_addr_ptr 168
    let returning = store (zeroed mem stack_base kernel_stack_size) return_addr_ptr exit
    let written =
        write_words returning initial_rsp
          (context_words (first_context entry_point return_addr_ptr))
    time_slice ← first_slice s weight
    lag ← sub_i64 s.system_runtime 0
    scaled ← mul_u64 time_slice nice_0_load
    shifted ← shl_u64 scaled 20
    span ← div_u64 shifted weight
    deadline ← add_u64 0 span
    ok (
      record {
        tid = 0;
        pid = 0;
        stack_pointer = initial_rsp;
        state = ready;
        page_table = 0;
        stack_base = stack_base;
        stack_len = kernel_stack_size;
        weight = weight;
        real_runtime = 0;
        vruntime = 0;
        lag = lag;
        time_slice = time_slice;
        deadline = deadline;
        burst_score = 0;
        rb_node = none;
        next_waiter = none;
        join_queue = new_queue;
      },
      written,
    )

  unfoldable pub spawn :
      RunQueue Q
      → Scheduler Q
      → (exit stack_base : ℕ) → (mem : ℕ → ℕ) → (entry_point weight : ℕ)
      → Run (ℕ × (ℕ → ℕ) × Scheduler Q)
  spawn queue s exit stack_base mem entry_point weight = do
    (thread, written) ← new_thread s exit stack_base mem entry_point weight
    (tid, added) ← add_task queue s thread
    ok (tid, written, added)

-- The file descriptors 0, 1 and 2 are the console's.
abbrev pub console_fds : ℕ → List (Option ℕ)
console_fds console = some console ∷ some console ∷ some console ∷ replicate 1021 none

abbrev pub fds_of : ℕ → Option Process → List (Option ℕ)
fds_of console (some parent) = parent.fd_table
fds_of console none = console_fds console

-- The table of a parent is cloned, entry by entry.
abbrev pub first_fds : List (Option Process) → ℕ → ℕ → List (Option ℕ)
first_fds processes ppid console =
    if ltb 0 ppid
    then fds_of console (process_of (get_elem? processes ppid))
    else console_fds console

-- processes.iter().position(|p| p.is_none()), or the length.
abbrev pub free_pid : List (Option Process) → ℕ
free_pid [] = 0
free_pid (none ∷ rest) = 0
free_pid (some p ∷ rest) = suc (free_pid rest)

abbrev pub seat : List (Option Process) → ℕ → Process → List (Option Process)
seat processes pid p =
    if ltb pid (length processes) then set processes pid (some p) else processes ++ (some p ∷ [])

abbrev pub new_process : List (Option Process) → (ppid console pml4 heap_start : ℕ) → Process
new_process processes ppid console pml4 heap_start = record {
  pid = free_pid processes;
  ppid = ppid;
  exit_code = none;
  is_zombie = false;
  wait_queue = new_queue;
  page_table = pml4;
  heap_start = heap_start;
  program_break = heap_start;
  stack_start = 2147483648 - user_stack_size;
  stack_end = 2147483648;
  fd_table = first_fds processes ppid console;
}

-- What `spawn_user_process` does once the program is loaded: the process takes a place in the table,
-- and a thread of it starts at the trampoline, with the program's entry point in `rdi`.
unfoldable pub enter_process :
    {Q : Type 0}
    → RunQueue Q
    → Scheduler Q
    → (exit trampoline stack_base : ℕ) → (mem : ℕ → ℕ)
    → (ppid console pml4 heap_start entry_point weight : ℕ) → Run (ℕ × (ℕ → ℕ) × Scheduler Q)
enter_process queue s exit trampoline stack_base mem ppid console pml4 heap_start entry_point
      weight =
    do
      let pid = free_pid s.processes
      let process = new_process s.processes ppid console pml4 heap_start
      let seated = record s { processes = seat s.processes pid process }
      (thread, written) ← new_thread seated exit stack_base mem trampoline weight
      rdi ← add_u64 thread.stack_pointer 64
      (tid, added) ← add_task queue seated (record thread { pid = pid })
      ok (pid, store written rdi entry_point, added)
