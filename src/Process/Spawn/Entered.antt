-- ===== src/Process/Spawn/Entered.antt =====
-- A new process has a free place of the table and a thread in the run queue.
use kernel_r.Prelude.{
  ℕ, ◌+◌, ◌^◌, ◌≤◌, ◌<◌, ◌≡◌, ◌≢◌, refl, sym, ◌∙◌, ap, Option, none, some, true, List, Run, ok,
  word, arith, store, store_self, store_ne, get_elem?, get_or, add_u64_lem,
}
use kernel_r.Process.Arena.{get}
use kernel_r.Process.State.{Thread, Process, Scheduler, is_ready, is_zombie}
use kernel_r.Process.Scheduler.{RunQueue, half}
use kernel_r.Process.Scheduler.Clock.Bounds.{IsTimed}
use kernel_r.Process.Scheduler.Valid.{HasProcess}
use kernel_r.Process.Scheduler.Tick.{IsScheduler}
use kernel_r.Process.Scheduler.Add.{IsNew, add_task-Added}
use kernel_r.Process.Spawn.{enter_process, free_pid, seat, new_process, kernel_stack_size}
use kernel_r.Process.Spawn.Place.{
  IsFirstFree, IsStarted, free_pid-IsFirstFree, seat_at, seat_others, new_process-IsStarted,
}
use kernel_r.Process.Spawn.Fresh.{IsFresh, new_thread-IsFresh}

module _ {Q : Type 0} (queue : RunQueue Q) where
  grown-IsScheduler :
      (s : Scheduler Q) (idle : ℕ) (ps : List (Option Process)) {free : List ℕ}
      → ((pid : ℕ) → HasProcess s.processes pid → HasProcess ps pid)
      → IsScheduler queue s idle free
      → IsScheduler queue (record s { processes = ps }) idle free
  grown-IsScheduler s idle ps grows v = record {
    kept = record {
      arena = v.kept.arena;
      sane = λ t task e.
          (let sane = v.kept.sane t task e in
            record {
              tid = sane.tid;
              timed = sane.timed;
              top = sane.top;
              node = sane.node;
              home = λ live. grows task.pid (sane.home live);
            });
      alone = v.kept.alone;
      idle_id = v.kept.idle_id;
      idle_ready = v.kept.idle_ready;
      buried = v.kept.buried;
      distinct = v.kept.distinct;
    };
    queued = v.queued;
    current = v.current;
    lively = v.lively;
  }

  -- Room for one more thread with its stack.
  pub record HasRoom (s : Scheduler Q) (stack_base weight : ℕ) : Type 0 where
    pub least : 4 ≤ weight
    pub most : weight < 2 ^ 31
    pub stack : stack_base + kernel_stack_size < word
    pub early : s.system_runtime < half
    pub weighs : s.total_weight + weight < word

  -- The words of a thread that starts at `entry` with `argument`: rip, rdi and the word it returns to.
  abbrev pub Starts : (ℕ → ℕ) → Thread → (entry argument exit : ℕ) → Type 0
  Starts mem thread entry argument exit =
      (mem (thread.stack_pointer + 128) ≡ entry)
      × (mem (thread.stack_pointer + 64) ≡ argument)
      × (mem (thread.stack_pointer + 168) ≡ exit)

  -- A process in the first free place, and its thread, ready and in the tree.
  abbrev pub Entered :
      Scheduler Q
      → (idle ppid console pml4 heap_start entry exit trampoline weight : ℕ)
      → Run (ℕ × (ℕ → ℕ) × Scheduler Q)
      → Type 0
  Entered s idle ppid console pml4 heap_start entry exit trampoline weight run =
      (pid : ℕ) × (mem' : ℕ → ℕ) × (s' : Scheduler Q) × (free' : List ℕ) × (run
        ≡ ok (pid, mem', s'))
      × IsScheduler queue s' idle free'
      × IsFirstFree s.processes pid
      × ((p : Process) × (get_elem? s'.processes pid ≡ some (some p))
          × IsStarted s.processes pid ppid console pml4 heap_start p)
      × ((j : ℕ) → j ≢ pid → get_elem? s'.processes j ≡ get_elem? s.processes j)
      × ((t : ℕ) × (thread : Thread) × (get s.tasks t ≡ none)
          × (get s'.tasks t ≡ some thread)
          × (thread.pid ≡ pid)
          × (thread.weight ≡ weight)
          × (is_ready thread.state ≡ true)
          × (queue.contains s'.tree t ≡ true)
          × Starts mem' thread trampoline entry exit
          × ((j : ℕ) → j ≢ t → get s'.tasks j ≡ get s.tasks j))

  saved_word :
      (mem : ℕ → ℕ) (thread : Thread) (exit base entry weight : ℕ)
      → IsFresh thread mem exit base entry weight
      → mem (thread.stack_pointer + 128) ≡ entry
  saved_word mem thread exit base entry weight f =
      ap mem {x = thread.stack_pointer + 128} (omega arith) ∙ ap (λ ws. get_or ws 16 0) f.saved

  seat_keeps :
      (ps : List (Option Process)) (p q : Process) (j : ℕ)
      → get_elem? ps j ≡ some (some q)
      → get_elem? (seat ps (free_pid ps) p) j ≡ some (some q)
  seat_keeps ps p q j e =
      seat_others ps p j
        (λ same. (free_pid-IsFirstFree ps).free q (ap (get_elem? ps) (sym same) ∙ e))
      ∙ e

  -- With the invariant, room, and no dead thread left of the first free place's last process, the
  -- rest of spawn_user_process does not panic and keeps the invariant: a process that has just
  -- started takes the first free place, every other place is as before, and its thread is ready, in
  -- the tree, starts at the trampoline with the entry point in rdi, and returns to exit_thread.
  pub enter_process-Entered :
      (s : Scheduler Q) (idle exit trampoline stack_base : ℕ) (mem : ℕ → ℕ)
      (ppid console pml4 heap_start entry_point weight : ℕ) {free : List ℕ}
      → IsScheduler queue s idle free
      → HasRoom s stack_base weight
      → ((pid t : ℕ) (dead : Thread)
          → IsFirstFree s.processes pid
          → get s.tasks t ≡ some dead
          → is_zombie dead.state ≡ true
          → dead.pid ≢ pid)
      → Entered s idle ppid console pml4 heap_start entry_point exit trampoline weight (
          enter_process queue s exit trampoline stack_base mem ppid console pml4 heap_start
            entry_point weight)
  unfolding enter_process
  enter_process-Entered s idle exit trampoline stack_base mem ppid console pml4 heap_start
        entry_point weight v room fresh =
      let pid = free_pid s.processes in
      let p = new_process s.processes ppid console pml4 heap_start in
      let ps = seat s.processes pid p in
      let seated : Scheduler Q = record s { processes = ps } in
      let first = free_pid-IsFirstFree s.processes in
      let at_pid = seat_at s.processes p in
      let v' =
        grown-IsScheduler s idle ps
          (λ j had. (let (q, e) = had in (q, seat_keeps s.processes p q j e))) v in
      let (thread, mem', run, f) =
        new_thread-IsFresh seated exit stack_base mem trampoline weight room.least room.most
          room.stack room.early in
      let mine : Thread = record thread { pid = pid } in
      let timed : IsTimed mine = record {
        weight = f.timed.weight;
        word_weight = f.timed.word_weight;
        burst = f.timed.burst;
      } in
      let new : IsNew seated mine = record {
        up = f.up;
        timed = timed;
        top = omega (arith, f.base, f.len, room.stack);
        home = (p, at_pid);
        weighs = omega (arith, f.load, room.weighs);
        fresh = λ t dead e z. fresh pid t dead first e z;
      } in
      let (
        t,
        s',
        free',
        run',
        valid,
        was_none,
        queued,
        (node, th_at, _, _, _),
        others,
        _,
        same,
        _,
        _,
        _,
        _,
      ) =
        add_task-Added queue seated idle mine v' new in
      let rdi = thread.stack_pointer + 64 in
      (
        pid,
        store mem' rdi entry_point,
        s',
        free',
        rw (run, add_u64_lem thread.stack_pointer 64 (omega (arith, f.top, room.stack)), run') refl,
        valid,
        first,
        (
          p,
          ap (λ x. get_elem? x pid) same ∙ at_pid,
          new_process-IsStarted s.processes ppid console pml4 heap_start,
        ),
        λ j ne. ap (λ x. get_elem? x j) same ∙ seat_others s.processes p j ne,
        (
          t,
          record mine { tid = t; rb_node = some node },
          was_none,
          th_at,
          refl,
          f.load,
          f.up,
          queued,
          (
            store_ne mem' rdi (thread.stack_pointer + 128) entry_point (omega arith)
                ∙ saved_word mem' thread exit stack_base trampoline weight f,
            store_self mem' rdi entry_point,
            store_ne mem' rdi (thread.stack_pointer + 168) entry_point (omega arith) ∙ f.returns,
          ),
          others,
        ),
      )
