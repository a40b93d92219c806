-- ===== src/Process/Files/Opening.antt =====
-- `open` gives the lowest free descriptor, and `close` takes it back.
use native.Mathlib.Decide.{dec_lt}
use kernel_r.Prelude.{
  ℕ, zero, suc, ◌+◌, ◌≤◌, ◌<◌, ◌≡◌, refl, sym, ◌∙◌, ap, inl, inr, ok, Option, none, some, List,
  Bool, true, false, get_elem?, set, length, length-set, get_elem?-set_self, get_elem?-lt, set_back,
  lt-of_get_elem?, lt→leb, store_self, subst, Option-cases, store, arith,
}
use kernel_r.Fs.Tar.{TarVnode}
use kernel_r.Process.Arena.{get}
use kernel_r.Process.State.{Thread, Process, Scheduler, max_fds}
use kernel_r.Process.Files.Naming.{Named, named-Named}
use kernel_r.Process.Files.{
  Kernel, tar_vnode, enoent, ebadf, emfile, named, current_process, put_fds, free_fd, lowest_fd,
  open_at, sys_open, close_at, sys_close,
}

-- The lowest free place of the table from `lo` on, below `hi`.
pub data Lowest (table : List (Option ℕ)) (lo hi : ℕ) : Option ℕ → Type 0 where
  lowest :
      (fd : ℕ)
      → lo ≤ fd
      → fd < hi
      → get_elem? table fd ≡ some none
      → ((j : ℕ) → lo ≤ j → j < fd → (file : ℕ) × (get_elem? table j ≡ some (some file)))
      → Lowest table lo hi (some fd)
  all_taken :
      ((j : ℕ) → lo ≤ j → j < hi → (file : ℕ) × (get_elem? table j ≡ some (some file)))
      → Lowest table lo hi none

-- The process that runs, with a whole descriptor table.
pub record IsCurrent {Q : Type 0} (s : Scheduler Q) (t : ℕ) (task : Thread) (process : Process)
    : Type 0 where
  pub current : s.current_task ≡ some t
  pub thread : get s.tasks t ≡ some task
  pub home : get_elem? s.processes task.pid ≡ some (some process)
  pub table : length process.fd_table ≡ max_fds

extend :
    (table : List (Option ℕ)) (i hi file : ℕ) (out : Option ℕ)
    → get_elem? table i ≡ some (some file)
    → Lowest table (i + 1) hi out
    → Lowest table i hi out
extend table i hi file (some fd) at (lowest _ low high free taken) =
    lowest fd (omega (arith, low)) high free (λ j l h. elim (dec_lt i j) [
      | yes past ↦ taken j (omega (arith, past)) h
      | no here ↦ (file, ap (get_elem? table) {x = j} {y = i} (omega (arith, here, l)) ∙ at)
    ])
extend table i hi file none at (all_taken taken) = all_taken (λ j l h. elim (dec_lt i j) [
  | yes past ↦ taken j (omega (arith, past)) h
  | no here ↦ (file, ap (get_elem? table) {x = j} {y = i} (omega (arith, here, l)) ∙ at)
])

free_fd-Lowest :
    (table : List (Option ℕ)) (i rounds hi : ℕ)
    → i + rounds ≡ hi
    → hi ≤ length table
    → (out : Option ℕ) × (free_fd table i rounds ≡ ok out) × Lowest table i hi out
free_fd-Lowest table i zero hi e h =
    (none, refl, all_taken (λ j l lt. absurd (omega (arith, e, l, lt))))
free_fd-Lowest table i (suc rounds) hi e h =
    let (slot, at) = get_elem?-lt table i (omega (arith, e, h)) in
    by_slot table i rounds hi e h slot at
      (free_fd-Lowest table (i + 1) rounds hi (omega (arith, e)) h)
  where
    by_slot :
        (table : List (Option ℕ)) (i rounds hi : ℕ)
        → i + suc rounds ≡ hi
        → hi ≤ length table
        → (slot : Option ℕ) → get_elem? table i ≡ some slot
        → ((out : Option ℕ) × (free_fd table (i + 1) rounds ≡ ok out) × Lowest table (i + 1) hi out)
        → (out : Option ℕ) × (free_fd table i (suc rounds) ≡ ok out) × Lowest table i hi out
    by_slot table i rounds hi e h none at rest = (
      some i,
      rw at refl,
      lowest i (omega arith) (omega (arith, e)) at (λ j l lt. absurd (omega (arith, l, lt))),
    )
    by_slot table i rounds hi e h (some file) at (out, run, found) =
        (out, rw at run, extend table i hi file out at found)

lowest_fd-Lowest :
    (table : List (Option ℕ))
    → length table ≡ max_fds
    → (out : Option ℕ) × (lowest_fd table ≡ ok out) × Lowest table 3 max_fds out
unfolding lowest_fd
lowest_fd-Lowest table whole = free_fd-Lowest table 3 1021 max_fds refl (omega (arith, whole))

module _ {Q : Type 0} where
  -- What open leads to: no such file; no descriptor left; or the lowest free descriptor from 3 on,
  -- with a new open file at its start, which close takes back, so that a second close fails.
  pub data Opened (utf8 : List ℕ → Bool) (mem : ℕ → ℕ) (k : Kernel Q) (ptr pid : ℕ)
      (process : Process) : ℕ × Kernel Q → Type 0 where
    not_found : Named utf8 mem k.root ptr none → Opened utf8 mem k ptr pid process (enoent, k)
    no_descriptor :
        (v : TarVnode)
        → Named utf8 mem k.root ptr (some v)
        → Lowest process.fd_table 3 max_fds none
        → Opened utf8 mem k ptr pid process (emfile, k)
    opened :
        (v : TarVnode) (fd : ℕ) (k' k'' : Kernel Q)
        → Named utf8 mem k.root ptr (some v)
        → Lowest process.fd_table 3 max_fds (some fd)
        → k'.files k.next_file
          ≡ record { vnode = tar_vnode v; offset = 0; readable = true; writable = false }
        → (p' : Process) × (current_process k'.sched ≡ ok (pid, p'))
          × (p'.fd_table ≡ set process.fd_table fd (some k.next_file))
        → sys_close k' fd ≡ ok (0, k'')
        → k''.sched ≡ k.sched
        → (k₃ : Kernel Q) × (sys_close k'' fd ≡ ok (ebadf, k₃))
        → Opened utf8 mem k ptr pid process (fd, k')

  current-run :
      (s : Scheduler Q) (t : ℕ) (task : Thread) (process : Process)
      → IsCurrent s t task process
      → current_process s ≡ ok (task.pid, process)
  current-run s t task process c = rw (c.current, c.thread, c.home) refl

  with_fds :
      (s : Scheduler Q) (t : ℕ) (task : Thread) (process : Process) (table : List (Option ℕ))
      → IsCurrent s t task process
      → length table ≡ max_fds
      → IsCurrent (put_fds s task.pid process table) t task (record process { fd_table = table })
  with_fds s t task process table c whole = record {
    current = c.current;
    thread = c.thread;
    home =
        get_elem?-set_self s.processes task.pid (some (record process { fd_table = table }))
          (lt-of_get_elem? s.processes task.pid (some process) c.home);
    table = whole;
  }

  close-run :
      (k : Kernel Q) (t fd : ℕ) (task : Thread) (process : Process) (slot : Option ℕ)
      → IsCurrent k.sched t task process
      → fd < max_fds
      → get_elem? process.fd_table fd ≡ some slot
      → sys_close k fd ≡ close_at k task.pid process fd (some slot)
  unfolding sys_close
  close-run k t fd task process slot c low at =
      rw (current-run k.sched t task process c, lt→leb fd max_fds low, at) refl

  set_twice :
      (s : Scheduler Q) (pid : ℕ) (process : Process) (table : List (Option ℕ))
      → get_elem? s.processes pid ≡ some (some process)
      → put_fds
          (put_fds s pid process table)
          pid
          (record process { fd_table = table })
          process.fd_table
        ≡ s
  set_twice s pid process table at =
      ap (λ ps. record s { processes = ps })
        (set_back s.processes pid (some (record process { fd_table = table })) (some process) at)

  open_at-Opened :
      (utf8 : List ℕ → Bool) (mem : ℕ → ℕ) (k : Kernel Q) (ptr t : ℕ) (task : Thread)
      (process : Process) (v : TarVnode) (out : Option ℕ)
      → IsCurrent k.sched t task process
      → Named utf8 mem k.root ptr (some v)
      → Lowest process.fd_table 3 max_fds out
      → Opened utf8 mem k ptr task.pid process (open_at k v task.pid process out)
  open_at-Opened utf8 mem k ptr t task process v none c name full = no_descriptor v name full
  open_at-Opened utf8 mem k ptr t task process v (some fd) c name (lowest _ low high free taken) =
      let s = k.sched in
      let pid = task.pid in
      let table = set process.fd_table fd (some k.next_file) in
      let p' : Process = record process { fd_table = table } in
      let k' : Kernel Q = record k {
        sched = put_fds s pid process table;
        files =
            store k.files k.next_file
              (record { vnode = tar_vnode v; offset = 0; readable = true; writable = false });
        next_file = k.next_file + 1;
      } in
      let c' =
        with_fds s t task process table c
          (length-set process.fd_table fd (some k.next_file) ∙ c.table) in
      let at' : get_elem? table fd ≡ some (some k.next_file) =
        get_elem?-set_self process.fd_table fd (some k.next_file)
          (lt-of_get_elem? process.fd_table fd none free) in
      let k'' : Kernel Q = record k' { sched = put_fds k'.sched pid p' (set table fd none) } in
      let same : k''.sched ≡ s =
        ap (put_fds k'.sched pid p') (set_back process.fd_table fd (some k.next_file) none free)
        ∙ set_twice s pid process table c.home in
      opened v fd k' k'' name (lowest fd low high free taken) (store_self k.files k.next_file _)
        (p', current-run k'.sched t task p' c', refl)
        (close-run k' t fd task p' (some k.next_file) c' high at') same
        (
          _,
          close-run k'' t fd task process none
              (subst (λ x. IsCurrent x t task process) (sym same) c) high free,
        )

  -- With a whole descriptor table for the process that runs, open does not panic. It answers ENOENT
  -- when the first 256 bytes at the pointer hold no name ended by a zero byte, or the name is no text
  -- or the name of no file of the root; EMFILE when all descriptors from 3 on are taken; and
  -- otherwise the lowest free one, with a new open file at offset 0 of the first file of that name.
  -- close of it then answers 0 and leaves the scheduler as it was before open, and a second close
  -- answers EBADF.
  pub sys_open-Opened :
      (utf8 : List ℕ → Bool) (mem : ℕ → ℕ) (k : Kernel Q) (ptr t : ℕ) (task : Thread)
      (process : Process)
      → IsCurrent k.sched t task process
      → (out : ℕ × Kernel Q) × (sys_open utf8 mem k ptr ≡ ok out)
        × Opened utf8 mem k ptr task.pid process out
  unfolding sys_open
  sys_open-Opened utf8 mem k ptr t task process c =
      let names = named-Named utf8 mem k ptr in
      elim (Option-cases (named utf8 mem k ptr)) [
        | inl missing ↦ (
          (enoent, k),
          rw missing refl,
          not_found (subst (Named utf8 mem k.root ptr) missing names),
        )
        | inr (v, name) ↦
            (let (fd, run, found) = lowest_fd-Lowest process.fd_table c.table in
              (
                open_at k v task.pid process fd,
                rw (name, current-run k.sched t task process c, run) refl,
                open_at-Opened utf8 mem k ptr t task process v fd c
                    (subst (Named utf8 mem k.root ptr) name names) found,
              ))
      ]
