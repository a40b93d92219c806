-- ===== src/Process/Files.antt =====
-- `open` (2) and `close` (3) of src/process/syscall.rs, on the descriptor table of the process that
-- runs. The memory of the user is a function from addresses to bytes, and core::str::from_utf8
-- succeeds as `utf8` says. Open files lie in a store by handle; a handle is never used twice.
pub mod Naming
pub mod Opening
mod Tests
use kernel_r.Prelude.{
  ℕ, zero, suc, ◌+◌, ◌-◌, Run, ok, panic, ◌>>=◌, Option, none, some, List, [], ◌∷◌, Bool, true,
  false, ◌==◌, leb, ltb, get_elem?, set, store, length, word, if◌then◌else◌,
}
use kernel_r.Fs.Tar.{TarVnode, lookup}
use kernel_r.Process.Arena.{get}
use kernel_r.Process.State.{Thread, Process, Scheduler, max_fds}
use kernel_r.Process.Scheduler.{unwrap, process_of}

pub data Vnode : Type 0 where
  console_vnode : Vnode
  tar_vnode : TarVnode → Vnode

pub record OpenFile : Type 0 where
  pub vnode : Vnode
  pub offset : ℕ
  pub readable : Bool
  pub writable : Bool

pub record Kernel (Q : Type 0) : Type 0 where
  pub sched : Scheduler Q
  pub root : Option (List TarVnode)
  pub files : ℕ → OpenFile
  pub next_file : ℕ

-- (!n).wrapping_add(1)
abbrev pub error_code : ℕ → ℕ
error_code n = word - n

abbrev pub enoent : ℕ
enoent = error_code 2

abbrev pub ebadf : ℕ
ebadf = error_code 9

abbrev pub emfile : ℕ
emfile = error_code 24

-- for i in 0..256: the place of the first zero byte; 0 when there is none.
abbrev pub name_length : (ℕ → ℕ) → ℕ → (i rounds : ℕ) → ℕ
name_length mem ptr i zero = 0
name_length mem ptr i (suc rounds) =
    let later = name_length mem ptr (i + 1) rounds in if mem (ptr + i) == 0 then i else later

abbrev pub bytes_from : (ℕ → ℕ) → ℕ → ℕ → List ℕ
bytes_from mem ptr zero = []
bytes_from mem ptr (suc n) = mem ptr ∷ bytes_from mem (ptr + 1) n

abbrev pub find_in : Option (List TarVnode) → List ℕ → Option TarVnode
find_in (some files) name = lookup files name
find_in none name = none

-- What `fd_table[i].is_none()` leads to.
abbrev pub or_later : ℕ → Run (Option ℕ) → Option (Option ℕ) → Run (Option ℕ)
or_later i later (some none) = ok (some i)
or_later i later (some (some file)) = later
or_later i later none = panic

-- A loop over the descriptors from `i` on, with `rounds` of them left.
abbrev pub free_fd : List (Option ℕ) → (i rounds : ℕ) → Run (Option ℕ)
free_fd table i zero = ok none
free_fd table i (suc rounds) = or_later i (free_fd table (i + 1) rounds) (get_elem? table i)

-- for i in 3..MAX_FDS
unfoldable pub lowest_fd : List (Option ℕ) → Run (Option ℕ)
lowest_fd table = free_fd table 3 1021

module _ {Q : Type 0} where
  -- The file that a name in the memory of the user stands for. Each failure is ENOENT.
  unfoldable pub named : (List ℕ → Bool) → (ℕ → ℕ) → Kernel Q → ℕ → Option TarVnode
  named utf8 mem k ptr =
      let len = name_length mem ptr 0 256 in
      let name = bytes_from mem ptr len in
      let found = if utf8 name then find_in k.root name else none in
      if len == 0 then none else found

  abbrev pub current_process : Scheduler Q → Run (ℕ × Process)
  current_process s = do
    current_task_id ← unwrap s.current_task
    task ← unwrap (get s.tasks current_task_id)
    process ← unwrap (process_of (get_elem? s.processes task.pid))
    ok (task.pid, process)

  abbrev pub put_fds : Scheduler Q → ℕ → Process → List (Option ℕ) → Scheduler Q
  put_fds s pid process table = record s {
    processes = set s.processes pid (some (record process { fd_table = table }));
  }

  abbrev pub open_at : Kernel Q → TarVnode → ℕ → Process → Option ℕ → ℕ × Kernel Q
  open_at k vnode pid process (some fd) = (
    fd,
    record k {
      sched = put_fds k.sched pid process (set process.fd_table fd (some k.next_file));
      files =
          store k.files k.next_file
            (record { vnode = tar_vnode vnode; offset = 0; readable = true; writable = false });
      next_file = k.next_file + 1;
    },
  )
  open_at k vnode pid process none = (emfile, k)

  abbrev pub open_file : Kernel Q → Option TarVnode → Run (ℕ × Kernel Q)
  open_file k (some vnode) = do
    (pid, process) ← current_process k.sched
    fd ← lowest_fd process.fd_table
    ok (open_at k vnode pid process fd)
  open_file k none = ok (enoent, k)

  -- The answer in rax, and the state.
  unfoldable pub sys_open : (List ℕ → Bool) → (ℕ → ℕ) → Kernel Q → ℕ → Run (ℕ × Kernel Q)
  sys_open utf8 mem k ptr = open_file k (named utf8 mem k ptr)

  -- `fd_table[fd].take().is_some()`
  abbrev pub close_at : Kernel Q → ℕ → Process → ℕ → Option (Option ℕ) → Run (ℕ × Kernel Q)
  close_at k pid process fd (some (some file)) =
      ok (0, record k { sched = put_fds k.sched pid process (set process.fd_table fd none) })
  close_at k pid process fd (some none) =
      ok (ebadf, record k { sched = put_fds k.sched pid process (set process.fd_table fd none) })
  close_at k pid process fd none = panic

  unfoldable pub sys_close : Kernel Q → ℕ → Run (ℕ × Kernel Q)
  sys_close k fd =
      let closed = (do
        (pid, process) ← current_process k.sched
        close_at k pid process fd (get_elem? process.fd_table fd)) in
      if leb max_fds fd then ok (ebadf, k) else closed
