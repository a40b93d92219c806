-- ===== src/Process/Files/Tests.antt =====
-- An instance of the theorem on `open`: thread 3 opens the one file, named "a".
use kernel_r.Prelude.{
  ℕ, ◌≡◌, refl, ok, Option, none, some, List, [], ◌∷◌, true, ◌==◌, set, replicate, length-replicate,
  if◌then◌else◌,
}
use kernel_r.Process.State.{SchedNode, Process, ready}
use kernel_r.Process.Tests.Five.{five, five_three, process, processes, thread}
use kernel_r.Process.Files.{Kernel, console_vnode, sys_open}
use kernel_r.Process.Files.Opening.{IsCurrent, Opened, sys_open-Opened}

abbrev caller : Process
caller = record (process 3) { fd_table = replicate 1024 none }

abbrev kernel : Kernel (List SchedNode)
kernel = record {
  sched = record five { processes = set processes 3 (some caller) };
  root = some (record { name = 97 ∷ []; size = 5; data_ptr = 4096 } ∷ []);
  files = λ h. record { vnode = console_vnode; offset = 0; readable = true; writable = true };
  next_file = 1;
}

abbrev name_at : ℕ → ℕ
name_at q = if q == 100 then 97 else 0

caller-IsCurrent : IsCurrent kernel.sched 3 (thread 3 ready (4 ∷ [])) caller
caller-IsCurrent = record {
  current = refl;
  thread = five_three;
  home = refl;
  table = length-replicate {A = Option ℕ} 1024 none;
}

sys_open-Opened_example :
    (out : ℕ × Kernel (List SchedNode)) × (sys_open (λ name. true) name_at kernel 100 ≡ ok out)
    × Opened (λ name. true) name_at kernel 100 3 caller out
sys_open-Opened_example =
    sys_open-Opened (λ name. true) name_at kernel 100 3 (thread 3 ready (4 ∷ [])) caller
      caller-IsCurrent
