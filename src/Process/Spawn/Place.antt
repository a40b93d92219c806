-- ===== src/Process/Spawn/Place.antt =====
-- The place that a new process takes in the table, and the process.
use mathlib.Core.Option.{some-injective, none-ne-some}
use native.Mathlib.Decide.{dec_lt}
use kernel_r.Prelude.{
  ℕ, zero, suc, ◌≤◌, ◌<◌, ◌≡◌, ◌≢◌, refl, sym, ◌∙◌, ap, inl, inr, Option, none, some, false, ltb,
  Bool-cases, List, [], ◌∷◌, ◌++◌, arith, length, length-append, get_elem?, replicate,
  get_elem?-set_self, get_elem?-set_ne, get_elem?-append_left, get_elem?-append_last, get_elem?-ge,
  ltb→lt, lt→ltb,
}
use kernel_r.Process.State.{Process}
use kernel_r.Process.Scheduler.{process_of}
use kernel_r.Process.Spawn.{free_pid, seat, new_process, fds_of, console_fds}

-- The first free place of a table: each place before it holds a process, and it holds none.
pub record IsFirstFree (ps : List (Option Process)) (pid : ℕ) : Type 0 where
  pub taken : (j : ℕ) → j < pid → (q : Process) × (get_elem? ps j ≡ some (some q))
  pub free : (q : Process) → get_elem? ps pid ≢ some (some q)

-- The descriptors of a console: 0, 1 and 2 of 1024.
abbrev pub ConsoleTable : ℕ → List (Option ℕ) → Type 0
ConsoleTable console table =
    table ≡ some console ∷ some console ∷ some console ∷ replicate 1021 none

-- A process that has just started: alive, with an empty heap, four MiB of stack below 0x80000000,
-- and the descriptors of its parent, or of the console when it has no parent.
pub record IsStarted (ps : List (Option Process)) (pid ppid console pml4 heap : ℕ) (p : Process)
    : Type 0 where
  pub own_pid : p.pid ≡ pid
  pub parent_pid : p.ppid ≡ ppid
  pub exit_code : p.exit_code ≡ none
  pub lives : p.is_zombie ≡ false
  pub waiters : p.wait_queue.waiters ≡ []
  pub page_table : p.page_table ≡ pml4
  pub heap_start : p.heap_start ≡ heap
  pub program_break : p.program_break ≡ heap
  pub stack_start : p.stack_start ≡ 2143289344
  pub stack_end : p.stack_end ≡ 2147483648
  pub inherits :
      (parent : Process)
      → 0 < ppid
      → get_elem? ps ppid ≡ some (some parent)
      → p.fd_table ≡ parent.fd_table
  pub first : ppid ≡ 0 → ConsoleTable console p.fd_table
  pub orphan : ((q : Process) → get_elem? ps ppid ≢ some (some q)) → ConsoleTable console p.fd_table

free_pid_le : (ps : List (Option Process)) → free_pid ps ≤ length ps
free_pid_le [] = omega arith
free_pid_le (none ∷ rest) = omega arith
free_pid_le (some p ∷ rest) = omega (arith, free_pid_le rest)

-- The first free place is free, if it is a place of the table.
free_slot :
    (ps : List (Option Process)) → free_pid ps < length ps → get_elem? ps (free_pid ps) ≡ some none
free_slot [] h = absurd (omega arith)
free_slot (none ∷ rest) h = refl
free_slot (some p ∷ rest) h = free_slot rest (omega arith)

pub seat_at :
    (ps : List (Option Process)) (p : Process)
    → get_elem? (seat ps (free_pid ps) p) (free_pid ps) ≡ some (some p)
seat_at ps p = elim (Bool-cases (ltb (free_pid ps) (length ps))) [
  | inl inside ↦ rw inside (get_elem?-set_self ps (free_pid ps) (some p) (ltb→lt _ _ inside))
  | inr past ↦
      (let last : free_pid ps ≡ length ps = ground (arith, free_pid_le ps, past) in
        rw past (ap (get_elem? (ps ++ (some p ∷ []))) last ∙ get_elem?-append_last ps (some p)))
]

past_last :
    (ps : List (Option Process)) (p : Process) (j : ℕ)
    → j ≢ length ps
    → get_elem? (ps ++ (some p ∷ [])) j ≡ get_elem? ps j
past_last ps p j ne = elim (dec_lt j (length ps)) [
  | yes inside ↦ get_elem?-append_left ps (some p ∷ []) j inside
  | no past ↦
      get_elem?-ge (ps ++ (some p ∷ [])) j (omega (arith, length-append ps (some p ∷ []), past, ne))
      ∙ sym (get_elem?-ge ps j (omega (arith, past)))
]

-- All other places are as they were.
pub seat_others :
    (ps : List (Option Process)) (p : Process) (j : ℕ)
    → j ≢ free_pid ps
    → get_elem? (seat ps (free_pid ps) p) j ≡ get_elem? ps j
seat_others ps p j ne = elim (Bool-cases (ltb (free_pid ps) (length ps))) [
  | inl inside ↦ rw inside (get_elem?-set_ne ps (some p) (λ same. ne (sym same)))
  | inr past ↦
      (let last : free_pid ps ≡ length ps = ground (arith, free_pid_le ps, past) in
        rw past (past_last ps p j (λ same. ne (same ∙ sym last))))
]

taken_before :
    (ps : List (Option Process)) (j : ℕ)
    → j < free_pid ps
    → (q : Process) × (get_elem? ps j ≡ some (some q))
taken_before [] j lt = absurd (omega (arith, lt))
taken_before (none ∷ rest) j lt = absurd (omega (arith, lt))
taken_before (some p ∷ rest) zero lt = (p, refl)
taken_before (some p ∷ rest) (suc j) lt = taken_before rest j (omega (arith, lt))

no_process : (ps : List (Option Process)) (q : Process) → get_elem? ps (free_pid ps) ≢ some (some q)
no_process [] q e = cc
no_process (none ∷ rest) q e = none-ne-some q (some-injective none (some q) e)
no_process (some p ∷ rest) q e = no_process rest q e

-- The search for a free place finds the first.
pub free_pid-IsFirstFree : (ps : List (Option Process)) → IsFirstFree ps (free_pid ps)
free_pid-IsFirstFree ps = record { taken = taken_before ps; free = no_process ps }

fds_without :
    (console : ℕ) (slot : Option (Option Process))
    → ((q : Process) → slot ≢ some (some q))
    → fds_of console (process_of slot) ≡ console_fds console
fds_without console none nobody = refl
fds_without console (some none) nobody = refl
fds_without console (some (some q)) nobody = absurd (nobody q refl)

-- The new process is one that has just started, under the first free pid.
pub new_process-IsStarted :
    (ps : List (Option Process)) (ppid console pml4 heap : ℕ)
    → IsStarted ps (free_pid ps) ppid console pml4 heap (new_process ps ppid console pml4 heap)
new_process-IsStarted ps ppid console pml4 heap = record {
  own_pid = refl;
  parent_pid = refl;
  exit_code = refl;
  lives = refl;
  waiters = refl;
  page_table = refl;
  heap_start = refl;
  program_break = refl;
  stack_start = refl;
  stack_end = refl;
  inherits = λ parent pos at. rw (lt→ltb 0 ppid pos, at) refl;
  first = λ z. rw z refl;
  orphan = λ nobody. elim (Bool-cases (ltb 0 ppid)) [
    | inl parented ↦ rw parented (fds_without console (get_elem? ps ppid) nobody)
    | inr first ↦ rw first refl
  ];
}
