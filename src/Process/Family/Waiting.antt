-- ===== src/Process/Family/Waiting.antt =====
-- `wait` harvests a dead child if there is one, and sleeps only while one lives.
use kernel_r.Prelude.{
  ℕ, ◌-◌, ◌≤◌, ◌<◌, ◌≡◌, ◌≢◌, refl, sym, ◌∙◌, ap, inl, inr, ◌⊎◌, ok, ◌>>=◌, Option, none, some, [],
  ◌∷◌, ◌++◌, Bool, true, false, not, ◌&&◌, ◌==◌, ltb, lt→ltb, true_ne_false, word, arith, get_elem?,
  get_elem?-set_self, get_elem?-set_ne, lt-of_get_elem?, set, store, store_self, if◌then◌else◌,
}
use kernel_r.Process.Arena.{get, put}
use kernel_r.Process.Arena.Put.{put-get_self, put-get_ne}
use kernel_r.Process.State.{Thread, Process, Scheduler, Machine, blocked}
use kernel_r.Process.Scheduler.{unwrap}
use kernel_r.Process.Family.{echild, code_of, find_child, harvest, wait_by, wait_round}
use kernel_r.Process.Family.Children.{
  Child, dead, alive, no_child, find_child-Child, Wanted, is_wanted-Wanted, Wanted-is_wanted,
}

-- The thread that runs, and a table in which each process is at its pid.
pub record IsCaller {Q : Type 0} (s : Scheduler Q) (t : ℕ) (task : Thread) (own : Process)
    : Type 0 where
  pub current : s.current_task ≡ some t
  pub thread : get s.tasks t ≡ some task
  pub home : get_elem? s.processes task.pid ≡ some (some own)
  pub places : (i : ℕ) (p : Process) → get_elem? s.processes i ≡ some (some p) → p.pid ≡ i

-- The code is written where the pointer is not null and below 2 GiB.
written_code :
    (mem : ℕ → ℕ) (status_ptr code : ℕ)
    → 0 < status_ptr
    → status_ptr < 2147483648
    → (if not (status_ptr == 0) && ltb status_ptr 2147483648
        then store mem status_ptr code
        else mem)
      ≡ store mem status_ptr code
written_code mem status_ptr code pos low =
    rw (not_zero status_ptr pos, lt→ltb status_ptr 2147483648 low) refl
  where
    not_zero : (n : ℕ) → 0 < n → (n == 0) ≡ false
    not_zero n pos = ground (arith, pos)

module _ {Q : Type 0} where
  -- A dead child taken out: its place is free and every other as before, its page tables are
  -- destroyed, and its exit code is in the word at the pointer, if that is one of the user's.
  pub record Harvested (m m' : Machine Q) (mem mem' : ℕ → ℕ) (status_ptr : ℕ) (p : Process)
      : Type 0 where
    pub freed : get_elem? m'.sched.processes p.pid ≡ some none
    pub kept : (j : ℕ) → j ≢ p.pid → get_elem? m'.sched.processes j ≡ get_elem? m.sched.processes j
    pub same : record m'.sched { processes = m.sched.processes } ≡ m.sched
    pub destroyed : m'.cpu ≡ record m.cpu { destroyed = p.page_table ∷ m.cpu.destroyed }
    pub stored :
        (code : ℕ)
        → 0 < status_ptr
        → status_ptr < 2147483648
        → p.exit_code ≡ some code
        → mem' status_ptr ≡ code
    pub unset : 0 < status_ptr → status_ptr < 2147483648 → p.exit_code ≡ none → mem' status_ptr ≡ 0
    pub skipped : (status_ptr ≡ 0) ⊎ (2147483648 ≤ status_ptr) → mem' status_ptr ≡ mem status_ptr
    pub elsewhere : (a : ℕ) → a ≢ status_ptr → mem' a ≡ mem a

  -- The caller blocked, last in the queue of its process, and all else as before.
  pub record Asleep (s s' : Scheduler Q) (t : ℕ) (task : Thread) (own : Process) : Type 0 where
    pub thread : get s'.tasks t ≡ some (record task { state = blocked })
    pub threads : (j : ℕ) → j ≢ t → get s'.tasks j ≡ get s.tasks j
    pub home :
        get_elem? s'.processes task.pid
        ≡ some (
            some
              (record own { wait_queue = record { waiters = own.wait_queue.waiters ++ (t ∷ []) } }))
    pub kept : (j : ℕ) → j ≢ task.pid → get_elem? s'.processes j ≡ get_elem? s.processes j
    pub same : record s' { tasks = s.tasks; processes = s.processes } ≡ s

  -- What a round of wait leads to.
  pub data Waited (m : Machine Q) (mem : ℕ → ℕ) (target status_ptr t : ℕ) (task : Thread)
      (own : Process) : Option ℕ × (ℕ → ℕ) × Machine Q → Type 0 where
    no_such :
        ((j : ℕ) (q : Process)
          → get_elem? m.sched.processes j ≡ some (some q)
          → ¬ Wanted task.pid target q)
        → Waited m mem target status_ptr t task own (some (word - 10), mem, m)
    harvested :
        (p : Process) (mem' : ℕ → ℕ) (m' : Machine Q)
        → get_elem? m.sched.processes p.pid ≡ some (some p)
        → Wanted task.pid target p
        → p.is_zombie ≡ true
        → ((j : ℕ) (q : Process)
            → j < p.pid
            → get_elem? m.sched.processes j ≡ some (some q)
            → Wanted task.pid target q
            → q.is_zombie ≡ false)
        → Harvested m m' mem mem' status_ptr p
        → Waited m mem target status_ptr t task own (some p.pid, mem', m')
    sleeps :
        (i : ℕ) (p : Process) (s' : Scheduler Q)
        → get_elem? m.sched.processes i ≡ some (some p)
        → Wanted task.pid target p
        → ((j : ℕ) (q : Process)
            → get_elem? m.sched.processes j ≡ some (some q)
            → Wanted task.pid target q
            → q.is_zombie ≡ false)
        → Asleep m.sched s' t task own
        → Waited m mem target status_ptr t task own (none, mem, record m { sched = s' })

  harvest-Harvested :
      (m : Machine Q) (mem : ℕ → ℕ) (status_ptr : ℕ) (p : Process)
      → get_elem? m.sched.processes p.pid ≡ some (some p)
      → (mem' : ℕ → ℕ) × (m' : Machine Q) × (harvest m mem status_ptr p ≡ (some p.pid, mem', m'))
        × Harvested m m' mem mem' status_ptr p
  harvest-Harvested m mem status_ptr p at = (
    _,
    _,
    refl,
    record {
      freed =
          get_elem?-set_self m.sched.processes p.pid none
            (lt-of_get_elem? m.sched.processes p.pid (some p) at);
      kept = λ j ne. get_elem?-set_ne m.sched.processes none (λ same. ne (sym same));
      same = refl;
      destroyed = refl;
      stored = λ code pos low e.
          ap (λ f. f status_ptr) (written_code mem status_ptr (code_of p.exit_code) pos low)
          ∙ store_self mem status_ptr (code_of p.exit_code)
          ∙ ap code_of e;
      unset = λ pos low e.
          ap (λ f. f status_ptr) (written_code mem status_ptr (code_of p.exit_code) pos low)
          ∙ store_self mem status_ptr (code_of p.exit_code)
          ∙ ap code_of e;
      skipped = λ bad. elim bad [ inl null ↦ rw null refl | inr high ↦ ground (arith, high) ];
      elsewhere = λ a ne. ground (arith, ne);
    },
  )

  wait_by-Waited :
      (m : Machine Q) (mem : ℕ → ℕ) (target status_ptr t : ℕ) (task : Thread) (own : Process)
      (child : Bool × Option Process)
      → IsCaller m.sched t task own
      → Child task.pid target m.sched.processes child
      → (out : Option ℕ × (ℕ → ℕ) × Machine Q) × (wait_by m mem status_ptr t task child ≡ ok out)
        × Waited m mem target status_ptr t task own out
  wait_by-Waited m mem target status_ptr t task own _ c (no_child all) = (
    (some echild, mem, m),
    refl,
    no_such (λ j q at w. true_ne_false (sym (Wanted-is_wanted task.pid target q w) ∙ all j q at)),
  )
  wait_by-Waited m mem target status_ptr t task own _ c (dead i p at w z first) =
      let here : get_elem? m.sched.processes p.pid ≡ some (some p) =
        ap (get_elem? m.sched.processes) (c.places i p at) ∙ at in
      let (mem', m', e, took) = harvest-Harvested m mem status_ptr p here in
      (
        (some p.pid, mem', m'),
        rw here (ap ok e),
        harvested p mem' m' here (is_wanted-Wanted task.pid target p w) z
            (λ j q lt there wanted.
              first j q (omega (arith, lt, c.places i p at)) there
                (Wanted-is_wanted task.pid target q wanted))
            took,
      )
  wait_by-Waited m mem target status_ptr t task own _ c (alive i p at w all) =
      let waiting : Process = record own {
        wait_queue = record own.wait_queue { waiters = own.wait_queue.waiters ++ (t ∷ []) };
      } in
      let asleep : Thread = record task { state = blocked } in
      let s' : Scheduler Q = record m.sched {
        tasks = put m.sched.tasks t asleep;
        processes = set m.sched.processes task.pid (some waiting);
      } in
      (
        (none, mem, record m { sched = s' }),
        rw c.home refl,
        sleeps i p s' at (is_wanted-Wanted task.pid target p w)
            (λ j q there wanted. all j q there (Wanted-is_wanted task.pid target q wanted))
            (record {
              thread = put-get_self m.sched.tasks t task asleep c.thread;
              threads = λ j ne. put-get_ne m.sched.tasks t j asleep ne;
              home =
                  get_elem?-set_self m.sched.processes task.pid (some waiting)
                    (lt-of_get_elem? m.sched.processes task.pid (some own) c.home);
              kept =
                  λ j ne. get_elem?-set_ne m.sched.processes (some waiting) (λ same. ne (sym same));
              same = refl;
            }),
      )

  -- With each process at its pid, a round of wait does not panic. It answers ECHILD and changes
  -- nothing when no child is wanted. If a wanted child is dead, it answers the pid of the first, frees its
  -- place, destroys its page tables and stores its exit code where the pointer is the user's, with
  -- the rest as before. The thread sleeps, last in the queue of its process, only when a wanted child
  -- lives and none is dead.
  pub wait_round-Waited :
      (m : Machine Q) (mem : ℕ → ℕ) (target status_ptr t : ℕ) (task : Thread) (own : Process)
      → IsCaller m.sched t task own
      → (out : Option ℕ × (ℕ → ℕ) × Machine Q) × (wait_round m mem target status_ptr ≡ ok out)
        × Waited m mem target status_ptr t task own out
  unfolding wait_round
  wait_round-Waited m mem target status_ptr t task own c =
      let (out, run, waited) =
        wait_by-Waited m mem target status_ptr t task own
          (find_child task.pid target m.sched.processes) c
          (find_child-Child task.pid target m.sched.processes) in
      let go : (id : Option ℕ)
          → id ≡ some t
          → (do
            i ← unwrap id
            x ← unwrap (get m.sched.tasks i)
            wait_by m mem status_ptr i x (find_child x.pid target m.sched.processes))
            ≡ wait_by m mem status_ptr t task (find_child task.pid target m.sched.processes) =
        λ id e. rw (e, c.thread) refl in
      (out, go m.sched.current_task c.current ∙ run, waited)
