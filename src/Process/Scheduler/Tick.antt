-- ===== src/Process/Scheduler/Tick.antt =====
-- `schedule` as a whole: the dead are reaped, the running thread is charged, a ready one runs.
use mathlib.Core.Option.{some-injective, none-ne-some}
use native.Mathlib.Decide.{ℕ_discrete}
use kernel_r.Prelude.{
  ℕ, ◌+◌, has, ◌≡◌, ◌≢◌, refl, inl, inr, sym, ◌∙◌, ap, subst, Option, none, some, List, [], true,
  false, ◌==◌, arith, true_ne_false, Bool-cases, Run, ok, length, get_elem?-ge,
}
use kernel_r.Process.Arena.{ThreadArena, get, is_empty, task_of}
use kernel_r.Process.State.{Thread, Scheduler, Machine, is_ready}
use kernel_r.Process.Scheduler.Queue.{RunQueue, same_task}
use kernel_r.Process.Scheduler.Schedule.{schedule, settle, prev_pid}
use kernel_r.Process.Scheduler.Valid.{IsKept, IsQueued, waits_task}
use kernel_r.Process.Scheduler.Bury.{not_ready, reap_zombies-Reaped, IsReaped}
use kernel_r.Process.Scheduler.Charge.{HasTime}
use kernel_r.Process.Scheduler.Settle.{settle_task-Settled}
use kernel_r.Process.Scheduler.Dispatch.{dispatch-Switched}

pub same_self : (x : ℕ) → (x == x) ≡ true
same_self x = ground arith

module _ {Q : Type 0} (queue : RunQueue Q) where
  -- The invariant between two interrupts.
  pub record IsScheduler (s : Scheduler Q) (idle : ℕ) (free : List ℕ) : Type 0 where
    pub kept : IsKept s idle free
    pub queued : IsQueued queue s.current_task idle s
    pub current : (c : ℕ) → s.current_task ≡ some c → (task : Thread) × (get s.tasks c ≡ some task)
    pub lively : (z : ℕ) → has z s.graveyard ≡ true → same_task s.current_task z ≡ false

  record IsPaid (s s' : Scheduler Q) (idle : ℕ) (free : List ℕ) : Type 0 where
    kept : IsKept s' idle free
    queued : IsQueued queue none idle s'
    prev : (prev : ℕ) × (prev_pid queue s' s'.current_task ≡ ok prev)
    threads :
        (j : ℕ) (task : Thread)
        → get s.tasks j ≡ some task
        → (task' : Thread) × (get s'.tasks j ≡ some task') × (task'.state ≡ task.state)
    absent : (j : ℕ) → get s.tasks j ≡ none → get s'.tasks j ≡ none

  Paid : Scheduler Q → ℕ → List ℕ → Run (Scheduler Q) → Type 0
  Paid s idle free run = (s' : Scheduler Q) × (run ≡ ok s') × IsPaid s s' idle free

  settle-Paid :
      (s : Scheduler Q) (idle context : ℕ) (current : Option ℕ) {free : List ℕ}
      → IsKept s idle free
      → IsQueued queue current idle s
      → HasTime s
      → s.graveyard ≡ []
      → s.current_task ≡ current
      → ((c : ℕ) → current ≡ some c → (task : Thread) × (get s.tasks c ≡ some task))
      → Paid s idle free (settle queue s current context)
  unfolding Paid
  settle-Paid s idle context none v q time grave is_current there = (
    s,
    refl,
    record {
      kept = v;
      queued = q;
      prev = (18446744073709551615, rw is_current refl);
      threads = λ j task e. (task, e, refl);
      absent = λ j e. e;
    },
  )
  settle-Paid s idle context (some c) v q time grave is_current there =
      let (task, at) = there c refl in
      let (s', run, done) = settle_task-Settled queue s idle c task context v q time grave at in
      let (now, at', state) = done.still task at in
      (
        s',
        rw at run,
        record {
          kept = done.kept;
          queued = done.queued;
          prev = (now.pid, rw (done.current ∙ is_current, at') refl);
          threads = λ j other e. elim (ℕ_discrete j c) [
            | yes same ↦
                (let (t, found, keeps) = done.still other (ap (get s.tasks) (sym same) ∙ e) in
                  (t, ap (get s'.tasks) same ∙ found, keeps))
            | no ne ↦ (other, done.others j ne ∙ e, refl)
          ];
          absent = λ j e.
              done.others j (λ same. none-ne-some task (sym e ∙ ap (get s.tasks) same ∙ at)) ∙ e;
        },
      )

  -- What a tick leads to: the thread `t` runs, from its own context and on its own stack.
  pub record IsTicked (m m' : Machine Q) (idle t ctx : ℕ) (task : Thread) (free : List ℕ)
      : Type 0 where
    pub valid : IsScheduler m'.sched idle free
    pub current : m'.sched.current_task ≡ some t
    pub thread : get m'.sched.tasks t ≡ some task
    pub runs : is_ready task.state ≡ true
    pub context : ctx ≡ task.stack_pointer
    pub stack : m'.cpu.kernel_rsp ≡ task.stack_base + task.stack_len
    pub gone : (z : ℕ) → has z m.sched.graveyard ≡ true → get m'.sched.tasks z ≡ none
    pub busy :
        (u : ℕ) (other : Thread)
        → u ≢ idle
        → get m.sched.tasks u ≡ some other
        → is_ready other.state ≡ true
        → t ≢ idle

  abbrev pub Ticked : Machine Q → ℕ → Run (ℕ × Machine Q) → Type 0
  Ticked m idle run =
      (ctx : ℕ) × (m' : Machine Q) × (t : ℕ) × (task : Thread) × (free' : List ℕ) × (run
        ≡ ok (ctx, m'))
      × IsTicked m m' idle t ctx task free'

  reaped_time :
      (m m' : Machine Q) (idle : ℕ) {free : List ℕ}
      → IsReaped queue m m' idle m.sched.graveyard [] free
      → HasTime m.sched
      → HasTime m'.sched
  reaped_time m m' idle r time = record {
    system = omega (arith, time.system, r.runtime);
    threads = λ t task e. elim (Bool-cases (has t m.sched.graveyard)) [
      | inl dead ↦ absurd (none-ne-some task (sym (r.gone t dead) ∙ e))
      | inr live ↦ time.threads t task (sym (r.others t live) ∙ e)
    ];
  }

  has_thread :
      (a : ThreadArena Thread) (t : ℕ) (task : Thread) → get a t ≡ some task → is_empty a ≡ false
  unfolding is_empty get
  has_thread a t task e = elim (Bool-cases (length a.slots == 0)) [
    | inl none_there ↦ absurd (
        none-ne-some task
          (sym (ap task_of (get_elem?-ge a.slots t (ground (arith, none_there)))) ∙ e))
    | inr some_there ↦ some_there
  ]

  up_waits :
      (idle u : ℕ) (other : Thread) (found : Option Thread)
      → found ≡ some other
      → is_ready other.state ≡ true
      → u ≢ idle
      → waits_task none idle u found ≡ true
  up_waits idle u other found e up ne = ap (waits_task none idle u) e ∙ ground (arith, up, ne)

  current_alive :
      (m : Machine Q) (c idle : ℕ) {free : List ℕ}
      → IsScheduler m.sched idle free
      → m.sched.current_task ≡ some c
      → has c m.sched.graveyard ≡ false
  current_alive m c idle v is_c = elim (Bool-cases (has c m.sched.graveyard)) [
    | inl dead ↦
        absurd
          (true_ne_false (sym (same_self c) ∙ ap (λ x. same_task x c) (sym is_c) ∙ v.lively c dead))
    | inr live ↦ live
  ]

  ready_alive :
      (m : Machine Q) (idle u : ℕ) (task : Thread) {free : List ℕ}
      → IsScheduler m.sched idle free
      → get m.sched.tasks u ≡ some task
      → is_ready task.state ≡ true
      → has u m.sched.graveyard ≡ false
  ready_alive m idle u task v at up = elim (Bool-cases (has u m.sched.graveyard)) [
    | inl buried ↦
        (let (dead, e, is_dead) = v.kept.buried u buried in
          absurd (
            true_ne_false (
              sym up
              ∙ ap (λ x. is_ready x.state) (some-injective task dead (sym at ∙ e))
              ∙ not_ready dead.state is_dead)))
    | inr live ↦ live
  ]

  buried_apart :
      (s : Scheduler Q) (idle t : ℕ) (task : Thread) {free : List ℕ}
      → IsKept s idle free
      → get s.tasks t ≡ some task
      → is_ready task.state ≡ true
      → s.current_task ≡ some t
      → (z : ℕ) → has z s.graveyard ≡ true
      → same_task s.current_task z ≡ false
  buried_apart s idle t task v at up current z i = elim (Bool-cases (t == z)) [
    | inl same ↦
        (let (dead, e, is_dead) = v.buried z i in
          absurd (
            true_ne_false (
              sym up
              ∙ ap (λ x. is_ready x.state)
                  (some-injective task dead
                    (sym at ∙ ap (get s.tasks) {y = z} (ground (arith, same)) ∙ e))
              ∙ not_ready dead.state is_dead)))
    | inr other ↦ ap (λ c. same_task c z) current ∙ other
  ]

  -- With the invariant and room in the clocks a tick does not panic and keeps the invariant: the
  -- graveyard's threads are gone, and a ready thread runs, which is not the idle one if another is
  -- ready.
  pub schedule-Ticked :
      (m : Machine Q) (idle context : ℕ) {free : List ℕ}
      → IsScheduler m.sched idle free
      → HasTime m.sched
      → Ticked m idle (schedule queue m context)
  unfolding schedule Paid
  schedule-Ticked m idle context v time =
      let (i, i_at, i_up) = v.kept.idle_ready in
      let (m₁, free₁, run₁, reaped) = reap_zombies-Reaped queue m idle v.kept v.lively in
      let alive : (j : ℕ) (task : Thread)
          → get m.sched.tasks j ≡ some task
          → has j m.sched.graveyard ≡ false
          → get m₁.sched.tasks j ≡ some task =
        λ j task e live. reaped.others j live ∙ e in
      let (s₂, run₂, paid) =
        settle-Paid m₁.sched idle context m₁.sched.current_task reaped.kept
          (reaped.queued m₁.sched.current_task
            (subst (λ c. IsQueued queue c idle m.sched) (sym reaped.current) v.queued))
          (reaped_time m m₁ idle reaped time) reaped.graveyard refl
          (λ c is_c.
            (let (task, at) = v.current c (sym reaped.current ∙ is_c) in
              (task, alive c task at (current_alive m c idle v (sym reaped.current ∙ is_c))))) in
      let m₂ : Machine Q = record m₁ { sched = s₂ } in
      let (ctx, m', t, task, run, done) =
        dispatch-Switched queue m₂ idle s₂.system_runtime paid.kept paid.queued paid.prev in
      (
        ctx,
        m',
        t,
        task,
        free₁,
        rw (has_thread m.sched.tasks idle i i_at, run₁, run₂, run) refl,
        record {
          valid = record {
            kept = done.kept;
            queued = done.queued;
            current = λ c is_c. (
              task,
              ap (get m'.sched.tasks) (some-injective c t (sym is_c ∙ done.current)) ∙ done.thread,
            );
            lively = buried_apart m'.sched idle t task done.kept done.thread done.runs done.current;
          };
          current = done.current;
          thread = done.thread;
          runs = done.runs;
          context = done.context;
          stack = done.stack;
          gone = λ z dead. ap (λ a. get a z) done.tasks ∙ paid.absent z (reaped.gone z dead);
          busy = λ u other ne at up.
              (let (other', at', state) =
                  paid.threads u other (alive u other at (ready_alive m idle u other v at up)) in
                done.busy u
                  (up_waits idle u other' (get s₂.tasks u) at' (ap is_ready state ∙ up) ne));
        },
      )
