-- ===== src/Process/Scheduler/WakeAll.antt =====
-- `wake_all` of src/sync/sync.rs: every thread of a wait queue is woken.
use mathlib.Core.Option.{some-injective}
use native.Mathlib.Decide.{ℕ_discrete}
use kernel_r.Prelude.{
  ℕ, has, ◌≡◌, refl, inl, inr, sym, ◌∙◌, ap, Option, some, List, [], ◌∷◌, true, false, arith,
  true_ne_false, Bool-cases, Run, ok,
}
use kernel_r.Process.Arena.{get}
use kernel_r.Process.State.{
  Thread, ThreadState, running, ready, sleeping, blocked, zombie, Scheduler, WaitQueue, new_queue,
}
use kernel_r.Process.Scheduler.Queue.{RunQueue, wake_each, wake_all}
use kernel_r.Process.Scheduler.Valid.{IsKept, IsQueued}
use kernel_r.Process.Scheduler.Wake.{woken_state, rest_of, WokenFrom, IsWoken, wake_task-Woken}

module _ {Q : Type 0} (queue : RunQueue Q) where
  -- The threads of a list awake, and all others as before.
  pub record AreWoken (s s' : Scheduler Q) (idle : ℕ) (ts : List ℕ) (free : List ℕ) : Type 0 where
    pub kept : IsKept s' idle free
    pub queued : IsQueued queue s'.current_task idle s'
    pub current : s'.current_task ≡ s.current_task
    pub processes : s'.processes ≡ s.processes
    pub graveyard : s'.graveyard ≡ s.graveyard
    pub total : s'.total_weight ≡ s.total_weight
    pub runtime : s'.system_runtime ≡ s.system_runtime
    pub idle_task : s'.idle_task_id ≡ s.idle_task_id
    pub others : (j : ℕ) → has j ts ≡ false → get s'.tasks j ≡ get s.tasks j
    pub awake :
        (j : ℕ) (task : Thread)
        → has j ts ≡ true
        → get s.tasks j ≡ some task
        → WokenFrom task (get s'.tasks j)

  abbrev pub AllWoken : Scheduler Q → ℕ → List ℕ → List ℕ → Run (Scheduler Q) → Type 0
  AllWoken s idle ts free run = (s' : Scheduler Q) × (run ≡ ok s') × AreWoken s s' idle ts free

  woken_twice : (st : ThreadState) → woken_state (woken_state st) ≡ woken_state st
  woken_twice sleeping = refl
  woken_twice blocked = refl
  woken_twice running = refl
  woken_twice ready = refl
  woken_twice zombie = refl

  then_woken :
      (first task : Thread) (found : Option Thread)
      → WokenFrom first (some task)
      → WokenFrom task found
      → WokenFrom first found
  then_woken first task found (mid, e, state, pid, joins, keeps)
        (last, at, state', pid', joins', keeps') =
      let same = some-injective task mid e in
      (
        last,
        at,
        state'
            ∙ ap (λ x. woken_state x.state) same
            ∙ ap woken_state state
            ∙ woken_twice first.state,
        pid' ∙ ap (λ x. x.pid) same ∙ pid,
        joins' ∙ ap (λ x. x.join_queue) same ∙ joins,
        keeps' ∙ ap rest_of same ∙ keeps,
      )

  awake_twice :
      (s s₁ s' : Scheduler Q) (idle h j : ℕ) (rest : List ℕ) (task : Thread) {free : List ℕ}
      → IsWoken queue s s₁ idle h free
      → AreWoken s₁ s' idle rest free
      → has j (h ∷ rest) ≡ true
      → get s.tasks j ≡ some task
      → WokenFrom task (get s'.tasks j)
  awake_twice s s₁ s' idle h j rest task one all i at = elim (ℕ_discrete j h) [
    | yes same ↦
        (let (task₁, at₁, state, pid, joins, keeps) =
            one.awake task (ap (get s.tasks) (sym same) ∙ at) in
          let here : get s₁.tasks j ≡ some task₁ = ap (get s₁.tasks) same ∙ at₁ in
          elim (Bool-cases (has j rest)) [
            | inl again ↦
                then_woken task task₁ (get s'.tasks j) (task₁, refl, state, pid, joins, keeps)
                  (all.awake j task₁ again here)
            | inr done ↦ (task₁, all.others j done ∙ here, state, pid, joins, keeps)
          ])
    | no ne ↦ all.awake j task (ground (arith, i, ne)) (one.others j ne ∙ at)
  ]

  wake_each-AllWoken :
      (ts : List ℕ) (s : Scheduler Q) (idle : ℕ) {free : List ℕ}
      → IsKept s idle free
      → IsQueued queue s.current_task idle s
      → AllWoken s idle ts free (wake_each queue ts s)
  wake_each-AllWoken [] s idle v q = (
    s,
    refl,
    record {
      kept = v;
      queued = q;
      current = refl;
      processes = refl;
      graveyard = refl;
      total = refl;
      runtime = refl;
      idle_task = refl;
      others = λ j out. refl;
      awake = λ j task i at. absurd (true_ne_false (sym i));
    },
  )
  wake_each-AllWoken (h ∷ rest) s idle v q =
      let (s₁, run, one) = wake_task-Woken queue s idle h v q in
      let (s', run', all) = wake_each-AllWoken rest s₁ idle one.kept one.queued in
      (
        s',
        rw run run',
        record {
          kept = all.kept;
          queued = all.queued;
          current = all.current ∙ one.current;
          processes = all.processes ∙ one.processes;
          graveyard = all.graveyard ∙ one.graveyard;
          total = all.total ∙ one.total;
          runtime = all.runtime ∙ one.runtime;
          idle_task = all.idle_task ∙ one.idle_task;
          others = λ j out. all.others j (ground (arith, out)) ∙ one.others j (ground (arith, out));
          awake = λ j task i at. awake_twice s s₁ s' idle h j rest task one all i at;
        },
      )

  -- Under the invariant wake_all does not panic, keeps it, empties the queue and makes each thread of
  -- it that waits ready.
  pub wake_all-AllWoken :
      (w : WaitQueue) (s : Scheduler Q) (idle : ℕ) {free : List ℕ}
      → IsKept s idle free
      → IsQueued queue s.current_task idle s
      → (s' : Scheduler Q) × (wake_all queue w s ≡ ok (new_queue, s'))
        × AreWoken s s' idle w.waiters free
  unfolding wake_all
  wake_all-AllWoken w s idle v q =
      (let (s', run, all) = wake_each-AllWoken w.waiters s idle v q in (s', rw run refl, all))
