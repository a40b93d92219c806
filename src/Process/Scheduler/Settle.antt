-- ===== src/Process/Scheduler/Settle.antt =====
-- The running thread pays for its tick and goes back to the tree: the first half of `schedule`.
use mathlib.Core.Option.{some-injective}
use kernel_r.Prelude.{
  ℕ, has, ◌≡◌, ◌≢◌, refl, inl, inr, sym, ◌∙◌, ap, subst, Distinct, Option, none, some, List, [],
  ◌∷◌, ◌++◌, true, false, ◌==◌, arith, true_ne_false, Bool-cases, Run, ok, get_elem?, if◌then◌else◌,
}
use kernel_r.Process.Arena.{get, put}
use kernel_r.Process.Arena.Put.{put-get_self, put-get_ne}
use kernel_r.Process.State.{
  Thread, Scheduler, is_ready, is_zombie, zombie, running, ready, sleeping, blocked, ThreadState,
}
use kernel_r.Process.Scheduler.Queue.{RunQueue}
use kernel_r.Process.Scheduler.Bury.{not_ready}
use kernel_r.Process.Scheduler.Schedule.{requeue, settle_task}
use kernel_r.Process.Scheduler.Valid.{
  IsKept, IsSane, IsQueued, waits_task, put-IsKept, put-IsQueued,
}
use kernel_r.Process.Scheduler.Charge.{HasTime, Charged, charge-Charged}

pub live_of_ready : (st : ThreadState) → is_ready st ≡ true → is_zombie st ≡ false
live_of_ready ready r = refl
live_of_ready running r = refl
live_of_ready sleeping r = refl
live_of_ready blocked r = refl
live_of_ready zombie r = cc

module _ {Q : Type 0} (queue : RunQueue Q) where
  -- A scheduler whose tree holds all threads that wait, the one that ran among them.
  pub record IsSettled (s s' : Scheduler Q) (idle t : ℕ) (left free : List ℕ) : Type 0 where
    pub kept : IsKept s' idle free
    pub graveyard : s'.graveyard ≡ left
    pub queued : IsQueued queue none idle s'
    pub current : s'.current_task ≡ s.current_task
    pub processes : s'.processes ≡ s.processes
    pub others : (j : ℕ) → j ≢ t → get s'.tasks j ≡ get s.tasks j
    pub still :
        (task : Thread)
        → get s.tasks t ≡ some task
        → (task' : Thread) × (get s'.tasks t ≡ some task') × (task'.state ≡ task.state)

  abbrev pub Settled : Scheduler Q → ℕ → ℕ → List ℕ → List ℕ → Run (Scheduler Q) → Type 0
  Settled s idle t left free run =
      (s' : Scheduler Q) × (run ≡ ok s') × IsSettled s s' idle t left free

  same_self : (t : ℕ) → (t == t) ≡ true
  same_self t = ground arith

  not_waiting :
      (s : Scheduler Q) (idle t : ℕ)
      → IsQueued queue (some t) idle s
      → queue.contains s.tree t ≡ false
  not_waiting s idle t q = q t ∙ out (get s.tasks t)
    where
      out : (found : Option Thread) → waits_task (some t) idle t found ≡ false
      out (some task) = ground (arith, same_self t)
      out none = refl

  put-IsSettled :
      (s : Scheduler Q) (idle t : ℕ) (old new : Thread) (now : ℕ) (tree : Q) {free : List ℕ}
      → IsKept s idle free
      → IsQueued queue (some t) idle s
      → get s.tasks t ≡ some old
      → IsSane s.processes idle t new
      → new.pid ≡ old.pid
      → new.state ≡ old.state
      → ((j : ℕ) → j ≢ t → queue.contains tree j ≡ queue.contains s.tree j)
      → queue.contains tree t ≡ waits_task none idle t (some new)
      → IsSettled s
          (record s { tasks = put s.tasks t new; tree = tree; system_runtime = now })
          idle
          t
          s.graveyard
          free
  put-IsSettled s idle t old new now tree v q at sane pid state others here = record {
    kept =
        put-IsKept queue s idle t old new now tree v at sane pid (λ z. ap is_zombie state ∙ z)
          (λ z. v.alone t old at (ap is_zombie (sym state) ∙ z))
          (λ is_idle.
            (let (i, e, r) = v.idle_ready in
              ap is_ready state
              ∙ ap (λ x. is_ready x.state)
                  (some-injective old i (sym at ∙ ap (get s.tasks) is_idle ∙ e))
              ∙ r));
    graveyard = refl;
    queued =
        put-IsQueued queue s (some t) none idle t old new now tree at q
          (λ j ne. sym (unlike t j (λ same. ne (sym same)))) others here;
    current = refl;
    processes = refl;
    others = λ j ne. put-get_ne s.tasks t j new ne;
    still = λ task e. (
      new,
      put-get_self s.tasks t old new at,
      state ∙ ap (λ x. x.state) (some-injective old task (sym at ∙ e)),
    );
  }
    where
      unlike : (i j : ℕ) → i ≢ j → (i == j) ≡ false
      unlike i j ne = ground (arith, ne)

  Charged-IsSane :
      (s : Scheduler Q) (idle t : ℕ) (old new : Thread) (context : ℕ)
      → IsSane s.processes idle t old
      → Charged queue old context new
      → IsSane s.processes idle t new
  Charged-IsSane s idle t old new context sane
        (timed, tid, pid, state, node, base, len, _, _, _, _) =
      record {
        tid = tid ∙ sane.tid;
        timed = timed;
        top = omega (arith, sane.top, base, len);
        node = λ z ne.
            (let (n, e, id) = sane.node (ap is_zombie (sym state) ∙ z) ne in (n, node ∙ e, id));
        home = λ z.
            (let (p, e) = sane.home (ap is_zombie (sym state) ∙ z) in
              (p, ap (get_elem? s.processes) pid ∙ e));
      }

  -- A ready thread goes back to the tree, unless it is the idle one.
  requeue-Settled :
      (s : Scheduler Q) (idle t : ℕ) (old new : Thread) (now : ℕ) {free : List ℕ}
      → IsKept s idle free
      → IsQueued queue (some t) idle s
      → get s.tasks t ≡ some old
      → IsSane s.processes idle t new
      → new.pid ≡ old.pid
      → new.state ≡ old.state
      → Settled s idle t s.graveyard free (requeue queue (record s { system_runtime = now }) t new)
  requeue-Settled s idle t old new now v q at sane pid state =
      let absent = not_waiting s idle t q in
      let left : Scheduler Q = record s { tasks = put s.tasks t new; system_runtime = now } in
      let stays : waits_task none idle t (some new) ≡ false
          → IsSettled s left idle t s.graveyard _ =
        λ out.
          put-IsSettled s idle t old new now s.tree v q at sane pid state (λ j ne. refl)
            (absent ∙ sym out) in
      elim (Bool-cases (is_ready new.state)) [
        | inr rests ↦ (left, rw rests refl, stays (ground (arith, rests)))
        | inl is_up ↦ elim (Bool-cases (new.tid == idle)) [
          | inl is_idle ↦
              (left, rw (is_up, v.idle_id, is_idle) refl, stays (ground (arith, is_idle, sane.tid)))
          | inr other ↦
              (let not_idle : t ≢ idle = λ same. ground (arith, other, same, sane.tid) in
                let (node, has_node, id) = sane.node (live_of_ready new.state is_up) not_idle in
                let filled = record node { vruntime = new.vruntime; deadline = new.deadline } in
                let back : Thread = record new { rb_node = some filled } in
                let absent' : queue.contains s.tree node.task_id ≡ false =
                  ap (queue.contains s.tree) id ∙ absent in
                (
                  record s {
                    tasks = put s.tasks t back;
                    tree = queue.rbtree_insert s.tree filled;
                    system_runtime = now;
                  },
                  rw (is_up, v.idle_id, other, has_node) refl,
                  put-IsSettled s idle t old back now (queue.rbtree_insert s.tree filled) v q at
                      (record {
                        tid = sane.tid;
                        timed = record {
                          weight = sane.timed.weight;
                          word_weight = sane.timed.word_weight;
                          burst = sane.timed.burst;
                        };
                        top = sane.top;
                        node = λ z ne. (filled, refl, id);
                        home = sane.home;
                      })
                      pid state
                      (λ j ne.
                        queue.contains-rbtree_insert s.tree filled j absent'
                        ∙ ground (arith, id, ne))
                      (queue.contains-rbtree_insert s.tree filled t absent'
                        ∙ ground (arith, id, not_idle, is_up)),
                ))
        ]
      ]

  bury_one :
      (s : Scheduler Q) (idle t : ℕ) (dead : Thread) {free : List ℕ}
      → IsKept s idle free
      → s.graveyard ≡ []
      → get s.tasks t ≡ some dead
      → is_zombie dead.state ≡ true
      → IsKept (record s { graveyard = s.graveyard ++ (t ∷ []) }) idle free
  bury_one s idle t dead v grave at is_dead =
      let one : s.graveyard ++ (t ∷ []) ≡ t ∷ [] = ap (λ g. g ++ (t ∷ [])) grave in
      record {
        arena = v.arena;
        sane = v.sane;
        alone = v.alone;
        idle_id = v.idle_id;
        idle_ready = v.idle_ready;
        buried = λ g i.
            (dead, ap (get s.tasks) {y = t} (ground (arith, i, ap (has g) one)) ∙ at, is_dead);
        distinct = subst Distinct (sym one) (refl, tt);
      }

  dead_Settled :
      (s : Scheduler Q) (idle t : ℕ) (task : Thread) {free : List ℕ}
      → IsKept s idle free
      → IsQueued queue (some t) idle s
      → s.graveyard ≡ []
      → get s.tasks t ≡ some task
      → is_zombie task.state ≡ true
      → Settled s idle t (t ∷ []) free (
          requeue queue
            (record s { graveyard = s.graveyard ++ (t ∷ []) })
            t
            (record task { rb_node = none }))
  dead_Settled s idle t task {free} v q grave at dead =
      let stripped : Thread = record task { rb_node = none } in
      let down = not_ready task.state dead in
      let sane = v.sane t task at in
      let base =
        put-IsSettled s idle t task stripped s.system_runtime s.tree v q at
          (record {
            tid = sane.tid;
            timed = record {
              weight = sane.timed.weight;
              word_weight = sane.timed.word_weight;
              burst = sane.timed.burst;
            };
            top = sane.top;
            node = λ live. absurd (true_ne_false (sym dead ∙ live));
            home = sane.home;
          })
          refl refl (λ j ne. refl) (not_waiting s idle t q ∙ ground (arith, down)) in
      let mid : Scheduler Q = record s { tasks = put s.tasks t stripped } in
      (
        record mid { graveyard = s.graveyard ++ (t ∷ []) },
        rw down refl,
        record {
          kept =
              bury_one mid idle t stripped base.kept grave (put-get_self s.tasks t task stripped at)
                dead;
          graveyard = ap (λ g. g ++ (t ∷ [])) grave;
          queued = base.queued;
          current = refl;
          processes = refl;
          others = base.others;
          still = base.still;
        },
      )

  -- The part of `schedule` before the pick.
  pub settle_task-Settled :
      (s : Scheduler Q) (idle t : ℕ) (task : Thread) (context : ℕ) {free : List ℕ}
      → IsKept s idle free
      → IsQueued queue (some t) idle s
      → HasTime s
      → s.graveyard ≡ []
      → get s.tasks t ≡ some task
      → Settled s idle t
          (if is_zombie task.state then t ∷ [] else [])
          free
          (settle_task queue s t task context)
  settle_task-Settled s idle t task context v q time grave at =
      elim (Bool-cases (is_zombie task.state)) [
        | inr live ↦
            (let (new, now, run, charged) =
                charge-Charged queue s task context (v.sane t task at).timed time.system
                  (time.threads t task at) in
              let sane = Charged-IsSane s idle t task new context (v.sane t task at) charged in
              let (_, _, pid, state, _, _, _, _, _, _, _) = charged in
              let (s', run', settled) =
                requeue-Settled s idle t task new now v q at sane pid state in
              rw live (
                s',
                rw run run',
                record {
                  kept = settled.kept;
                  graveyard = settled.graveyard ∙ grave;
                  queued = settled.queued;
                  current = settled.current;
                  processes = settled.processes;
                  others = settled.others;
                  still = settled.still;
                },
              ))
        | inl dead ↦
            (let (s', run, settled) = dead_Settled s idle t task v q grave at dead in
              rw dead (s', run, settled))
      ]
