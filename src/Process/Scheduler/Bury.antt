-- ===== src/Process/Scheduler/Bury.antt =====
-- `reap_zombies` empties the graveyard and keeps the invariant.
use mathlib.Core.Option.{some-injective, none-ne-some}
use native.Mathlib.Decide.{ℕ_discrete}
use kernel_r.Prelude.{
  ℕ, has, Distinct, ◌≡◌, ◌≢◌, refl, inl, inr, sym, ◌∙◌, ap, subst, Option, none, some, List, [],
  ◌∷◌, true, false, ◌&&◌, ◌==◌, not, arith, true_ne_false, Bool-cases, Run, ok, get_elem?, set,
  get_elem?-set_ne, length,
}
use kernel_r.Process.Arena.{ThreadArena, get}
use kernel_r.Process.Arena.Free.{IsValid}
use kernel_r.Process.Arena.Live.{remove-Removed}
use kernel_r.Process.State.{
  Thread, ThreadState, zombie, running, ready, sleeping, blocked, Process, Scheduler, Cpu, Machine,
  is_ready, is_zombie,
}
use kernel_r.Process.Scheduler.Queue.{RunQueue, same_task}
use kernel_r.Process.Scheduler.Reap.{
  process_of, drop_process, bury, reap_one, reap_rounds, reap_zombies,
}
use kernel_r.Process.Scheduler.Valid.{IsKept, IsQueued, HasProcess, waits_task}

pub not_ready : (st : ThreadState) → is_zombie st ≡ true → is_ready st ≡ false
not_ready zombie z = refl
not_ready running z = cc
not_ready ready z = cc
not_ready sleeping z = cc
not_ready blocked z = cc

module _ {Q : Type 0} (queue : RunQueue Q) where
  -- What the dead leave as it was: all but their own slots and processes.
  pub record IsReaped (m m' : Machine Q) (idle : ℕ) (dead left free : List ℕ) : Type 0 where
    pub kept : IsKept m'.sched idle free
    pub graveyard : m'.sched.graveyard ≡ left
    pub queued :
        (run : Option ℕ) → IsQueued queue run idle m.sched → IsQueued queue run idle m'.sched
    pub current : m'.sched.current_task ≡ m.sched.current_task
    pub tree : m'.sched.tree ≡ m.sched.tree
    pub runtime : m'.sched.system_runtime ≡ m.sched.system_runtime
    pub gone : (t : ℕ) → has t dead ≡ true → get m'.sched.tasks t ≡ none
    pub others : (t : ℕ) → has t dead ≡ false → get m'.sched.tasks t ≡ get m.sched.tasks t

  -- A thread of the graveyard leaves the arena, and no process but its own is changed.
  removed-IsKept :
      (s : Scheduler Q) (idle z : ℕ) (dead : Thread) (rest : List ℕ) (tasks : ThreadArena Thread)
      (processes : List (Option Process)) {free free' : List ℕ}
      → IsKept s idle free
      → get s.tasks z ≡ some dead
      → is_zombie dead.state ≡ true
      → s.graveyard ≡ z ∷ rest
      → IsValid tasks free'
      → get tasks z ≡ none
      → ((j : ℕ) → j ≢ z → get tasks j ≡ get s.tasks j)
      → ((pid : ℕ) → dead.pid ≢ pid → get_elem? processes pid ≡ get_elem? s.processes pid)
      → IsKept (record s { tasks = tasks; graveyard = rest; processes = processes }) idle free'
  removed-IsKept s idle z dead rest tasks processes v at is_dead grave valid gone others homes =
      let away : (j : ℕ) (task : Thread)
          → get tasks j ≡ some task
          → (j ≢ z) × (get s.tasks j ≡ some task) =
        λ j task e.
          (let ne : j ≢ z = λ same. none-ne-some task (sym gone ∙ ap (get tasks) (sym same) ∙ e) in
            (ne, sym (others j ne) ∙ e)) in
      let (out, apart) = subst Distinct grave v.distinct in
      record {
        arena = valid;
        sane = λ j task e.
            (let (ne, was) = away j task e in
              let sane = v.sane j task was in
              let kept_home : is_zombie task.state ≡ false → HasProcess processes task.pid = λ live.
                (let (p, found) = sane.home live in
                  (p, homes task.pid (v.alone z dead at is_dead j task was ne) ∙ found)) in
              record {
                tid = sane.tid;
                timed = sane.timed;
                top = sane.top;
                node = sane.node;
                home = kept_home;
              });
        alone = λ j task e zed u other e' ne.
            v.alone j task ((away j task e).1) zed u other ((away u other e').1) ne;
        idle_id = v.idle_id;
        idle_ready =
            (let (i, e, r) = v.idle_ready in
              (
                i,
                others idle (λ same. true_ne_false (
                      sym r
                      ∙ ap (λ x. is_ready x.state)
                          (some-injective i dead (sym e ∙ ap (get s.tasks) same ∙ at))
                      ∙ not_ready dead.state is_dead))
                    ∙ e,
                r,
              ));
        buried = λ g i.
            (let ne : g ≢ z = λ same. true_ne_false (sym i ∙ ap (λ x. has x rest) same ∙ out) in
              let (d, e, zed) = v.buried g (ap (has g) grave ∙ ground (arith, i)) in
              (d, others g ne ∙ e, zed));
        distinct = apart;
      }

  waits_gone :
      (run : Option ℕ) (idle t : ℕ) (dead : Thread) (found : Option Thread)
      → found ≡ none
      → is_zombie dead.state ≡ true
      → waits_task run idle t (some dead) ≡ waits_task run idle t found
  waits_gone run idle t dead found missing is_dead =
      ap (λ b. b && not (same_task run t) && not (idle == t)) (not_ready dead.state is_dead)
      ∙ sym (ap (waits_task run idle t) missing)

  module _ (m : Machine Q) (idle z : ℕ) (dead : Thread) (rest : List ℕ) (tasks : ThreadArena Thread)
      {free free' : List ℕ} (v : IsKept m.sched idle free) (at : get m.sched.tasks z ≡ some dead)
      (is_dead : is_zombie dead.state ≡ true) (grave : m.sched.graveyard ≡ z ∷ rest)
      (valid : IsValid tasks free') (gone : get tasks z ≡ none)
      (others : (j : ℕ) → j ≢ z → get tasks j ≡ get m.sched.tasks j) where
    left_IsReaped :
        (processes : List (Option Process)) (cpu : Cpu)
        → ((pid : ℕ) → dead.pid ≢ pid → get_elem? processes pid ≡ get_elem? m.sched.processes pid)
        → IsReaped m
            (record m {
              sched = record m.sched { tasks = tasks; graveyard = rest; processes = processes };
              cpu = cpu;
            })
            idle
            (z ∷ [])
            rest
            free'
    left_IsReaped processes cpu homes = record {
      kept =
          removed-IsKept m.sched idle z dead rest tasks processes v at is_dead grave valid gone
            others homes;
      queued = λ run q t. elim (ℕ_discrete t z) [
        | yes same ↦
            q t
            ∙ ap (waits_task run idle t) (ap (get m.sched.tasks) same ∙ at)
            ∙ waits_gone run idle t dead (get tasks t) (ap (get tasks) same ∙ gone) is_dead
        | no ne ↦ q t ∙ ap (waits_task run idle t) (sym (others t ne))
      ];
      graveyard = refl;
      current = refl;
      tree = refl;
      runtime = refl;
      gone = λ t i. ap (get tasks) {y = z} (ground (arith, i)) ∙ gone;
      others = λ t out. others t (λ same. ground (arith, out, same));
    }

    drop_process-IsReaped :
        (found : Option Process)
        → IsReaped m
            (drop_process
              (record m { sched = record m.sched { tasks = tasks; graveyard = rest } })
              dead.pid
              found)
            idle
            (z ∷ [])
            rest
            free'
    drop_process-IsReaped none = left_IsReaped m.sched.processes m.cpu (λ pid ne. refl)
    drop_process-IsReaped (some p) = elim (Bool-cases (p.ppid == 0)) [
      | inl orphan ↦ rw orphan (
          left_IsReaped (set m.sched.processes dead.pid none)
            (record m.cpu { destroyed = p.page_table ∷ m.cpu.destroyed })
            (λ pid ne. get_elem?-set_ne m.sched.processes none ne))
      | inr child ↦ rw child (left_IsReaped m.sched.processes m.cpu (λ pid ne. refl))
    ]

  abbrev pub Reaped : Machine Q → ℕ → List ℕ → List ℕ → Run (Machine Q) → Type 0
  Reaped m idle dead left run =
      (m' : Machine Q) × (free' : List ℕ) × (run ≡ ok m') × IsReaped m m' idle dead left free'

  reap_one-Reaped :
      (m : Machine Q) (idle z : ℕ) (rest : List ℕ) {free : List ℕ}
      → IsKept m.sched idle free
      → m.sched.graveyard ≡ z ∷ rest
      → same_task m.sched.current_task z ≡ false
      → Reaped m idle (z ∷ []) rest (reap_one m (z ∷ rest))
  reap_one-Reaped m idle z rest v grave not_current =
      let (dead, at, is_dead) = v.buried z (ap (has z) grave ∙ ground arith) in
      let (tasks, free', run, valid, gone, others) = remove-Removed m.sched.tasks z v.arena in
      (
        bury (record m { sched = record m.sched { tasks = tasks; graveyard = rest } }) (some dead),
        free',
        rw (not_current, run, at) refl,
        drop_process-IsReaped m idle z dead rest tasks v at is_dead grave valid gone others
            (process_of (get_elem? m.sched.processes dead.pid)),
      )

  Apart : Option ℕ → List ℕ → Type 0
  Apart current dead = (z : ℕ) → has z dead ≡ true → same_task current z ≡ false

  reap_rounds-Reaped :
      (dead : List ℕ) (m : Machine Q) (idle : ℕ) {free : List ℕ}
      → IsKept m.sched idle free
      → m.sched.graveyard ≡ dead
      → Apart m.sched.current_task dead
      → Reaped m idle dead [] (reap_rounds (length dead) m)
  unfolding Apart
  reap_rounds-Reaped [] m idle {free} v grave apart = (
    m,
    free,
    refl,
    record {
      kept = v;
      graveyard = grave;
      queued = λ run q. q;
      current = refl;
      tree = refl;
      runtime = refl;
      gone = λ t i. absurd (true_ne_false (sym i));
      others = λ t out. refl;
    },
  )
  reap_rounds-Reaped (z ∷ rest) m idle v grave apart =
      let (m₁, free₁, run, one) = reap_one-Reaped m idle z rest v grave (apart z (ground arith)) in
      let (m', free', run', all) =
        reap_rounds-Reaped rest m₁ idle one.kept one.graveyard
          (λ y i. ap (λ c. same_task c y) one.current ∙ apart y (ground (arith, i))) in
      let (out, _) = subst Distinct grave v.distinct in
      (
        m',
        free',
        rw (grave, run) run',
        record {
          kept = all.kept;
          graveyard = all.graveyard;
          queued = λ on q. all.queued on (one.queued on q);
          current = all.current ∙ one.current;
          tree = all.tree ∙ one.tree;
          runtime = all.runtime ∙ one.runtime;
          gone = λ t i. elim (Bool-cases (has t rest)) [
            | inl later ↦ all.gone t later
            | inr now ↦ all.others t now ∙ one.gone t (ground (arith, i, now))
          ];
          others =
              λ t away. all.others t (ground (arith, away)) ∙ one.others t (ground (arith, away));
        },
      )

  -- When the running thread is not in the graveyard, reap_zombies does not panic, empties it, takes
  -- its threads out of the arena and changes no other thread, and keeps the invariant.
  pub reap_zombies-Reaped :
      (m : Machine Q) (idle : ℕ) {free : List ℕ}
      → IsKept m.sched idle free
      → ((z : ℕ) → has z m.sched.graveyard ≡ true → same_task m.sched.current_task z ≡ false)
      → Reaped m idle m.sched.graveyard [] (reap_zombies m)
  unfolding reap_zombies Apart
  reap_zombies-Reaped m idle v apart = reap_rounds-Reaped m.sched.graveyard m idle v refl apart
