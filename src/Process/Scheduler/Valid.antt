-- ===== src/Process/Scheduler/Valid.antt =====
-- The invariant of the scheduler, and how it is kept when one thread changes.
use mathlib.Core.Option.{some-injective}
use native.Mathlib.Decide.{ℕ_discrete}
use kernel_r.Prelude.{
  ℕ, ◌+◌, ◌<◌, ◌≡◌, ◌≢◌, refl, inl, inr, sym, ◌∙◌, ap, subst, word, Option, none, some, List, Bool,
  true, false, ◌&&◌, ◌==◌, not, get_elem?, has, Distinct,
}
use kernel_r.Process.Arena.{get, put}
use kernel_r.Process.Arena.Free.{IsValid}
use kernel_r.Process.Arena.Put.{put-get_self, put-get_ne, put-cases, put-IsValid}
use kernel_r.Process.State.{Thread, Process, SchedNode, Scheduler, is_ready, is_zombie}
use kernel_r.Process.Scheduler.Queue.{RunQueue, same_task}
use kernel_r.Process.Scheduler.Clock.Bounds.{IsTimed}

-- The node of a thread, which carries its id.
abbrev pub HasNode : Option SchedNode → ℕ → Type 0
HasNode rb_node t = (node : SchedNode) × (rb_node ≡ some node) × (node.task_id ≡ t)

abbrev pub HasProcess : List (Option Process) → ℕ → Type 0
HasProcess processes pid = (p : Process) × (get_elem? processes pid ≡ some (some p))

-- A live thread has its process, and a node unless it is the idle thread.
pub record IsSane (processes : List (Option Process)) (idle t : ℕ) (task : Thread) : Type 0 where
  pub tid : task.tid ≡ t
  pub timed : IsTimed task
  pub top : task.stack_base + task.stack_len < word
  pub node : is_zombie task.state ≡ false → t ≢ idle → HasNode task.rb_node t
  pub home : is_zombie task.state ≡ false → HasProcess processes task.pid

-- The process of a dead thread is its own.
abbrev pub Alone : (ℕ → Option Thread) → ℕ → Thread → Type 0
Alone tasks t dead = (u : ℕ) (other : Thread) → tasks u ≡ some other → u ≢ t → dead.pid ≢ other.pid

pub record IsKept {Q : Type 0} (s : Scheduler Q) (idle : ℕ) (free : List ℕ) : Type 0 where
  pub arena : IsValid s.tasks free
  pub sane : (t : ℕ) (task : Thread) → get s.tasks t ≡ some task → IsSane s.processes idle t task
  pub alone :
      (t : ℕ) (dead : Thread)
      → get s.tasks t ≡ some dead
      → is_zombie dead.state ≡ true
      → Alone (get s.tasks) t dead
  pub idle_id : s.idle_task_id ≡ some idle
  pub idle_ready : (task : Thread) × (get s.tasks idle ≡ some task) × (is_ready task.state ≡ true)
  pub buried :
      (g : ℕ)
      → has g s.graveyard ≡ true
      → (dead : Thread) × (get s.tasks g ≡ some dead) × (is_zombie dead.state ≡ true)
  pub distinct : Distinct s.graveyard

-- The threads that wait for the processor: ready, not `running` and not the idle thread.
abbrev pub waits_task : Option ℕ → ℕ → ℕ → Option Thread → Bool
waits_task running idle t (some task) =
    is_ready task.state && not (same_task running t) && not (idle == t)
waits_task running idle t none = false

abbrev pub waits : {Q : Type 0} → Option ℕ → ℕ → Scheduler Q → ℕ → Bool
waits running idle s t = waits_task running idle t (get s.tasks t)

-- The tree holds the threads that wait and no other.
abbrev pub IsQueued : {Q : Type 0} → RunQueue Q → Option ℕ → ℕ → Scheduler Q → Type 0
IsQueued queue running idle s = (t : ℕ) → queue.contains s.tree t ≡ waits running idle s t

waits_same :
    (running running' : Option ℕ) (idle j : ℕ) (task : Option Thread)
    → same_task running j ≡ same_task running' j
    → waits_task running idle j task ≡ waits_task running' idle j task
waits_same running running' idle j (some task) e =
    ap (λ b. is_ready task.state && not b && not (idle == j)) e
waits_same running running' idle j none e = refl

module _ {Q : Type 0} (queue : RunQueue Q) where
  -- One thread changes, and stays as it is to the others.
  pub put-IsKept :
      (s : Scheduler Q) (idle t : ℕ) (old new : Thread) (now : ℕ) (tree : Q) {free : List ℕ}
      → IsKept s idle free
      → get s.tasks t ≡ some old
      → IsSane s.processes idle t new
      → new.pid ≡ old.pid
      → (is_zombie old.state ≡ true → is_zombie new.state ≡ true)
      → (is_zombie new.state ≡ true → Alone (get s.tasks) t old)
      → (t ≡ idle → is_ready new.state ≡ true)
      → IsKept (record s { tasks = put s.tasks t new; tree = tree; system_runtime = now }) idle free
  put-IsKept s idle t old new now tree {free} v at sane pid dead alone ready = record {
    arena = put-IsValid s.tasks t old new at v.arena;
    sane = λ j task e. elim (put-cases s.tasks t j old new task at e) [
      | inl (same, is_new) ↦
          subst (λ x. IsSane s.processes idle x task) (sym same)
            (subst (λ x. IsSane s.processes idle t x) is_new sane)
      | inr (ne, was) ↦ v.sane j task was
    ];
    alone = λ j gone e z u other e_other ne. elim (put-cases s.tasks t j old new gone at e) [
      | inl (same, is_new) ↦
          (let other_was = sym (put-get_ne s.tasks t u new (λ q. ne (q ∙ sym same))) ∙ e_other in
            λ q.
              alone (ap (λ x. is_zombie x.state) is_new ∙ z) u other other_was
                (λ q'. ne (q' ∙ sym same)) (sym pid ∙ ap (λ x. x.pid) is_new ∙ q))
      | inr (j_ne, was) ↦ elim (put-cases s.tasks t u old new other at e_other) [
        | inl (u_same, is_new) ↦ (λ q.
            v.alone j gone was z t old at (λ q'. j_ne (sym q'))
              (q ∙ sym (ap (λ x. x.pid) is_new) ∙ pid))
        | inr (u_ne, u_was) ↦ v.alone j gone was z u other u_was ne
      ]
    ];
    idle_id = v.idle_id;
    idle_ready = elim (ℕ_discrete idle t) [
      | yes same ↦ (
        new,
        ap (get (put s.tasks t new)) same ∙ put-get_self s.tasks t old new at,
        ready (sym same),
      )
      | no ne ↦ (v.idle_ready.0, put-get_ne s.tasks t idle new ne ∙ v.idle_ready.1, v.idle_ready.2)
    ];
    buried = λ g i.
        (let (gone, e, z) = v.buried g i in
          elim (ℕ_discrete g t) [
            | yes same ↦ (
              new,
              ap (get (put s.tasks t new)) same ∙ put-get_self s.tasks t old new at,
              dead (
                  ap (λ x. is_zombie x.state)
                    (some-injective old gone (sym at ∙ ap (get s.tasks) (sym same) ∙ e))
                  ∙ z),
            )
            | no ne ↦ (gone, put-get_ne s.tasks t g new ne ∙ e, z)
          ]);
    distinct = v.distinct;
  }

  -- The tree of the others is as it was, and the changed thread is in it when it waits.
  pub put-IsQueued :
      (s : Scheduler Q) (running running' : Option ℕ) (idle t : ℕ) (old new : Thread) (now : ℕ)
      (tree : Q)
      → get s.tasks t ≡ some old
      → IsQueued queue running idle s
      → ((j : ℕ) → j ≢ t → same_task running' j ≡ same_task running j)
      → ((j : ℕ) → j ≢ t → queue.contains tree j ≡ queue.contains s.tree j)
      → queue.contains tree t ≡ waits_task running' idle t (some new)
      → IsQueued queue running' idle
          (record s { tasks = put s.tasks t new; tree = tree; system_runtime = now })
  put-IsQueued s running running' idle t old new now tree at q same others here j =
      elim (ℕ_discrete j t) [
        | yes j_is ↦
            ap (queue.contains tree) j_is
            ∙ here
            ∙ ap (waits_task running' idle t) (sym (put-get_self s.tasks t old new at))
            ∙ ap (λ x. waits_task running' idle x (get (put s.tasks t new) x)) (sym j_is)
        | no ne ↦
            others j ne
            ∙ q j
            ∙ waits_same running running' idle j (get s.tasks j) (sym (same j ne))
            ∙ ap (waits_task running' idle j) (sym (put-get_ne s.tasks t j new ne))
      ]
