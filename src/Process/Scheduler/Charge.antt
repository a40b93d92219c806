-- ===== src/Process/Scheduler/Charge.antt =====
-- The clocks at a tick: the running thread pays for it.
use native.Mathlib.Nat.{div-le_self}
use kernel_r.Prelude.{
  ℕ, ◌*◌, ◌+◌, ◌/◌, ◌%◌, ◌^◌, ◌≤◌, ◌<◌, ◌≡◌, refl, inl, inr, some, arith, Bool-cases, ok, word, ltb,
  add_u64_lem, shl_u64_lem, shr_u64_lem,
}
use kernel_r.Process.Arena.{get}
use kernel_r.Process.State.{Thread, Scheduler}
use kernel_r.Process.Scheduler.Clock.{half}
use kernel_r.Process.Scheduler.Clock.Bounds.{
  IsTimed, update_deadline_eq, runtime_of, runtime_of-lt, deadline_of, sub_i64-ok,
}
use kernel_r.Process.Scheduler.Queue.{RunQueue}
use kernel_r.Process.Scheduler.Schedule.{advance, charge}

-- The clocks have room for one more tick.
pub record HasTime {Q : Type 0} (s : Scheduler Q) : Type 0 where
  pub system : s.system_runtime + 2 ^ 40 ≤ half
  pub threads :
      (t : ℕ) (task : Thread) → get s.tasks t ≡ some task → task.real_runtime + 1000000 < word

module _ {Q : Type 0} (queue : RunQueue Q) where
  advance-ok :
      (s : Scheduler Q)
      → s.system_runtime + 2 ^ 40 ≤ half
      → (now : ℕ) × (advance queue s ≡ ok now) × (now < half)
  advance-ok s h =
      let tick : 1000000 * 2 ^ 20 % word ≡ 1048576000000 = refl in
      let share = div-le_self 1048576000000 s.total_weight in
      elim (Bool-cases (ltb 0 s.total_weight)) [
        | inl weighed ↦ (
          s.system_runtime + 1048576000000 / s.total_weight,
          rw
              (
                shl_u64_lem 1000000 20 (omega arith),
                weighed,
                add_u64_lem s.system_runtime (1048576000000 / s.total_weight)
                    (omega (arith, h, share)),
              )
              refl,
          omega (arith, h, share),
        )
        | inr none_yet ↦ (
          s.system_runtime,
          rw (shl_u64_lem 1000000 20 (omega arith), none_yet) refl,
          omega (arith, h),
        )
      ]

  -- The thread after its tick.
  abbrev pub Charged : Thread → ℕ → Thread → Type 0
  Charged task context task' =
      IsTimed task'
      × (task'.tid ≡ task.tid)
      × (task'.pid ≡ task.pid)
      × (task'.state ≡ task.state)
      × (task'.rb_node ≡ task.rb_node)
      × (task'.stack_base ≡ task.stack_base)
      × (task'.stack_len ≡ task.stack_len)
      × (task'.stack_pointer ≡ context)
      × (task'.real_runtime ≡ task.real_runtime + 1000000)
      × (task'.vruntime ≡ runtime_of task')
      × (task'.deadline ≡ deadline_of task')

  pub charge-Charged :
      (s : Scheduler Q) (task : Thread) (context : ℕ)
      → IsTimed task
      → s.system_runtime + 2 ^ 40 ≤ half
      → task.real_runtime + 1000000 < word
      → (task' : Thread) × (now : ℕ) × (charge queue s task context
          ≡ ok (task', record s { system_runtime = now }))
        × Charged task context task'
  charge-Charged s task context timed h room =
      let (now, run, low) = advance-ok s h in
      let score : ℕ = (task.burst_score + 1000000) / 2 ^ 1 in
      let paid : Thread = record task {
        stack_pointer = context;
        real_runtime = task.real_runtime + 1000000;
        burst_score = score;
      } in
      let timed' : IsTimed paid = record {
        weight = timed.weight;
        word_weight = timed.word_weight;
        burst = omega (arith, timed.burst);
      } in
      let v_lt = runtime_of-lt paid timed' in
      let (lag, lag_eq) = sub_i64-ok now (runtime_of paid) low (omega (arith, v_lt)) in
      let t' : Thread = record paid {
        vruntime = runtime_of paid;
        deadline = deadline_of paid;
        lag = lag;
      } in
      (
        t',
        now,
        rw
            (
              add_u64_lem task.real_runtime 1000000 room,
              add_u64_lem task.burst_score 1000000 (omega (arith, timed.burst)),
              shr_u64_lem (task.burst_score + 1000000) 1 (omega arith),
              run,
              update_deadline_eq paid timed',
              lag_eq,
            )
            refl,
        (
          record { weight = timed.weight; word_weight = timed.word_weight; burst = timed'.burst },
          refl,
          refl,
          refl,
          refl,
          refl,
          refl,
          refl,
          refl,
          refl,
          refl,
        ),
      )
