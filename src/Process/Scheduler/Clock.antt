-- ===== src/Process/Scheduler/Clock.antt =====
-- The times of a thread: its weight, virtual runtime and deadline.
pub mod Bounds
use kernel_r.Prelude.{
  ℕ, ◌+◌, ◌-◌, ◌/◌, ◌%◌, ◌^◌, ◌&&◌, max, Run, ok, panic, ◌>>=◌, Option, none, some, Bool, true,
  false, ltb, leb, word, add_u64, shl_u64, shr_u64, if◌then◌else◌,
}
use kernel_r.Process.State.{Thread}

abbrev pub scheduler_target_latency : ℕ
scheduler_target_latency = 6000000

abbrev pub scheduler_min_granularity : ℕ
scheduler_min_granularity = 4000000

abbrev pub nice_0_load : ℕ
nice_0_load = 1024

abbrev pub time_consumed : ℕ
time_consumed = 1000000

unfoldable pub set_priority : Thread → ℕ → Thread
set_priority t priority = record t { weight = priority }

unfoldable pub effective_weight : Thread → Run ℕ
effective_weight t = do
  shifted ← shr_u64 t.weight (t.burst_score / scheduler_min_granularity)
  ok (max 1 shifted)

unfoldable pub update_deadline : Thread → Run Thread
update_deadline t = do
  eff_weight ← effective_weight t
  runtime ← shl_u64 t.real_runtime 20
  slice ← shl_u64 t.time_slice 20
  deadline ← add_u64 (runtime / eff_weight) (slice / eff_weight)
  ok (record t { vruntime = runtime / eff_weight; deadline = deadline })

-- `a as i64 - b as i64`, as the bits of the result: with both moved up by half a word, the
-- difference is outside of i64 when it is outside of a word.
abbrev pub half : ℕ
half = 2 ^ 63

unfoldable pub sub_i64 : ℕ → ℕ → Run ℕ
sub_i64 a b =
    let up : ℕ = (a + half) % word + half in
    let low : ℕ = (b + half) % word in
    if leb low up && ltb (up - low) word then ok ((a + (word - b)) % word) else panic

-- The clock of update_system_uptime; an atomic addition wraps.
unfoldable pub update_system_uptime : ℕ → ℕ
update_system_uptime nanos = (nanos + time_consumed) % word
