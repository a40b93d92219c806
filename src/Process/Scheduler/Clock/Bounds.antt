-- ===== src/Process/Scheduler/Clock/Bounds.antt =====
-- The clocks of a thread stay in the word while its weight is at least 4.
use native.Mathlib.Nat.{mod-lt, mod-eq_of_lt, div-lt_iff_lt-mul}
use kernel_r.Prelude.{
  ℕ, ◌+◌, ◌-◌, ◌*◌, ◌/◌, ◌%◌, ◌^◌, ◌≤◌, ◌<◌, ◌≡◌, refl, max, ok, word, arith, ltb, leb, lt→ltb,
  le→leb, true, add_u64_lem, shl_u64_lem, shr_u64_lem,
}
use kernel_r.Process.State.{Thread}
use kernel_r.Process.Scheduler.Clock.{effective_weight, update_deadline, sub_i64, half}

-- A weight of at least 4, and a burst score that a tick and a halving keep.
pub record IsTimed (t : Thread) : Type 0 where
  pub weight : 4 ≤ t.weight
  pub word_weight : t.weight < word
  pub burst : t.burst_score ≤ 1000000

quarter : (x w : ℕ) → x < word → 4 ≤ w → x / w < 2 ^ 62
quarter x w h four =
    (div-lt_iff_lt-mul {k = w} {x = x} {y = 2 ^ 62} (omega arith)).1
      (let more : 4 * 2 ^ 62 ≤ 2 ^ 62 * w = omega arith in omega arith)

-- The burst score never reaches the granularity, so that the effective weight is the weight.
pub effective_weight_eq : (t : Thread) → IsTimed t → effective_weight t ≡ ok t.weight
unfolding effective_weight
effective_weight_eq t h =
    let points : t.burst_score / 4000000 ≡ 0 = omega (arith, h.burst) in
    let whole : t.weight / 2 ^ 0 ≡ t.weight = omega arith in
    let least : max 1 t.weight ≡ t.weight = omega (arith, h.weight) in
    rw (points, shr_u64_lem t.weight 0 (omega arith), whole, least)

-- The virtual runtime and the deadline that update_deadline gives.
abbrev pub runtime_of : Thread → ℕ
runtime_of t = t.real_runtime * 2 ^ 20 % word / t.weight

abbrev pub deadline_of : Thread → ℕ
deadline_of t = runtime_of t + t.time_slice * 2 ^ 20 % word / t.weight

pub runtime_of-lt : (t : Thread) → IsTimed t → runtime_of t < 2 ^ 62
runtime_of-lt t h =
    quarter (t.real_runtime * 2 ^ 20 % word) t.weight (mod-lt _ {m = word} (omega arith)) h.weight

pub update_deadline_eq :
    (t : Thread)
    → IsTimed t
    → update_deadline t ≡ ok (record t { vruntime = runtime_of t; deadline = deadline_of t })
unfolding update_deadline
update_deadline_eq t h =
    let slice =
      quarter (t.time_slice * 2 ^ 20 % word) t.weight (mod-lt _ {m = word} (omega arith))
        h.weight in
    let fits : deadline_of t < word = omega (arith, slice, runtime_of-lt t h) in
    rw
      (
        effective_weight_eq t h,
        shl_u64_lem t.real_runtime 20 (omega arith),
        shl_u64_lem t.time_slice 20 (omega arith),
        add_u64_lem (runtime_of t) (t.time_slice * 2 ^ 20 % word / t.weight) fits,
      )
      refl

-- Two numbers below 2 ^ 63 have a difference in i64.
pub sub_i64-ok : (a b : ℕ) → a < half → b < half → (l : ℕ) × (sub_i64 a b ≡ ok l)
unfolding sub_i64
sub_i64-ok a b ha hb =
    let low : (b + half) % word ≡ b + half = mod-eq_of_lt {n = b + half} {m = word} (omega arith) in
    let up : (a + half) % word ≡ a + half = mod-eq_of_lt {n = a + half} {m = word} (omega arith) in
    let least : leb (b + half) (a + half + half) ≡ true = le→leb _ _ (omega arith) in
    let fits : ltb (a + half + half - (b + half)) word ≡ true = lt→ltb _ _ (omega arith) in
    ((a + (word - b)) % word, rw (low, up, least, fits) refl)
