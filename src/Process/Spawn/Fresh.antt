-- ===== src/Process/Spawn/Fresh.antt =====
-- A new thread starts at its entry point and returns to `exit_thread`.
use native.Mathlib.Nat.{div-le_self, mod-lt}
use kernel_r.Prelude.{
  ℕ, [], ◌∷◌, ◌+◌, ◌-◌, ◌*◌, ◌/◌, ◌%◌, ◌^◌, ◌≤◌, ◌<◌, ◌≡◌, refl, sym, ◌∙◌, ap, inl, inr, max, true,
  ltb, Bool-cases, none, ok, word, arith, store, store_self, add_u64_lem, sub_u64_lem, mul_u64_lem,
  div_u64_lem, shl_u64_lem, if◌then◌else◌,
}
use kernel_r.Process.State.{Thread, Scheduler, is_ready, ready, new_queue}
use kernel_r.Process.Scheduler.{half}
use kernel_r.Process.Scheduler.Clock.Bounds.{IsTimed, sub_i64-ok}
use kernel_r.Process.Spawn.{
  new_thread, first_slice, first_context, context_words, write_words, zeroed, kernel_stack_size,
}
use kernel_r.Process.Spawn.Words.{read_words, read-write_words, write_words_above}

-- The context that a thread is restored from, word by word: fifteen registers and an error code of
-- zero, then rip at `entry_point`, cs 8, rflags 0x202, rsp at the last word of the stack, ss 0. That
-- last word holds the address of `exit_thread`, which the thread returns to.
pub record IsFresh (thread : Thread) (mem : ℕ → ℕ) (exit stack_base entry_point weight : ℕ)
    : Type 0 where
  pub up : is_ready thread.state ≡ true
  pub timed : IsTimed thread
  pub base : thread.stack_base ≡ stack_base
  pub len : thread.stack_len ≡ kernel_stack_size
  pub load : thread.weight ≡ weight
  pub saved :
      read_words mem thread.stack_pointer 21
      ≡ 0
        ∷ 0
        ∷ 0
        ∷ 0
        ∷ 0
        ∷ 0
        ∷ 0
        ∷ 0
        ∷ 0
        ∷ 0
        ∷ 0
        ∷ 0
        ∷ 0
        ∷ 0
        ∷ 0
        ∷ 0
        ∷ entry_point
        ∷ 8
        ∷ 514
        ∷ (thread.stack_pointer + 168)
        ∷ 0
        ∷ []
  pub returns : mem (thread.stack_pointer + 168) ≡ exit
  pub top : thread.stack_pointer + 176 ≡ stack_base + kernel_stack_size

module _ {Q : Type 0} where
  slice_of :
      (s : Scheduler Q) (weight d : ℕ)
      → 4 ≤ weight
      → weight < 2 ^ 31
      → (if ltb 0 s.total_weight then s.total_weight else weight) ≡ d
      → 0 < d
      → (slice : ℕ) × (first_slice s weight ≡ ok slice) × (slice < 2 ^ 54)
  unfolding first_slice
  slice_of s weight d four small is_d pos =
      let part = div-le_self (weight * 6000000) d in
      (
        max 4000000 (weight * 6000000 / d),
        rw
            (
              mul_u64_lem weight 6000000 (omega (arith, small)),
              is_d,
              div_u64_lem (weight * 6000000) d pos,
            )
            refl,
        omega (arith, part, small),
      )

  first_slice-bounded :
      (s : Scheduler Q) (weight : ℕ)
      → 4 ≤ weight
      → weight < 2 ^ 31
      → (slice : ℕ) × (first_slice s weight ≡ ok slice) × (slice < 2 ^ 54)
  first_slice-bounded s weight four small = elim (Bool-cases (ltb 0 s.total_weight)) [
    | inl weighed ↦ slice_of s weight s.total_weight four small (rw weighed refl) (ground arith)
    | inr none_yet ↦ slice_of s weight weight four small (rw none_yet refl) (omega arith)
  ]

  -- For a weight from 4 to 2 ^ 31, a stack inside the address space and a virtual clock below 2 ^ 63,
  -- Thread::new does not panic, and the thread's saved context, word by word, is that of a kernel
  -- thread that enters at the entry point and returns to exit_thread.
  pub new_thread-IsFresh :
      (s : Scheduler Q) (exit stack_base : ℕ) (mem : ℕ → ℕ) (entry_point weight : ℕ)
      → 4 ≤ weight
      → weight < 2 ^ 31
      → stack_base + kernel_stack_size < word
      → s.system_runtime < half
      → (thread : Thread) × (mem' : ℕ → ℕ) × (new_thread s exit stack_base mem entry_point weight
          ≡ ok (thread, mem'))
        × IsFresh thread mem' exit stack_base entry_point weight
  unfolding new_thread
  new_thread-IsFresh s exit stack_base mem entry_point weight four small room early =
      let ret : ℕ = stack_base + kernel_stack_size - 8 in
      let sp : ℕ = ret - 168 in
      let up : sp + 168 ≡ ret = omega arith in
      let (slice, slice_eq, slice_lt) = first_slice-bounded s weight four small in
      let (lag, lag_eq) = sub_i64-ok s.system_runtime 0 early (omega arith) in
      let shifted : ℕ = slice * 1024 * 2 ^ 20 % word in
      let span = div-le_self shifted weight in
      let low = mod-lt (slice * 1024 * 2 ^ 20) {m = word} (omega arith) in
      let returning = store (zeroed mem stack_base kernel_stack_size) ret exit in
      let thread : Thread = record {
        tid = 0;
        pid = 0;
        stack_pointer = sp;
        state = ready;
        page_table = 0;
        stack_base = stack_base;
        stack_len = kernel_stack_size;
        weight = weight;
        real_runtime = 0;
        vruntime = 0;
        lag = lag;
        time_slice = slice;
        deadline = 0 + shifted / weight;
        burst_score = 0;
        rb_node = none;
        next_waiter = none;
        join_queue = new_queue;
      } in
      let words = context_words (first_context entry_point ret) in
      (
        thread,
        write_words returning sp words,
        rw
            (
              add_u64_lem stack_base kernel_stack_size room,
              sub_u64_lem (stack_base + kernel_stack_size) 8 (omega arith),
              sub_u64_lem ret 168 (omega arith),
              slice_eq,
              lag_eq,
              mul_u64_lem slice 1024 (omega (arith, slice_lt)),
              shl_u64_lem (slice * 1024) 20 (omega arith),
              div_u64_lem shifted weight (omega arith),
              add_u64_lem 0 (shifted / weight) (omega (arith, span, low)),
            )
            refl,
        record {
          up = refl;
          timed = record { weight = four; word_weight = omega (arith, small); burst = omega arith };
          base = refl;
          len = refl;
          load = refl;
          saved =
              read-write_words returning sp words
              ∙ ap (λ r. context_words (first_context entry_point r)) (sym up);
          returns =
              ap (write_words returning sp words) up
              ∙ write_words_above returning sp ret words (omega arith)
              ∙ store_self (zeroed mem stack_base kernel_stack_size) ret exit;
          top = omega arith;
        },
      )
