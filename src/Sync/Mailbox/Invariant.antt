-- ===== src/Sync/Mailbox/Invariant.antt =====
-- What holds between the steps of senders and receivers.
use mathlib.Core.List.{append_assoc}
use native.Mathlib.Nat.{mod-eq_of_lt}
use kernel_r.Prelude.{
  ℕ, suc, ◌+◌, ◌%◌, ◌==◌, ◌≤◌, ◌<◌, ◌≡◌, sym, ◌∙◌, ap, inl, inr, ◌⊎◌, Option, List, [], ◌∷◌, ◌++◌,
  Bool, true, false, word, arith, length, length-append,
}
use kernel_r.Process.State.{Thread, Scheduler, WaitQueue}
use kernel_r.Process.Scheduler.{RunQueue}
use kernel_r.Process.Scheduler.Tick.{IsScheduler}
use kernel_r.Sync.Blocking.{Semaphore}
use kernel_r.Sync.Blocking.Rounds.{FirstWoken}
use kernel_r.Sync.Blocking.Locks.{Acquired}
use kernel_r.Sync.Mailbox.{pop_from}
use kernel_r.Sync.Mailbox.Traffic.{Traffic, woken_by, after_add, after_wake, after_round, after_pop}

module _ {Q : Type 0} (queue : RunQueue Q) (idle : ℕ) {T : Type 0} where
  abbrev pub waiters_of : Traffic Q T → List ℕ
  waiters_of b = b.box.available.wait_queue.waiters

  abbrev pub count_of : Traffic Q T → ℕ
  count_of b = b.box.available.count

  -- The semaphore and the calls under way account for the messages, which come out as they went in;
  -- a thread that sleeps is in the queue, and is not forgotten while there is a permit.
  pub record Inv (b : Traffic Q T) : Type 0 where
    pub free : List ℕ
    pub valid : IsScheduler queue b.sched idle free
    pub counted : length b.box.queue ≡ count_of b + b.adding + b.popping
    pub in_order : b.received ++ b.box.queue ≡ b.sent
    pub none_missed : b.missed ≡ 0
    pub asleep : b.sleeping ≡ length (waiters_of b)
    pub noticed : (waiters_of b ≡ []) ⊎ (count_of b ≤ b.trying + b.waking)

  pub pop-Inv :
      (b : Traffic Q T) (n : ℕ) (messages : List T)
      → b.box.queue ≡ messages
      → b.popping ≡ suc n
      → Inv b
      → Inv (after_pop b n (pop_from messages b.box))
  pop-Inv b n [] e busy v = absurd (omega (arith, v.counted, busy, ap length e))
  pop-Inv b n (x ∷ rest) e busy v = record {
    free = v.free;
    valid = v.valid;
    counted = omega (arith, v.counted, busy, ap length e);
    in_order =
        append_assoc b.received (x ∷ []) rest ∙ ap (λ q. b.received ++ q) (sym e) ∙ v.in_order;
    none_missed = v.none_missed;
    asleep = v.asleep;
    noticed = v.noticed;
  }

  -- The count is at most the number of messages that were ever sent.
  count_of-bounded : (b : Traffic Q T) → Inv b → count_of b + b.adding ≤ length b.sent
  count_of-bounded b v =
      omega (arith, v.counted, length-append b.received b.box.queue, ap length v.in_order)

  pub add-Inv :
      (b : Traffic Q T) (n : ℕ)
      → b.adding ≡ suc n
      → length b.sent < word
      → Inv b
      → Inv (after_add b n)
  add-Inv b n e few v =
      let bounded = count_of-bounded b v in
      let fits : (count_of b + 1) % word ≡ count_of b + 1 =
        mod-eq_of_lt {n = count_of b + 1} {m = word} (omega (arith, bounded, few, e)) in
      record {
        free = v.free;
        valid = v.valid;
        counted = omega (arith, v.counted, e, fits);
        in_order = v.in_order;
        none_missed = v.none_missed;
        asleep = v.asleep;
        noticed = elim v.noticed [
          | inl no_one ↦ inl no_one
          | inr seen ↦ inr (omega (arith, seen, fits))
        ];
      }

  pub wake-Inv :
      (b : Traffic Q T) (n : ℕ) (ws : List ℕ) (id : Option ℕ) (w : WaitQueue) (s : Scheduler Q)
      (v : Inv b)
      → waiters_of b ≡ ws
      → b.waking ≡ suc n
      → IsScheduler queue s idle v.free
      → FirstWoken queue ws b.sched idle v.free id w s
      → Inv (after_wake b n id w s)
  wake-Inv b n [] id w s v e busy valid (nobody, empty, _) = record {
    free = v.free;
    valid = valid;
    counted = v.counted;
    in_order = v.in_order;
    none_missed = v.none_missed;
    asleep = omega (arith, v.asleep, ap length e, ap length empty, ap woken_by nobody);
    noticed = inl empty;
  }
  wake-Inv b n (h ∷ rest) id w s v e busy valid (first, left, _) = record {
    free = v.free;
    valid = valid;
    counted = v.counted;
    in_order = v.in_order;
    none_missed = v.none_missed;
    asleep = omega (arith, v.asleep, ap length e, ap length left, ap woken_by first);
    noticed = elim v.noticed [
      | inl no_one ↦ absurd (omega (arith, ap length (sym no_one ∙ e)))
      | inr seen ↦ inr (omega (arith, seen, busy, ap woken_by first))
    ];
  }

  pub round-Inv :
      (b : Traffic Q T) (n t : ℕ) (task : Thread) (exchanged done : Bool) (sem : Semaphore)
      (s : Scheduler Q) (v : Inv b)
      → b.trying ≡ suc n
      → IsScheduler queue s idle v.free
      → Acquired queue exchanged b.box.available b.sched idle t task v.free done sem s
      → Inv (after_round b n done sem s)
  round-Inv b n t task exchanged true sem s v busy valid (taken, same, _) = record {
    free = v.free;
    valid = valid;
    counted = omega (arith, v.counted, taken);
    in_order = v.in_order;
    none_missed = v.none_missed;
    asleep = v.asleep ∙ ap (λ w. length w.waiters) (sym same);
    noticed = elim v.noticed [
      | inl no_one ↦ inl (ap (λ w. w.waiters) same ∙ no_one)
      | inr seen ↦ inr (omega (arith, seen, busy, taken))
    ];
  }
  round-Inv b n t task exchanged false sem s v busy valid (same, inl (empty, waits)) = record {
    free = v.free;
    valid = valid;
    counted = v.counted ∙ omega (arith, same);
    in_order = v.in_order;
    none_missed = v.none_missed;
    asleep = rw empty (
        omega (
          arith,
          v.asleep,
          ap length waits.1,
          length-append b.box.available.wait_queue.waiters (t ∷ []),
        ));
    noticed = inr (omega (arith, same, empty));
  }
  round-Inv b n t task exchanged false sem s v busy valid (_, inr (_, permit, same, _)) =
      let some_left : (count_of b == 0) ≡ false = ground (arith, permit) in
      record {
        free = v.free;
        valid = valid;
        counted = v.counted ∙ ap (λ x. x.count + b.adding + b.popping) (sym same);
        in_order = v.in_order;
        none_missed = v.none_missed;
        asleep = rw some_left (v.asleep ∙ ap (λ x. length x.wait_queue.waiters) (sym same));
        noticed = elim v.noticed [
          | inl no_one ↦ inl (ap (λ x. x.wait_queue.waiters) same ∙ no_one)
          | inr seen ↦ inr (rw some_left (omega (arith, seen, busy, ap (λ x. x.count) same)))
        ];
      }
