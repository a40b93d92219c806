-- ===== src/Sync/Mailbox/Kept.antt =====
-- Each step of a sender, a receiver or the scheduler keeps the invariant.
use mathlib.Core.List.{append_assoc}
use kernel_r.Prelude.{
  ℕ, ◌≤◌, ◌<◌, ◌≡◌, refl, sym, ◌∙◌, ap, subst, inl, inr, List, [], ◌∷◌, ◌++◌, Bool, true, false,
  Run, ok, panic, word, arith, length, length-append,
}
use kernel_r.Process.State.{Scheduler}
use kernel_r.Process.Scheduler.{RunQueue}
use kernel_r.Process.Scheduler.Tick.{IsScheduler}
use kernel_r.Sync.Blocking.{Semaphore, new_semaphore}
use kernel_r.Sync.Blocking.Rounds.{FirstWoken, wake_one-FirstWoken}
use kernel_r.Sync.Blocking.Locks.{Acquired, acquire_round-Acquired}
use kernel_r.Sync.Mailbox.{new_mailbox, pop_from}
use kernel_r.Sync.Mailbox.Traffic.{
  Traffic, quiet, after_round, after_pop, Step, push, add, wake, arrive, round, pop, other,
  Reachable, start, next,
}
use kernel_r.Sync.Mailbox.Invariant.{Inv, waiters_of, pop-Inv, add-Inv, wake-Inv, round-Inv}

from_run {ℓ} : {A : Type ℓ} → A → Run A → A
from_run a (ok b) = b
from_run a panic = a

ok-injective {ℓ} : {A : Type ℓ} {a b : A} → ok a ≡ ok b → a ≡ b
unfolding from_run
ok-injective {a = a} e = ap (from_run a) e

module _ {Q : Type 0} (queue : RunQueue Q) (idle : ℕ) {T : Type 0} where
  -- A step keeps the invariant, as long as fewer than 2 ^ 64 messages were sent.
  step-Inv :
      {b c : Traffic Q T}
      → Inv queue idle b
      → length b.sent < word
      → Step queue idle b c
      → Inv queue idle c
  step-Inv v few (push b x) = record {
    free = v.free;
    valid = v.valid;
    counted = length-append b.box.queue (x ∷ []) ∙ omega (arith, v.counted);
    in_order =
        sym (append_assoc b.received b.box.queue (x ∷ [])) ∙ ap (λ l. l ++ (x ∷ [])) v.in_order;
    none_missed = v.none_missed;
    asleep = v.asleep;
    noticed = v.noticed;
  }
  step-Inv v few (add b n e) = add-Inv queue idle b n e few v
  step-Inv v few (wake b n id w s e run) =
      let (id', w', s', run', valid, woken) =
        wake_one-FirstWoken queue b.box.available.wait_queue b.sched idle v.valid in
      let (valid', woken') =
        subst
          (λ o.
            IsScheduler queue o.2 idle v.free
            × FirstWoken queue (waiters_of queue idle b) b.sched idle v.free o.0 o.1 o.2)
          (ok-injective (sym run' ∙ run)) (valid, woken) in
      wake-Inv queue idle b n (waiters_of queue idle b) id w s v refl e valid' woken'
  step-Inv v few (arrive b) = record {
    free = v.free;
    valid = v.valid;
    counted = v.counted;
    in_order = v.in_order;
    none_missed = v.none_missed;
    asleep = v.asleep;
    noticed = elim v.noticed [ inl no_one ↦ inl no_one | inr seen ↦ inr (omega (arith, seen)) ];
  }
  step-Inv v few (round b n t task exchanged done sem s e runs run) =
      let (done', sem', s', run', valid, acquired) =
        acquire_round-Acquired queue exchanged b.box.available b.sched idle t task v.valid runs in
      let (valid', acquired') =
        subst
          (λ o.
            IsScheduler queue o.2 idle v.free
            × Acquired queue exchanged b.box.available b.sched idle t task v.free o.0 o.1 o.2)
          (ok-injective (sym run' ∙ run)) (valid, acquired) in
      round-Inv queue idle b n t task exchanged done sem s v e valid' acquired'
  step-Inv v few (pop b n e) = pop-Inv queue idle b n b.box.queue refl e v
  step-Inv v few (other b s free valid) = record {
    free = free;
    valid = valid;
    counted = v.counted;
    in_order = v.in_order;
    none_missed = v.none_missed;
    asleep = v.asleep;
    noticed = v.noticed;
  }

  pop-sent :
      (b : Traffic Q T) (n : ℕ) (messages : List T)
      → length b.sent ≤ length (after_pop b n (pop_from messages b.box)).sent
  pop-sent b n [] = omega arith
  pop-sent b n (x ∷ rest) = omega arith

  round-sent :
      (b : Traffic Q T) (n : ℕ) (done : Bool) (sem : Semaphore) (s : Scheduler Q)
      → length b.sent ≤ length (after_round b n done sem s).sent
  round-sent b n true sem s = omega arith
  round-sent b n false sem s = omega arith

  step-sent : {b c : Traffic Q T} → Step queue idle b c → length b.sent ≤ length c.sent
  step-sent (push b x) = omega (arith, length-append b.sent (x ∷ []))
  step-sent (add b n e) = omega arith
  step-sent (wake b n id w s e run) = omega arith
  step-sent (arrive b) = omega arith
  step-sent (round b n t task exchanged done sem s e runs run) = round-sent b n done sem s
  step-sent (pop b n e) = pop-sent b n b.box.queue
  step-sent (other b s free valid) = omega arith

  few_before :
      {b c : Traffic Q T} → Step queue idle b c → length c.sent < word → length b.sent < word
  few_before st few = omega (arith, few, step-sent st)

  pub Reachable-Inv :
      {b : Traffic Q T} → Reachable queue idle b → length b.sent < word → Inv queue idle b
  unfolding quiet new_mailbox new_semaphore
  Reachable-Inv (start s free valid) few = record {
    free = free;
    valid = valid;
    counted = refl;
    in_order = refl;
    none_missed = refl;
    asleep = refl;
    noticed = inl refl;
  }
  Reachable-Inv (next r st) few =
      step-Inv (Reachable-Inv r (few_before st few)) (few_before st few) st
