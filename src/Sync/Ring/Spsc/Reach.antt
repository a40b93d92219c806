-- ===== src/Sync/Ring/Spsc/Reach.antt =====
-- Every state that the two sides can reach by their steps, in any order.
use native.Mathlib.Nat.{zero-mod}
use kernel_r.Prelude.{
  ℕ, ◌+◌, ◌≤◌, ◌<◌, ◌≡◌, refl, sym, ◌∙◌, ap, subst, some, List, map, take, length, Run, ok, panic,
  word, arith,
}
use kernel_r.Sync.Ring.{RingBuffer, new}
use kernel_r.Sync.Ring.Spsc.{
  Producer, Consumer, idle, producer_step, consumer_step, Shared, start, Step, call_push, call_pop,
  produce, consume, commit, deliver, Reachable, at_start, after,
}
use kernel_r.Sync.Ring.Spsc.Invariant.{
  ConsumerKnows, Inv, with_producer, with_consumer, produce-Inv, consume-Inv, producer_called,
  producer_quiet, consumer_idle, consumer_called,
}

result_or {ℓ} : {A : Type ℓ} → A → Run A → A
result_or d (ok a) = a
result_or d panic = d

ok-injective {ℓ} : {A : Type ℓ} (a b : A) → ok a ≡ ok b → a ≡ b
unfolding result_or
ok-injective a b e = ap (result_or a) e

module _ {ℓ} {A : Type ℓ} (N : ℕ) (pos : 0 < N) (small : N < word) where
  start-Inv : Inv N (start {A = A})
  unfolding new start
  start-Inv = record {
    taken = 0;
    from = 0;
    le = omega arith;
    room = omega (arith, pos);
    head_at = sym (zero-mod N);
    tail_at = sym (zero-mod N);
    slots = λ k a lt. elim lt [ ];
    order = refl;
    producer_knows = producer_quiet;
    consumer_knows = consumer_idle refl;
  }

  idle_from : {sent : List A} {c from : ℕ} → ConsumerKnows N sent c from idle → from ≡ c
  idle_from (consumer_idle f) = f

  Step-Inv : (s s' : Shared A) → Inv N s → Step N s s' → Inv N s'
  Step-Inv s s' i (call_push _ item e) = with_producer N pos small s i _ producer_called
  Step-Inv s s' i (call_pop _ e) = with_consumer N pos small s i _ (
      consumer_called
        (idle_from (subst (ConsumerKnows N s.sent i.taken i.from) e i.consumer_knows)))
  Step-Inv s s' i (produce _ p r e) =
      let (p', r', e', i') = produce-Inv N pos small s i s.producer i.producer_knows in
      subst (λ x. Inv N (record s { producer = x.0; ring = x.1; sent = commit s.producer s.sent }))
        (ok-injective _ _ (sym e' ∙ e)) i'
  Step-Inv s s' i (consume _ c r e) =
      let (c', r', e', i') = consume-Inv N pos small s i s.consumer i.consumer_knows in
      subst
        (λ x.
          Inv N (record s { consumer = x.0; ring = x.1; received = deliver s.consumer s.received }))
        (ok-injective _ _ (sym e' ∙ e)) i'

  pub Reachable-Inv : (s : Shared A) → Reachable N s → Inv N s
  Reachable-Inv s at_start = start-Inv
  Reachable-Inv s (after t _ reach step) = Step-Inv t s (Reachable-Inv t reach) step

  -- However the steps of the two sides interleave, what `pop` has returned is, in order, what
  -- `push` has accepted, less fewer than `N` items that are still in the ring: none is lost,
  -- doubled or overwritten. Neither side panics at its next step.
  pub Reachable-fifo :
      (s : Shared A)
      → Reachable N s
      → (taken : ℕ) × (s.received ≡ map some (take taken s.sent))
        × (taken ≤ length s.sent)
        × (length s.sent < taken + N)
        × ((p : Producer A) × (r : RingBuffer A) × (producer_step N s.producer s.ring ≡ ok (p, r)))
        × ((c : Consumer A) × (r : RingBuffer A) × (consumer_step N s.consumer s.ring ≡ ok (c, r)))
  Reachable-fifo s reach =
      let i = Reachable-Inv s reach in
      let (p, r, e, _) = produce-Inv N pos small s i s.producer i.producer_knows in
      let (c, r', e', _) = consume-Inv N pos small s i s.consumer i.consumer_knows in
      (i.taken, i.order, i.le, i.room, (p, r, e), (c, r', e'))
