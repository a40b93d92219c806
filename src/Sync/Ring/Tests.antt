-- ===== src/Sync/Ring/Tests.antt =====
-- The ring with four slots on concrete runs.
use kernel_r.Prelude.{
  ℕ, zero, ◌+◌, ◌≤◌, ◌<◌, ◌≡◌, refl, Option, none, some, [], ◌∷◌, map, take, get_elem?, ◌⊎◌, inl,
  inr, Run, ok, ◌>>=◌, arith, add_u64, store,
}
use kernel_r.Sync.Ring.{RingBuffer, new, push, pop, next_index}
use kernel_r.Sync.Ring.Queue.{Holds, push-Holds, pop-Holds}
use kernel_r.Sync.Ring.Spsc.{
  Producer, Consumer, pushing, producer_step, consumer_step, Shared, start, Reachable, at_start,
  after, call_push, produce,
}
use kernel_r.Sync.Ring.Spsc.Reach.{Reachable-fifo}

abbrev seven : ℕ
seven = 7

new-Holds : Holds 4 (new {A = ℕ}) [] 0
unfolding new
new-Holds = record {
  le = omega arith;
  room = omega arith;
  head_at = refl;
  tail_at = refl;
  slots = λ k le lt. elim lt [ ];
}

push-Holds_example :
    (0 + 1 < 0 + 4
      → (r' : RingBuffer ℕ) × (push 4 new seven ≡ ok (inl tt, r')) × Holds 4 r' (seven ∷ []) 0)
    × (zero + 1 ≡ 0 + 4 → push 4 new seven ≡ ok (inr seven, new))
push-Holds_example = push-Holds 4 seven (omega arith) (omega arith) new-Holds

abbrev one_item :
    (r' : RingBuffer ℕ) × (push 4 new seven ≡ ok (inl tt, r')) × Holds 4 r' (seven ∷ []) 0
one_item = (push-Holds 4 seven (omega arith) (omega arith) new-Holds).0 (omega arith)

pop-Holds_example :
    (zero < 1
      → (item : ℕ) × (r' : RingBuffer ℕ) × (pop 4 one_item.0 ≡ ok (some item, r'))
        × (get_elem? (seven ∷ []) 0 ≡ some item)
        × Holds 4 r' (seven ∷ []) 1)
    × (zero ≡ 1 → pop 4 one_item.0 ≡ ok (none, one_item.0))
pop-Holds_example = pop-Holds 4 (omega arith) (omega arith) one_item.2

-- A whole `push` of 7, step by step.
abbrev s0 : Shared ℕ
s0 = record { ring = new; producer = pushing 7; consumer = Consumer.idle; sent = []; received = [] }

abbrev s1 : Shared ℕ
s1 = record s0 { producer = Producer.push_head 7 0 }

abbrev s2 : Shared ℕ
s2 = record s0 { producer = Producer.push_both 7 0 0 }

abbrev slots : ℕ → Option ℕ
slots = store (λ i. none) 0 (some seven)

abbrev s3 : Shared ℕ
s3 = record s0 {
  producer = Producer.push_stored 7 1;
  ring = record { buffer = slots; head = 0; tail = 0 };
}

abbrev s4 : Shared ℕ
s4 = record s0 {
  producer = Producer.quiet;
  ring = record { buffer = slots; head = 1; tail = 0 };
  sent = seven ∷ [];
}

s4-Reachable : Reachable 4 s4
unfolding start new producer_step next_index add_u64
s4-Reachable =
    after s3 s4
      (after s2 s3
        (after s1 s2
          (after s0 s1 (after start s0 at_start (call_push start 7 refl))
            (produce s0 s1.producer s1.ring refl))
          (produce s1 s2.producer s2.ring refl))
        (produce s2 s3.producer s3.ring refl))
      (produce s3 s4.producer s4.ring refl)

Reachable-fifo_example :
    (taken : ℕ) × ([] ≡ map {A = ℕ} some (take taken (seven ∷ [])))
    × (taken ≤ 1)
    × (1 < taken + 4)
    × ((p : Producer ℕ) × (r : RingBuffer ℕ) × (producer_step 4 s4.producer s4.ring ≡ ok (p, r)))
    × ((c : Consumer ℕ) × (r : RingBuffer ℕ) × (consumer_step 4 s4.consumer s4.ring ≡ ok (c, r)))
Reachable-fifo_example = Reachable-fifo 4 (omega arith) (omega arith) s4 s4-Reachable

-- Three items fit, the fourth comes back.
fill : Run (Unit {0} ⊎ ℕ)
fill = do
  (_, r1) ← push 4 new 1
  (_, r2) ← push 4 r1 2
  (_, r3) ← push 4 r2 3
  (answer, _) ← push 4 r3 4
  ok answer

fill_full : fill ≡ ok (inr 4)
unfolding fill push new next_index add_u64
fill_full = refl
