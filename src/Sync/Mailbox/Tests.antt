-- ===== src/Sync/Mailbox/Tests.antt =====
-- An instance of each theorem: one message is sent and received.
use kernel_r.Prelude.{ℕ, ◌+◌, ◌≡◌, refl, ok, Option, none, List, [], ◌∷◌, ◌++◌, true, length, arith}
use kernel_r.Process.Arena.{put}
use kernel_r.Process.State.{Scheduler, SchedNode, WaitQueue, new_queue, ready, blocked}
use kernel_r.Process.Scheduler.Tick.{IsScheduler}
use kernel_r.Process.Tests.Five.{queue, five, five_three, thread, five-IsScheduler}
use kernel_r.Sync.Blocking.{new_semaphore, wake_one, acquire_round}
use kernel_r.Sync.Blocking.Rounds.{Runs}
use kernel_r.Sync.Mailbox.{Mailbox, new_mailbox, send}
use kernel_r.Sync.Mailbox.Traffic.{
  Traffic, quiet, push, add, wake, arrive, round, pop, Reachable, start, next,
}
use kernel_r.Sync.Mailbox.Reach.{Reachable-Delivered}
use kernel_r.Sync.Mailbox.RoundTrip.{Receives, receive_round-send}

-- The mailbox between two threads of the scheduler `five`, with idle thread 0.
abbrev Box : Type 0
Box = Traffic (List SchedNode) ℕ

abbrev empty_box : Box
empty_box = record {
  box = record { queue = []; available = record { wait_queue = new_queue; count = 0 } };
  sched = five;
  adding = 0;
  waking = 0;
  trying = 0;
  sleeping = 0;
  popping = 0;
  sent = [];
  received = [];
  missed = 0;
}

empty_box-Reachable : Reachable queue 0 empty_box
unfolding quiet new_mailbox new_semaphore
empty_box-Reachable = start five [] five-IsScheduler

three-Runs : Runs five 0 3 (thread 3 ready (4 ∷ []))
three-Runs = record { current = refl; thread = five_three; live = refl; other = omega arith }

-- A message is sent and received.
abbrev delivered : Box
delivered = record empty_box { sent = 5 ∷ []; received = 5 ∷ [] }

delivered-Reachable : Reachable queue 0 delivered
unfolding acquire_round wake_one
delivered-Reachable =
    let sent = next (next empty_box-Reachable (push _ 5)) (add _ 0 refl) in
    let trying = next (next sent (wake _ 0 none new_queue five refl refl)) (arrive _) in
    let taken = next trying (
      round _ 0 3 (thread 3 ready (4 ∷ [])) true true (record { wait_queue = new_queue; count = 0 })
        five refl three-Runs refl) in
    next taken (pop _ 0 refl)

Reachable-Delivered_example :
    (delivered.received ++ delivered.box.queue ≡ delivered.sent)
    × (delivered.missed ≡ 0)
    × (length delivered.box.queue
        ≡ delivered.box.available.count + delivered.adding + delivered.popping)
    × (delivered.sleeping ≡ length delivered.box.available.wait_queue.waiters)
    × ((free : List ℕ) × IsScheduler queue delivered.sched 0 free)
    × ((id : Option ℕ) × (w : WaitQueue) × (s : Scheduler (List SchedNode)) × (wake_one queue
            delivered.box.available.wait_queue delivered.sched
          ≡ ok (id, w, s)))
Reachable-Delivered_example =
    Reachable-Delivered queue 0 delivered delivered-Reachable (omega arith)

-- Thread 3 waits for a message that was not sent yet.
abbrev three_blocked : Scheduler (List SchedNode)
three_blocked = record five {
  tasks = put five.tasks 3 (record (thread 3 ready (4 ∷ [])) { state = blocked });
}

abbrev waiting : Box
waiting = record empty_box {
  box = record empty_box.box {
    available = record { wait_queue = record { waiters = 3 ∷ [] }; count = 0 };
  };
  sched = three_blocked;
  sleeping = 1;
}

receive_round-send_example :
    (m' : Mailbox ℕ) × (s' : Scheduler (List SchedNode)) × (send queue new_mailbox 5 five
      ≡ ok (m', s'))
    × IsScheduler queue s' 0 []
    × (m'.queue ≡ new_mailbox.queue ++ (5 ∷ []))
    × Receives queue m' (new_mailbox.queue ++ (5 ∷ [])) five
unfolding new_mailbox new_semaphore
receive_round-send_example =
    receive_round-send queue new_mailbox 5 five five 0 five-IsScheduler refl (omega arith)
