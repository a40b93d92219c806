-- ===== src/Sync/Mailbox/Reach.antt =====
-- Senders and receivers in any order: every message arrives, once and in order, and no receiver
-- sleeps while a message waits.
use kernel_r.Prelude.{ℕ, ◌+◌, ◌<◌, ◌≡◌, Option, List, ◌++◌, ok, word, length}
use kernel_r.Process.State.{Scheduler, WaitQueue}
use kernel_r.Process.Scheduler.{RunQueue}
use kernel_r.Process.Scheduler.Tick.{IsScheduler}
use kernel_r.Sync.Blocking.{wake_one}
use kernel_r.Sync.Blocking.Rounds.{wake_one-FirstWoken}
use kernel_r.Sync.Mailbox.Traffic.{Traffic, Reachable}
use kernel_r.Sync.Mailbox.Kept.{Reachable-Inv}

module _ {Q : Type 0} (queue : RunQueue Q) (idle : ℕ) {T : Type 0} where
  -- In every reachable state, with fewer than 2 ^ 64 messages sent: the messages received, followed
  -- by those of the queue, are the messages sent, in order; no receive that acquired a permit found
  -- the queue empty; the queue has as many messages as there are permits and calls between the queue
  -- and the count; the receives that sleep are those of the wait queue; and the scheduler's invariant
  -- holds, with which the next wake_one does not panic.
  pub Reachable-Delivered :
      (b : Traffic Q T)
      → Reachable queue idle b
      → length b.sent < word
      → (b.received ++ b.box.queue ≡ b.sent)
        × (b.missed ≡ 0)
        × (length b.box.queue ≡ b.box.available.count + b.adding + b.popping)
        × (b.sleeping ≡ length b.box.available.wait_queue.waiters)
        × ((free : List ℕ) × IsScheduler queue b.sched idle free)
        × ((id : Option ℕ) × (w : WaitQueue) × (s : Scheduler Q) × (wake_one queue
                b.box.available.wait_queue b.sched
              ≡ ok (id, w, s)))
  Reachable-Delivered b r few =
      let v = Reachable-Inv queue idle r few in
      let (id, w, s, run, _, _) =
        wake_one-FirstWoken queue b.box.available.wait_queue b.sched idle v.valid in
      (v.in_order, v.none_missed, v.counted, v.asleep, (v.free, v.valid), (id, w, s, run))
