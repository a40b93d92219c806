-- ===== src/Sync/Mailbox/Traffic.antt =====
-- `send` and `receive` of src/sync/ipc.rs by several threads at once: the parts between which
-- another thread can run, in any order. A send is the push of the message, the fetch_add of `release`
-- and its wake_one; a receive is rounds of `acquire` and then the removal of the message. A thread
-- that sleeps goes round again when a wake_one takes it off the queue.
use kernel_r.Prelude.{
  ℕ, suc, ◌+◌, ◌-◌, ◌≡◌, Option, none, some, List, [], ◌∷◌, ◌++◌, Bool, true, false, ◌==◌, ok,
  if◌then◌else◌,
}
use kernel_r.Process.State.{Thread, Scheduler, WaitQueue}
use kernel_r.Process.Scheduler.{RunQueue}
use kernel_r.Process.Scheduler.Tick.{IsScheduler}
use kernel_r.Sync.Blocking.{Semaphore, new_semaphore, release_add, wake_one, acquire_round}
use kernel_r.Sync.Blocking.Rounds.{Runs}
use kernel_r.Sync.Mailbox.{Mailbox, new_mailbox, push_message, pop_message}

-- A mailbox in use: how many sends stand before their fetch_add and before their wake_one, how many
-- receives are between two rounds, asleep, and before the removal, what was sent and received, and
-- how many receives found no message.
pub record Traffic (Q T : Type 0) : Type 0 where
  pub box : Mailbox T
  pub sched : Scheduler Q
  pub adding : ℕ
  pub waking : ℕ
  pub trying : ℕ
  pub sleeping : ℕ
  pub popping : ℕ
  pub sent : List T
  pub received : List T
  pub missed : ℕ

unfoldable pub quiet : {Q T : Type 0} → Scheduler Q → Traffic Q T
unfolding new_mailbox new_semaphore
quiet s = record {
  box = new_mailbox;
  sched = s;
  adding = 0;
  waking = 0;
  trying = 0;
  sleeping = 0;
  popping = 0;
  sent = [];
  received = [];
  missed = 0;
}

abbrev pub woken_by : Option ℕ → ℕ
woken_by none = 0
woken_by (some id) = 1

module _ {Q T : Type 0} where
  -- self.queue.lock().push_back(message)
  abbrev pub after_push : Traffic Q T → T → Traffic Q T
  after_push b x = record b {
    box = push_message b.box x;
    adding = b.adding + 1;
    sent = b.sent ++ (x ∷ []);
  }

  -- self.count.fetch_add(1)
  abbrev pub after_add : Traffic Q T → ℕ → Traffic Q T
  after_add b n = record b {
    box = record b.box { available = release_add b.box.available };
    adding = n;
    waking = b.waking + 1;
  }

  -- self.wait_queue.wake_one()
  abbrev pub after_wake : Traffic Q T → ℕ → Option ℕ → WaitQueue → Scheduler Q → Traffic Q T
  after_wake b n id w s = record b {
    box = record b.box { available = record b.box.available { wait_queue = w } };
    sched = s;
    waking = n;
    trying = b.trying + woken_by id;
    sleeping = b.sleeping - woken_by id;
  }

  -- A round of self.available.acquire(): it returns; or it found no permit, and the thread sleeps; or
  -- the weak exchange failed, and the thread goes round again.
  abbrev pub after_round : Traffic Q T → ℕ → Bool → Semaphore → Scheduler Q → Traffic Q T
  after_round b n true sem s = record b {
    box = record b.box { available = sem };
    sched = s;
    trying = n;
    popping = b.popping + 1;
  }
  after_round b n false sem s =
      let empty = b.box.available.count == 0 in
      record b {
        box = record b.box { available = sem };
        sched = s;
        trying = if empty then n else suc n;
        sleeping = if empty then b.sleeping + 1 else b.sleeping;
      }

  -- self.queue.lock().pop_front()
  abbrev pub after_pop : Traffic Q T → ℕ → Option T × Mailbox T → Traffic Q T
  after_pop b n (some x, box) = record b {
    box = box;
    popping = n;
    received = b.received ++ (x ∷ []);
  }
  after_pop b n (none, box) = record b { box = box; popping = n; missed = b.missed + 1 }

-- One step of one thread. `other` is all else that the scheduler does meanwhile.
module _ {Q : Type 0} (queue : RunQueue Q) (idle : ℕ) {T : Type 0} where
  pub data Step : Traffic Q T → Traffic Q T → Type 0 where
    push : (b : Traffic Q T) (x : T) → Step b (after_push b x)
    add : (b : Traffic Q T) (n : ℕ) → b.adding ≡ suc n → Step b (after_add b n)
    wake :
        (b : Traffic Q T) (n : ℕ) (id : Option ℕ) (w : WaitQueue) (s : Scheduler Q)
        → b.waking ≡ suc n
        → wake_one queue b.box.available.wait_queue b.sched ≡ ok (id, w, s)
        → Step b (after_wake b n id w s)
    arrive : (b : Traffic Q T) → Step b (record b { trying = b.trying + 1 })
    round :
        (b : Traffic Q T) (n t : ℕ) (task : Thread) (exchanged done : Bool) (sem : Semaphore)
        (s : Scheduler Q)
        → b.trying ≡ suc n
        → Runs b.sched idle t task
        → acquire_round exchanged b.box.available b.sched ≡ ok (done, sem, s)
        → Step b (after_round b n done sem s)
    pop : (b : Traffic Q T) (n : ℕ) → b.popping ≡ suc n → Step b (after_pop b n (pop_message b.box))
    other :
        (b : Traffic Q T) (s : Scheduler Q) (free : List ℕ)
        → IsScheduler queue s idle free
        → Step b (record b { sched = s })

  pub data Reachable : Traffic Q T → Type 0 where
    start : (s : Scheduler Q) (free : List ℕ) → IsScheduler queue s idle free → Reachable (quiet s)
    next : {b c : Traffic Q T} → Reachable b → Step b c → Reachable c
