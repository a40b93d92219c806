-- ===== src/Sync/Mailbox.antt =====
-- `Mailbox` of src/sync/ipc.rs: a queue of messages and a semaphore that counts them. The parts of
-- `send` and `receive` between which another thread can run are steps of their own: the push of a
-- message, the addition and the waking of `release`, a round of `acquire`, and the removal of the
-- message. The lock of the queue makes the push and the removal one step each.
pub mod Traffic
pub mod Invariant
pub mod Kept
pub mod Reach
pub mod RoundTrip
mod Tests
use kernel_r.Prelude.{
  ℕ, suc, ◌+◌, ◌<◌, ◌≡◌, Option, none, some, List, [], ◌∷◌, ◌++◌, Run, ok, ◌>>=◌, Bool, true, false,
}
use kernel_r.Process.State.{Scheduler, WaitQueue, new_queue}
use kernel_r.Process.Scheduler.{RunQueue}
use kernel_r.Sync.Blocking.{Semaphore, new_semaphore, acquire_round, release}

pub record Mailbox (T : Type 0) : Type 0 where
  pub queue : List T
  pub available : Semaphore

unfoldable pub new_mailbox : {T : Type 0} → Mailbox T
new_mailbox = record { queue = []; available = new_semaphore 0 }

abbrev pub push_message : {T : Type 0} → Mailbox T → T → Mailbox T
push_message m message = record m { queue = m.queue ++ (message ∷ []) }

-- `pop_front`, by what the queue is.
abbrev pub pop_from : {T : Type 0} → List T → Mailbox T → Option T × Mailbox T
pop_from [] m = (none, m)
pop_from (x ∷ rest) m = (some x, record m { queue = rest })

abbrev pub pop_message : {T : Type 0} → Mailbox T → Option T × Mailbox T
pop_message m = pop_from m.queue m

module _ {Q T : Type 0} where
  unfoldable pub send : RunQueue Q → Mailbox T → T → Scheduler Q → Run (Mailbox T × Scheduler Q)
  send queue m message s = do
    let pushed = push_message m message
    (sem, woken) ← release queue pushed.available s
    ok (record pushed { available = sem }, woken)

  abbrev pub receive_after :
      Bool → Mailbox T → Semaphore → Scheduler Q → Option (Option T) × Mailbox T × Scheduler Q
  receive_after true m sem s =
      let (message, left) = pop_message (record m { available = sem }) in (some message, left, s)
  receive_after false m sem s = (none, record m { available = sem }, s)

  -- A round of `receive`: none when the thread has to wait, or what it returns.
  unfoldable pub receive_round :
      Bool → Mailbox T → Scheduler Q → Run (Option (Option T) × Mailbox T × Scheduler Q)
  receive_round exchanged m s = do
    (done, sem, after) ← acquire_round exchanged m.available s
    ok (receive_after done m sem after)
