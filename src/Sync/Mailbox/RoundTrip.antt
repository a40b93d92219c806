-- ===== src/Sync/Mailbox/RoundTrip.antt =====
-- A message that was sent can be received.
use kernel_r.Prelude.{
  ℕ, ◌+◌, ◌-◌, ◌<◌, ◌≡◌, refl, ◌∙◌, ok, some, List, [], ◌∷◌, ◌++◌, true, length, length-append,
  lt→ltb, word, arith,
}
use kernel_r.Process.State.{Scheduler}
use kernel_r.Process.Scheduler.{RunQueue}
use kernel_r.Process.Scheduler.Tick.{IsScheduler}
use kernel_r.Sync.Blocking.{Semaphore, acquire_round}
use kernel_r.Sync.Blocking.Locks.{release-FirstWoken}
use kernel_r.Sync.Mailbox.{Mailbox, send, receive_round}

module _ {Q : Type 0} (queue : RunQueue Q) {T : Type 0} where
  -- A receive that finds a permit and a message takes both.
  abbrev pub Receives : Mailbox T → List T → Scheduler Q → Type 0
  Receives m messages s =
      (x : T) × (rest : List T) × (m' : Mailbox T) × (messages ≡ x ∷ rest)
      × (receive_round true m s ≡ ok (some (some x), m', s))
      × (m'.queue ≡ rest)
      × (length m'.queue ≡ m'.available.count)

  receive_round-Receives :
      (m : Mailbox T) (messages : List T) (s : Scheduler Q) (n : ℕ)
      → m.queue ≡ messages
      → length messages ≡ m.available.count
      → m.available.count ≡ n + 1
      → Receives m messages s
  unfolding receive_round acquire_round
  receive_round-Receives m [] s n e counted some_there = absurd (omega (arith, counted, some_there))
  receive_round-Receives m (x ∷ rest) s n e counted some_there =
      let permit = lt→ltb 0 m.available.count (omega (arith, some_there)) in
      let sem : Semaphore = record m.available { count = m.available.count - 1 } in
      (
        x,
        rest,
        record m { available = sem; queue = rest },
        refl,
        rw (permit, e) refl,
        refl,
        omega (arith, counted, some_there),
      )

  -- On a mailbox with a permit for each message send does not panic and keeps the scheduler's
  -- invariant, the message goes to the end of the queue, and a round of receive whose exchange
  -- succeeds then returns the first message of the queue and leaves a permit for each of the rest.
  pub receive_round-send :
      (m : Mailbox T) (message : T) (s s₂ : Scheduler Q) (idle : ℕ) {free : List ℕ}
      → IsScheduler queue s idle free
      → length m.queue ≡ m.available.count
      → m.available.count + 1 < word
      → (m' : Mailbox T) × (s' : Scheduler Q) × (send queue m message s ≡ ok (m', s'))
        × IsScheduler queue s' idle free
        × (m'.queue ≡ m.queue ++ (message ∷ []))
        × Receives m' (m.queue ++ (message ∷ [])) s₂
  unfolding send
  receive_round-send m message s s₂ idle v counted room =
      let (sem, s', run, v', count, woken) = release-FirstWoken queue m.available s idle v room in
      let m' : Mailbox T = record m { queue = m.queue ++ (message ∷ []); available = sem } in
      (
        m',
        s',
        rw run refl,
        v',
        refl,
        receive_round-Receives m' (m.queue ++ (message ∷ [])) s₂ m.available.count refl
            (length-append m.queue (message ∷ []) ∙ omega (arith, counted, count)) count,
      )
