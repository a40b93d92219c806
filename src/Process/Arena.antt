-- ===== src/Process/Arena.antt =====
-- src/process/process.rs: `ThreadArena`, a vector of slots whose empty ones are linked by index.
-- A thread is a value of any type `T`; the box it lies in is not modelled.
pub mod Free
pub mod Live
pub mod Put
mod Tests
use kernel_r.Prelude.{
  ℕ, Option, none, some, List, [], ◌∷◌, ◌++◌, length, get_elem?, set, Run, ok, panic, Bool, ◌==◌,
  leb, if◌then◌else◌,
}

pub data ThreadSlot {ℓ} (T : Type ℓ) : Type ℓ where
  empty : Option ℕ → ThreadSlot T
  occupied : T → ThreadSlot T

pub record ThreadArena {ℓ} (T : Type ℓ) : Type ℓ where
  pub slots : List (ThreadSlot T)
  pub free_head : Option ℕ

unfoldable pub new {ℓ} : {T : Type ℓ} → ThreadArena T
new = record { slots = []; free_head = none }

unfoldable pub is_empty {ℓ} : {T : Type ℓ} → ThreadArena T → Bool
is_empty a = length a.slots == 0

-- The fast path of `insert`, by what `self.slots[idx]` is: out of range and an occupied slot panic.
abbrev pub insert_at {ℓ} :
    {T : Type ℓ} → ThreadArena T → T → ℕ → Option (ThreadSlot T) → Run (ℕ × ThreadArena T)
insert_at a task idx (some (empty next_free)) =
    ok (idx, record a { slots = set a.slots idx (occupied task); free_head = next_free })
insert_at a task idx (some (occupied _)) = panic
insert_at a task idx none = panic

abbrev pub insert_by {ℓ} : {T : Type ℓ} → ThreadArena T → T → Option ℕ → Run (ℕ × ThreadArena T)
insert_by a task (some idx) = insert_at a task idx (get_elem? a.slots idx)
insert_by a task none = ok (length a.slots, record a { slots = a.slots ++ (occupied task ∷ []) })

unfoldable pub insert {ℓ} : {T : Type ℓ} → ThreadArena T → T → Run (ℕ × ThreadArena T)
insert a task = insert_by a task a.free_head

-- The `match slot` of `remove`, on the slot that was swapped out for `Empty`. An empty one is
-- written back.
abbrev pub remove_slot {ℓ} :
    {T : Type ℓ} → ThreadArena T → ℕ → Option (ThreadSlot T) → Run (Option T × ThreadArena T)
remove_slot a pid (some (occupied task)) =
    ok (some task, record a { slots = set a.slots pid (empty a.free_head); free_head = some pid })
remove_slot a pid (some (empty next)) =
    ok (none, record a { slots = set (set a.slots pid (empty a.free_head)) pid (empty next) })
remove_slot a pid none = panic

unfoldable pub remove {ℓ} : {T : Type ℓ} → ThreadArena T → ℕ → Run (Option T × ThreadArena T)
remove a pid =
    if leb (length a.slots) pid then ok (none, a) else remove_slot a pid (get_elem? a.slots pid)

abbrev pub task_of {ℓ} : {T : Type ℓ} → Option (ThreadSlot T) → Option T
task_of (some (occupied task)) = some task
task_of (some (empty next)) = none
task_of none = none

-- `get`, and the thread that `get_mut` lends.
unfoldable pub get {ℓ} : {T : Type ℓ} → ThreadArena T → ℕ → Option T
get a pid = task_of (get_elem? a.slots pid)

-- The thread that `get_mut` lent, put back.
abbrev pub put {ℓ} : {T : Type ℓ} → ThreadArena T → ℕ → T → ThreadArena T
put a t task = record a { slots = set a.slots t (occupied task) }
