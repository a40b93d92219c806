-- ===== src/Process/Scheduler.antt =====
-- `Scheduler` of src/process/process.rs, over a run queue with `rbtree_insert`, `rbtree_remove` and
-- `rbtree_pick_eevdf` of src/rbtree.c, and the times of a `Thread`.
pub mod Clock
pub mod Queue
pub mod Reap
pub mod Schedule
pub mod Bury
pub mod Charge
pub mod Settle
pub mod Dispatch
pub mod Tick
pub mod Exit
pub mod Add
pub mod Valid
pub mod Wake
pub mod WakeAll
unfoldable pub use Clock.*
unfoldable pub use Queue.*
unfoldable pub use Reap.*
unfoldable pub use Schedule.*
