-- ===== src/Process.antt =====
-- src/process: the arena of threads, the state of threads and processes, the scheduler,
-- and new threads and processes.
pub mod Arena
pub mod State
pub mod Scheduler
pub mod Spawn
pub mod Files
pub mod Family
pub mod Tests
