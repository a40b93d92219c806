-- ===== src/Sync.antt =====
-- src/sync: the ring buffer, the blocking primitives and the mailbox.
pub mod Ring
pub mod Blocking
pub mod Mailbox
