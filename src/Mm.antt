-- ===== src/Mm.antt =====
-- Memory management: src/mm.
pub mod Align
pub mod Buddy
pub mod Slab
pub mod Order
pub mod Heap
pub mod Memory
