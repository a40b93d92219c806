-- ===== src/Lib.antt =====
-- A verification library for the kernel in this repository (Rust, src/): the parts of it that
-- keep data structures, translated into functions and proved correct. The kernel boots, takes
-- the free physical memory that the boot loader reports into a buddy allocator, serves its heap
-- from that and from slabs, and runs threads and user processes over a scheduler; interrupt
-- handlers hand data to threads through ring buffers and mailboxes; programs are read from an
-- archive in memory.
--
-- Prelude holds what the other files share. Rust that may panic is a Run: ok with a value, or
-- panic. The build is of the dev profile (build.sh runs plain cargo build), so the sums,
-- differences and products of usize and u64 panic when they overflow, and shifts panic when the
-- width is too large; add_u64 and its kin write that out. Pointers are addresses, and null is
-- 0. Memory is a function from addresses, to free blocks, to pointers or to bytes as a
-- component uses it.
--
-- Mm/Align is align_to of src/mm/allocator.rs. Mm/Buddy is BuddyAllocator of src/mm/buddy.rs,
-- one function for each method of that name, with the loops of alloc, toggle_bit and free as
-- split, search_up, offset_loop and free_loop; their number of rounds is the number of orders
-- left, so they need no fuel. Mm/Buddy/Chain is about the doubly-linked lists, Place and Bits
-- about the bitmap, Cover about the bytes that are free, Repr, Push and Remove about what a
-- state stands for, Valid, Keep and Give about the invariant, and Split, Alloc, Merge, Free and
-- RoundTrip about the operations. A Region is managed memory in whole units of 8 MiB, aligned
-- to that, whose bits lie apart in the bitmap (IsManaged.room): the bitmap has to have two bits
-- for each pair of pages, which is more than calculate_bitmap_size provides when the memory
-- reaches past half of the addresses that it was computed for.
--
-- Mm/Memory is src/mm/memory.rs: Reserved is about the table of reserved regions, Search and
-- Bump about the bump allocator, whose search has a round for each page below the end of the
-- region, which is enough since a round that goes on moves up by a page or more, and Frames
-- about the frames of the buddy allocator.
--
-- Mm/Order is size_to_order of src/mm/buddy.rs. Mm/Slab is SlabAllocator of src/mm/slab.rs, and
-- Mm/Heap is HeapAllocator of src/mm/allocator.rs, which uses both allocators; its lock is not
-- modelled.
--
-- Sync/Blocking is src/sync/sync.rs: a round of acquire or lock ends with the permit, or with
-- the thread blocked and in the queue, and the loop around it goes on when the thread runs
-- again. On the one processor that the kernel uses, with interrupts disabled, a round is one
-- step. Sync/Mailbox is src/sync/ipc.rs, as functions; its Traffic is the parts of send and
-- receive as the steps of any number of threads, which call the functions of Sync/Blocking and
-- between which the scheduler may do anything else, and Invariant, Kept and Reach are about the
-- states that they lead to.
--
-- Process/Arena is ThreadArena of src/process/process.rs, for threads of any type.
-- Process/State and Process/Scheduler are the threads, the processes and Scheduler of the same
-- file, with WaitQueue of src/sync/sync.rs: Clock has the times of a thread, Queue the run
-- queue with add_task and wake_task, Reap and Schedule the functions of those names, cut where
-- the code branches. The red-black tree (src/rbtree.c) is a RunQueue: a type with insertion,
-- removal and the pick, whose laws hold for a node that is not in the tree or is in it. A null
-- node that is written through is a panic. What the scheduler writes outside its state (CR3,
-- stacks, bounds, page tables to destroy) is kept in Cpu. Valid states the invariant; Wake,
-- WakeAll, Bury, Charge, Settle, Dispatch, Tick, Exit and Add show that each operation keeps
-- it. Process/Spawn is Thread::new, spawn and the end of spawn_user_process. Process/Files is
-- open and close of src/process/syscall.rs, with a store of open files by handle, and
-- Process/Family is exit and wait of the same file. Fs/Tar is src/fs/tar.rs, with DirEntry of
-- src/fs/vfs.rs; parse_tarball reads until it finds a zero byte, and the fuel of its model is
-- enough when it is more than the number of files.
--
-- Drivers/Screen is the Writer of src/drivers/vga_buffer.rs; its loops are recursions on the
-- number of rows or columns left. The Tests modules have the concrete runs and an instance of
-- each theorem. The red-black tree is in C and the ELF reader is a library, so that both are
-- outside of the model. The system calls other than open, close, exit and wait, the page
-- tables, init_physical_memory and the other drivers are not modelled.
pub mod Prelude
pub mod Mm
pub mod Sync
pub mod Process
pub mod Fs
pub mod Drivers
