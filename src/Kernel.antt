-- ===== src/Kernel.antt =====
-- libs/kernel: the objects that threads wait for, the handles to them, the threads, and the
-- guest's heaps.
pub mod Sync
pub mod Handles
pub mod Threads
pub mod Heap
