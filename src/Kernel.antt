-- ===== src/Kernel.antt =====
-- kernel/: memory, traps and the console.
pub mod Machine
pub mod Frames
pub mod Paging
pub mod Malloc
pub mod Memory
pub mod Console
pub mod Trap
