-- ===== src/Scheduler.antt =====
-- The scheduler of a processor: kernel/hardware/devices/cpu/scheduler.c.
pub mod Linked
pub mod Threads
pub mod Kernel
pub mod Processes
pub mod Tids
pub mod Create
pub mod User
pub mod Interrupt
pub mod Flags
