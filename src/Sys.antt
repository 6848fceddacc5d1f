-- ===== src/Sys.antt =====
-- Threads, the scheduler, the processors and the order of start-up: kernel/src/sys,
-- kernel/src/arch/generic/smp.c and kernel/src/entry.c.
pub mod Thread
pub mod Scheduler
pub mod Processors
pub mod Boot
mod Tests
