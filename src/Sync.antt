-- ===== src/Sync.antt =====
-- What the processors share, kernel/src/lib: the spin lock.
pub mod SpinLock
