-- ===== src/SpinLock.antt =====
-- `spin_lock` and `reentrant_spin_lock` (spinlock/spin_lock.h). Plain has the first, Reentrant the
-- second, Backoff the pauses that both make while they wait.
pub mod Backoff
pub mod Plain
pub mod Reentrant
