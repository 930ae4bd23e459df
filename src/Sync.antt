-- ===== src/Sync.antt =====
-- sem08-pthread-sync/snippets: threads that share memory, as schedules of steps.
pub mod Litmus
pub mod Deadlock
pub mod Counter
pub mod Racing
pub mod StoreBuffer
pub mod Condvar
pub mod LockFree
