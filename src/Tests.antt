-- ===== src/Tests.antt =====
-- Concrete kernels and inputs, runs of the models on them, and the theorems at such inputs.
pub mod Slow
pub mod Loopback
mod IoTests
mod EpollTests
mod NetTests
mod SyncTests
mod EncodingTests
mod MemoryTests
mod CondvarTests
mod LockFreeTests
mod ClientTests
mod ProcessTests
mod SignalTests
