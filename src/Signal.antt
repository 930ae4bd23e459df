-- ===== src/Signal.antt =====
-- The programs of sem09-signals/snippets that wait for SIGINT or for realtime signals.
pub mod Masked
pub mod Suspended
pub mod Queued
