-- ===== src/Process.antt =====
-- The programs of sem07-processes/snippets.
pub mod Descriptors
pub mod Pipe
pub mod Shell
