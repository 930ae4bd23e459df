-- ===== src/Memory.antt =====
-- sem06-memory/snippets: programs that measure how memory is accessed.
pub mod CacheLine
pub mod Matmul
pub mod Traversal
