-- ===== src/Epoll.antt =====
-- sem10-net-sockets/snippets/epoll/server_epoll.c: an echo server on one thread.
pub mod Connection
pub mod Invariant
pub mod Event
pub mod Loop
