-- ===== src/Net/Socket.antt =====
-- `server_socket_init`, which sem10-net-sockets/snippets/epoll/server_epoll.c,
-- tcp/tcp_server.c and tcp-fork/tcp_server.c have in the same words.
use caos_seminars.Prelude.{ℕ, if◌then◌else◌}
use caos_seminars.Kernel.{Kernel, FdResult}
pub mod Spec

-- The listening descriptor, or `exit(1)`.
pub data Init (W : Type 0) : Type 0 where
  listening : (server_fd : ℕ) (w : W) → Init W
  exited : (w : W) → Init W

module _ (K : Kernel) where
  open K use {World, socket, setsockopt, bind, listen, close}

  -- What follows a successful call of `socket`.
  unfoldable pub configure : (server_fd port : ℕ) → World → Init World
  configure server_fd port w =
      let (optioned, w1) = setsockopt server_fd w in
      if optioned
      then (let (bound, w2) = bind server_fd port w1 in
          if bound
          then (let (heard, w3) = listen server_fd w2 in
              if heard then Init.listening server_fd w3 else Init.exited (close server_fd w3))
          else Init.exited (close server_fd w2))
      else Init.exited (close server_fd w1)

  unfoldable pub server_socket_init : (port : ℕ) → World → Init World
  server_socket_init port w =
      let (result, w1) = socket w in
      elim result [
        | FdResult.failed _ ↦ Init.exited w1
        | FdResult.opened server_fd ↦ configure server_fd port w1
      ]
