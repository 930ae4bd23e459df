-- ===== src/Net/TcpServer.antt =====
-- sem10-net-sockets/snippets/tcp/tcp_server.c: the quit command and `main`.
use caos_seminars.Prelude.{ℕ, zero, suc, Bool, true, false, List, ◌==◌, if◌then◌else◌, get_or}
use caos_seminars.Kernel.{Kernel, FdResult}
use caos_seminars.Net.Socket.{Init, server_socket_init}
use caos_seminars.Net.Session.{Talk, session}
pub mod Safety

-- `msg[0] == 'q' && (bytes_read == 1 || msg[1] == '\0')`
abbrev pub is_quit : (msg : List ℕ) (bytes_read : ℕ) → Bool
is_quit msg bytes_read =
    if get_or msg 0 0 == 113 then (if bytes_read == 1 then true else get_or msg 1 0 == 0) else false

-- `accepting` and `talking`: the rounds that the outer or the inner loop was given are over, and
-- it goes on from there.
pub data Server (W : Type 0) : Type 0 where
  returned : (code : ℕ) (w : W) → Server W
  accepting : (server_fd : ℕ) (w : W) → Server W
  talking : (server_fd client_fd : ℕ) (w : W) → Server W
  out_of_fuel : Server W

module _ (K : Kernel) where
  open K use {World, accept, shutdown, close}

  -- The `while (true)`, for `rounds` rounds, each with `talks` rounds of the inner loop. `msg` is
  -- what the array holds before it is first written.
  unfoldable pub serve : (rounds talks : ℕ) (msg : List ℕ) (server_fd : ℕ) → World → Server World
  serve zero talks msg server_fd w = Server.accepting server_fd w
  serve (suc rounds) talks msg server_fd w =
      let (result, w1) = accept server_fd w in
      elim result [
        | FdResult.failed _ ↦ serve rounds talks msg server_fd w1
        | FdResult.opened client_fd ↦ elim (session K.files is_quit talks client_fd msg w1) [
          | Talk.ended w2 ↦
              serve rounds talks msg server_fd (close client_fd (shutdown client_fd w2))
          | Talk.running _ w2 ↦ Server.talking server_fd client_fd w2
          | Talk.out_of_fuel ↦ Server.out_of_fuel
        ]
      ]

  -- `port` is `atoi(argv[1])` as a `uint16_t`.
  unfoldable pub main : (rounds talks : ℕ) (msg : List ℕ) (argc port : ℕ) → World → Server World
  main rounds talks msg argc port w =
      if argc == 2
      then elim (server_socket_init K port w) [
        | Init.listening server_fd w1 ↦ serve rounds talks msg server_fd w1
        | Init.exited w1 ↦ Server.returned 1 w1
      ]
      else Server.returned 1 w
