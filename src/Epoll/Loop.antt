-- ===== src/Epoll/Loop.antt =====
-- server_epoll.c: `main`.
use caos_seminars.Prelude.{
  ℕ, zero, suc, ◌+◌, ◌*◌, ◌^◌, Option, none, List, [], ◌∷◌, Bool, true, false, ◌==◌, if◌then◌else◌,
}
use caos_seminars.Prelude.Int.{ℤ, pos, negsuc}
use caos_seminars.Posix.{eintr}
use caos_seminars.Kernel.{Kernel, FdResult, WaitResult, Events, EpollEvent}
use caos_seminars.Net.Socket.{Init, server_socket_init}
use caos_seminars.Epoll.Event.{Server, Run, disable_io_block, process_epoll_event}
pub mod Safety

abbrev pub max_events : ℕ
max_events = 64

-- `running`: the rounds that the loop was given are over, and it goes on from there.
pub data Main (W : Type 0) : Type 0 where
  returned : (code : ℕ) (w : W) → Main W
  running : (s : Server W) → Main W
  fault : Main W
  out_of_fuel : Main W

-- EPOLLIN
abbrev pub listen_events : Events
listen_events = record {
  epollin = true;
  epollout = false;
  epollerr = false;
  epollhup = false;
  epollrdhup = false;
  epollet = false;
}

-- `if (disable_io_block(…))` is taken at any value but 0.
abbrev is_zero : ℤ → Bool
is_zero (pos zero) = true
is_zero (pos (suc _)) = false
is_zero (negsuc _) = false

module _ (K : Kernel) where
  open K use {World, close, epoll_create, epoll_add, epoll_wait}

  -- The `for` over the pending events.
  unfoldable pub process_events :
      List EpollEvent → (server_fd epoll_fd : ℕ) → Server World → Run World
  process_events [] server_fd epoll_fd s = Run.done s
  process_events (event ∷ events) server_fd epoll_fd s =
      elim (process_epoll_event K event server_fd epoll_fd s) [
        | Run.done s' ↦ process_events events server_fd epoll_fd s'
        | Run.fault ↦ Run.fault
        | Run.out_of_fuel ↦ Run.out_of_fuel
      ]

  -- The `while (1)`, for a number of rounds.
  unfoldable pub serve : (rounds server_fd epoll_fd : ℕ) → Server World → Main World
  serve zero server_fd epoll_fd s = Main.running s
  serve (suc rounds) server_fd epoll_fd s =
      let (result, w) = epoll_wait epoll_fd max_events s.world in
      let next : Server World = record s { world = w } in
      elim result [
        | WaitResult.failed eintr ↦ serve rounds server_fd epoll_fd next
        | WaitResult.failed _ ↦ Main.returned 0 (close server_fd (close epoll_fd w))
        | WaitResult.events pending ↦ elim (process_events pending server_fd epoll_fd next) [
          | Run.done s' ↦ serve rounds server_fd epoll_fd s'
          | Run.fault ↦ Main.fault
          | Run.out_of_fuel ↦ Main.out_of_fuel
        ]
      ]

  -- What follows `server_socket_init`. `listen_event.data.fd` sets the low 32 bits of a union on
  -- the stack; `high` is what stands in its other bits.
  unfoldable pub start : (rounds high server_fd : ℕ) → World → Main World
  start rounds high server_fd w =
      let (blocked, w1) = disable_io_block K server_fd w in
      if is_zero blocked
      then (let (created, w2) = epoll_create w1 in
          elim created [
            | FdResult.failed _ ↦ Main.returned 1 (close server_fd w2)
            | FdResult.opened epoll_fd ↦
                let listen_event : EpollEvent = record {
                  events = listen_events;
                  word = high * 2 ^ 32 + server_fd;
                } in
                let (added, w3) = epoll_add epoll_fd server_fd listen_event w2 in
                if added
                then serve rounds server_fd epoll_fd (record { heap = λ _. none; world = w3 })
                else Main.returned 1 (close server_fd (close epoll_fd w3))
          ])
      else Main.returned 1 (close server_fd w1)

  -- `port` is `atoi(argv[1])` as a `uint16_t`.
  unfoldable pub main : (rounds high argc port : ℕ) → World → Main World
  main rounds high argc port w =
      if argc == 2
      then elim (server_socket_init K port w) [
        | Init.listening server_fd w1 ↦ start rounds high server_fd w1
        | Init.exited w1 ↦ Main.returned 1 w1
      ]
      else Main.returned 1 w
