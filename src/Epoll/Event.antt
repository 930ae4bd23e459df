-- ===== src/Epoll/Event.antt =====
-- server_epoll.c: `disable_io_block`, `close_connection` and `process_epoll_event`.
pub mod Served
pub mod Loops
pub mod Client
pub mod Admission
pub mod Process
use caos_seminars.Prelude.{ℕ, zero, suc, true, false, ◌||◌, Option, none, some, ◌==◌, if◌then◌else◌}
use caos_seminars.Prelude.Int.{ℤ, pos, negsuc, minus_one}
use caos_seminars.Kernel.{Kernel, FdResult, Events, EpollEvent, word_fd, update}
use caos_seminars.Epoll.Connection.{buff_size, FdData, fresh_data, read_buff, write_buff}

-- The program's memory, with the objects of `fd_data` by their addresses, and the world.
pub record Server (W : Type 0) : Type 0 where
  pub heap : ℕ → Option FdData
  pub world : W

-- `fault` is the use of an address that holds no object, such as a freed one.
pub data Run (W : Type 0) : Type 0 where
  done : (s : Server W) → Run W
  fault : Run W
  out_of_fuel : Run W

-- How the `while (1)` over `read_buff` was left: by `break`, or by `return` after a close.
pub data LoopRun (W : Type 0) : Type 0 where
  broke : (s : Server W) → LoopRun W
  returned : (s : Server W) → LoopRun W
  fault : LoopRun W
  out_of_fuel : LoopRun W

-- EPOLLIN | EPOLLET | EPOLLRDHUP
abbrev pub in_events : Events
in_events = record {
  epollin = true;
  epollout = false;
  epollerr = false;
  epollhup = false;
  epollrdhup = true;
  epollet = true;
}

-- EPOLLIN | EPOLLOUT | EPOLLET | EPOLLRDHUP
abbrev pub in_out_events : Events
in_out_events = record in_events { epollout = true }

-- Each round of the loop but the last stores a byte or more in the buffer.
abbrev pub read_fuel : ℕ
read_fuel = suc (suc buff_size)

module _ (K : Kernel) where
  open K use {
    World, accept, shutdown, close, get_flags, set_nonblock, calloc, free, epoll_add, epoll_mod,
    epoll_del,
  }

  unfoldable pub disable_io_block : (fd : ℕ) → World → ℤ × World
  disable_io_block fd w =
      let (flags, w1) = get_flags fd w in
      elim flags [
        | none ↦ (minus_one, w1)
        | some current ↦
            let (ok, w2) = set_nonblock fd current w1 in if ok then (pos 0, w2) else (minus_one, w2)
      ]

  -- A descriptor is never negative here, so that `data->fd >= 0` holds.
  unfoldable pub close_connection : (ptr epoll_fd : ℕ) → Server World → Run World
  close_connection ptr epoll_fd s = if ptr == 0 then Run.done s else elim (s.heap ptr) [
    | none ↦ Run.fault
    | some d ↦ Run.done (record {
      heap = update s.heap ptr none;
      world = free ptr (close d.fd (shutdown d.fd (epoll_del epoll_fd d.fd s.world)));
    })
  ]

  -- The branch of the listening socket, from the descriptor that `accept` returned.
  unfoldable pub add_client : (client_fd epoll_fd : ℕ) → Server World → Server World
  add_client client_fd epoll_fd s =
      let (blocked, w1) = disable_io_block client_fd s.world in
      elim blocked [
        | negsuc _ ↦ record s { world = close client_fd w1 }
        | pos (suc _) ↦ record s { world = close client_fd w1 }
        | pos zero ↦
            let (ptr, w2) = calloc w1 in
            if ptr == 0
            then record s { world = close client_fd w2 }
            else (let (added, w3) =
                  epoll_add epoll_fd client_fd (record { events = in_events; word = ptr }) w2 in
                if added
                then record { heap = update s.heap ptr (some (fresh_data client_fd)); world = w3 }
                else record s { world = close client_fd (free ptr w3) })
      ]

  unfoldable pub accept_client : (server_fd epoll_fd : ℕ) → Server World → Server World
  accept_client server_fd epoll_fd s =
      let (result, w1) = accept server_fd s.world in
      elim result [
        | FdResult.failed _ ↦ record s { world = w1 }
        | FdResult.opened client_fd ↦ add_client client_fd epoll_fd (record s { world = w1 })
      ]

  abbrev closed_run : Run World → LoopRun World
  closed_run (Run.done s) = LoopRun.returned s
  closed_run Run.fault = LoopRun.fault
  closed_run Run.out_of_fuel = LoopRun.out_of_fuel

  -- The `while (1)` of the branch EPOLLIN, on fuel.
  unfoldable pub read_loop : (fuel ptr epoll_fd : ℕ) → Server World → LoopRun World
  read_loop zero ptr epoll_fd s = LoopRun.out_of_fuel
  read_loop (suc fuel) ptr epoll_fd s = elim (s.heap ptr) [
    | none ↦ LoopRun.fault
    | some d ↦
        let (r, d', w') = read_buff K.files d s.world in
        let s' : Server World = record { heap = update s.heap ptr (some d'); world = w' } in
        elim r [
          | pos zero ↦ LoopRun.broke s'
          | pos (suc _) ↦ read_loop fuel ptr epoll_fd (record s' {
            world = epoll_mod epoll_fd d'.fd (record { events = in_out_events; word = ptr }) w';
          })
          | negsuc _ ↦ closed_run (close_connection ptr epoll_fd s')
        ]
  ]

  -- The branch EPOLLOUT.
  unfoldable pub write_out : (ptr epoll_fd : ℕ) → Server World → Run World
  write_out ptr epoll_fd s = elim (s.heap ptr) [
    | none ↦ Run.fault
    | some d ↦
        let (r, d', w') = write_buff K.files d s.world in
        let s' : Server World = record { heap = update s.heap ptr (some d'); world = w' } in
        elim r [
          | negsuc _ ↦ close_connection ptr epoll_fd s'
          | pos _ ↦
              if d'.buffer_begin == d'.buffer_end
              then Run.done (record s' {
                world = epoll_mod epoll_fd d'.fd (record { events = in_events; word = ptr }) w';
              })
              else Run.done s'
        ]
  ]

  -- What follows the branch EPOLLIN.
  unfoldable pub after_reads : (event : EpollEvent) (epoll_fd : ℕ) → LoopRun World → Run World
  after_reads event epoll_fd (LoopRun.broke s) =
      if event.events.epollout then write_out event.word epoll_fd s else Run.done s
  after_reads event epoll_fd (LoopRun.returned s) = Run.done s
  after_reads event epoll_fd LoopRun.fault = Run.fault
  after_reads event epoll_fd LoopRun.out_of_fuel = Run.out_of_fuel

  unfoldable pub client_event : (event : EpollEvent) (epoll_fd : ℕ) → Server World → Run World
  client_event event epoll_fd s =
      let ptr = event.word in
      let mask = event.events in
      if ptr == 0
      then Run.done s
      else if mask.epollerr || mask.epollhup || mask.epollrdhup
      then close_connection ptr epoll_fd s
      else after_reads event epoll_fd
          (if mask.epollin then read_loop read_fuel ptr epoll_fd s else LoopRun.broke s)

  unfoldable pub process_epoll_event :
      (event : EpollEvent) (server_fd epoll_fd : ℕ) → Server World → Run World
  process_epoll_event event server_fd epoll_fd s =
      if word_fd event.word == server_fd
      then Run.done (accept_client server_fd epoll_fd s)
      else client_event event epoll_fd s
