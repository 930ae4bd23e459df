-- ===== src/Epoll/Event/Client.antt =====
-- An event of a client of server_epoll.c keeps the invariant, and never touches a freed object.
use caos_seminars.Prelude.{
  ℕ, ◌≡◌, refl, inl, inr, false, true, Bool, if◌then◌else◌, some, arith, ◌==◌, ◌||◌, Bool-cases,
}
use caos_seminars.Kernel.{Kernel, EpollEvent}
use caos_seminars.Kernel.Effects.{View, Effects}
use caos_seminars.Epoll.Connection.{FdData}
use caos_seminars.Epoll.Invariant.{Inv}
use caos_seminars.Epoll.Event.{Server, LoopRun, read_loop, read_fuel, after_reads, client_event}
use caos_seminars.Epoll.Event.Served.{Serves, close_connection-Serves, Served-later}
use caos_seminars.Epoll.Event.Loops.{
  LoopServes, broke, returned, read_loop-Serves, write_out-Serves,
}

module _ (K : Kernel) (E : Effects K) (server_fd : ℕ) where
  open K use {World}
  open E use {view}

  after_reads-Serves :
      (event : EpollEvent) (epoll_fd : ℕ) {fd : ℕ} {before : View} {run : LoopRun World}
      → LoopServes K E server_fd event.word fd before run
      → Serves K E server_fd fd before (after_reads K event epoll_fd run)
  unfolding after_reads
  after_reads-Serves event epoll_fd (returned s e served) = (s, rw e, served)
  after_reads-Serves event epoll_fd (broke s d e served here at_fd) =
      elim (Bool-cases event.events.epollout) [
        | inl out ↦
            let (s', runs, writes) =
              write_out-Serves K E server_fd event.word epoll_fd s d served.inv here in
            (s', rw (e, out) runs, Served-later K E server_fd at_fd served writes)
        | inr none_out ↦ (s, rw (e, none_out), served)
      ]

  reads-Serves :
      (ptr epoll_fd : ℕ) (s : Server World) (d : FdData)
      → Inv server_fd s.heap (view s.world)
      → s.heap ptr ≡ some d
      → (input : Bool)
      → LoopServes K E server_fd ptr d.fd
          (view s.world)
          (if input then read_loop K read_fuel ptr epoll_fd s else LoopRun.broke s)
  reads-Serves ptr epoll_fd s d inv here true =
      read_loop-Serves K E server_fd ptr epoll_fd read_fuel s d inv here (omega arith)
  reads-Serves ptr epoll_fd s d inv here false =
      broke s d refl (record { inv = inv; keeps = λ g word ne watched. watched }) here refl

  -- An event of a client whose object is in place is served without a fault, and within the fuel.
  pub client_event-Serves :
      (event : EpollEvent) (epoll_fd : ℕ) (s : Server World) (d : FdData)
      → Inv server_fd s.heap (view s.world)
      → s.heap event.word ≡ some d
      → Serves K E server_fd d.fd (view s.world) (client_event K event epoll_fd s)
  unfolding client_event
  client_event-Serves event epoll_fd s d inv here =
      let own = inv.objects event.word d here in
      let some_ptr : (event.word == 0) ≡ false = ground (arith, own.not_null) in
      let mask = event.events in
      elim (Bool-cases (mask.epollerr || mask.epollhup || mask.epollrdhup)) [
        | inl hangup ↦
            rw (some_ptr, hangup)
              (close_connection-Serves K E server_fd event.word epoll_fd s inv here)
        | inr fine ↦
            rw (some_ptr, fine)
              (after_reads-Serves event epoll_fd
                (reads-Serves event.word epoll_fd s d inv here mask.epollin))
      ]
