-- ===== src/Epoll/Event/Process.antt =====
-- `process_epoll_event` of server_epoll.c keeps the invariant.
use caos_seminars.Prelude.{
  ℕ, ◌%◌, ◌≡◌, ◌≢◌, sym, ap, ◌∙◌, inl, inr, true, false, some, arith, ◌==◌, ==_iff, Bool-cases,
}
use mathlib.Core.Option.{some-injective}
use caos_seminars.Kernel.{Kernel, EpollEvent, word_fd}
use caos_seminars.Kernel.Effects.{Effects}
use caos_seminars.Epoll.Invariant.{Inv}
use caos_seminars.Epoll.Event.{Server, accept_client, process_epoll_event}
use caos_seminars.Epoll.Event.Served.{Serves}
use caos_seminars.Epoll.Event.Client.{client_event-Serves}
use caos_seminars.Epoll.Event.Admission.{accept_client-Served}

module _ (K : Kernel) (E : Effects K) (server_fd : ℕ) (aligned : server_fd % 16 ≢ 0) where
  open K use {World}
  open E use {view}

  -- If `server_fd` is no multiple of 16, the alignment of `calloc`, then for an event of a descriptor
  -- on the interest list, in a state where the invariant holds, `process_epoll_event` returns: it uses no address without an object, its loop ends, and the
  -- invariant holds again. Each client is an echo still, no object and no entry of the interest
  -- list is lost or dangles, and the entries of the other descriptors are as they were.
  pub process_epoll_event-Serves :
      (event : EpollEvent) (fd epoll_fd : ℕ) (s : Server World)
      → Inv server_fd s.heap (view s.world)
      → (view s.world).watch fd ≡ some event.word
      → Serves K E server_fd fd (view s.world) (process_epoll_event K event server_fd epoll_fd s)
  unfolding process_epoll_event
  process_epoll_event-Serves event fd epoll_fd s inv watched = elim (Bool-cases (fd == server_fd)) [
    | inl same ↦
        let at : fd ≡ server_fd = (==_iff fd server_fd).0 same in
        let (word, listed, low) = inv.listening in
        let here : event.word ≡ word =
          some-injective _ _ (sym watched ∙ ap (view s.world).watch at ∙ listed) in
        let hit : (word_fd event.word == server_fd) ≡ true =
          (==_iff _ server_fd).1 (ap word_fd here ∙ low) in
        let served = accept_client-Served K E server_fd aligned epoll_fd s inv in
        (accept_client K server_fd epoll_fd s, rw hit, rw at served)
    | inr differ ↦
        let (d, there, at_fd) = inv.clients fd event.word watched (ground arith) in
        let own = inv.objects event.word d there in
        let miss : (word_fd event.word == server_fd) ≡ false = ground (arith, own.not_listening) in
        rw (miss, ← at_fd) (client_event-Serves K E server_fd event epoll_fd s d inv there)
  ]
