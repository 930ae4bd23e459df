-- ===== src/Epoll/Loop/Safety.antt =====
-- The loop and `main` of server_epoll.c, for whatever the kernel answers.
use caos_seminars.Prelude.{
  ℕ, zero, suc, ◌+◌, ◌*◌, ◌%◌, ◌^◌, ◌<◌, ◌≡◌, ◌≢◌, refl, sym, ap, ◌∙◌, subst, inl, inr, Bool, true,
  false, Option, none, some, List, [], ◌∷◌, arith, ◌==◌, ==_iff, ltb, ltb→lt, Bool-cases,
  if◌then◌else◌,
}
use caos_seminars.Prelude.Int.{ℤ, pos, negsuc}
use caos_seminars.Posix.{eagain, eintr, other}
use caos_seminars.Kernel.{Kernel, FdResult, WaitResult, EpollEvent, word_fd, update}
use caos_seminars.Kernel.Effects.{
  View, Effects, NotIn, Fires, AfterSocket, AfterWait, AfterCreate, AfterAdd,
}
use caos_seminars.Kernel.Moves.{update_self, update-other}
use caos_seminars.Epoll.Invariant.{Inv, Keeps}
use caos_seminars.Epoll.Event.{Server, Run, disable_io_block}
use caos_seminars.Epoll.Event.Process.{process_epoll_event-Serves}
use caos_seminars.Epoll.Event.Admission.{view-disabled}
use caos_seminars.Epoll.Invariant.Admit.{none-ne-some}
use caos_seminars.Net.Socket.{server_socket_init}
use caos_seminars.Net.Socket.Spec.{Ready, listening, exited, server_socket_init-Ready}
use caos_seminars.Epoll.Loop.{Main, max_events, process_events, serve, start, main}

-- The events of other descriptors stand, whatever the event of `fd` did.
Fires-kept :
    {fd : ℕ} (v v' : View) (es : List EpollEvent) (fds : List ℕ)
    → NotIn fd fds
    → Keeps fd v v'
    → Fires v es fds
    → Fires v' es fds
Fires-kept v v' [] [] out keeps fires = tt
Fires-kept v v' [] (f ∷ fds) out keeps fires = fires
Fires-kept v v' (e ∷ es) [] out keeps fires = fires
Fires-kept v v' (e ∷ es) (f ∷ fds) out keeps (watched, apart, rest) =
    (keeps f e.word out.0 watched, apart, Fires-kept v v' es fds out.1 keeps rest)

module _ (K : Kernel) (E : Effects K) where
  open K use {World}
  open E use {view}

  -- The program has rounds left in a good state, or has returned an exit code.
  pub data Fine (run : Main World) : Type 0 where
    running :
        (server_fd : ℕ) (s : Server World)
        → run ≡ Main.running s
        → Inv server_fd s.heap (view s.world)
        → Fine run
    returned : (code : ℕ) (w : World) → run ≡ Main.returned code w → Fine run

module _ (K : Kernel) (E : Effects K) (server_fd : ℕ) (aligned : server_fd % 16 ≢ 0) where
  open K use {World}
  open E use {view, wait_law, add_law, create_law}

  -- All events of one `epoll_wait` are served one after the other, each in a state where its
  -- address holds an object still: an event that closes a connection frees no other event's.
  pub process_events-Inv :
      (es : List EpollEvent) (fds : List ℕ) (epoll_fd : ℕ) (s : Server World)
      → Inv server_fd s.heap (view s.world)
      → Fires (view s.world) es fds
      → (s' : Server World) × (process_events K es server_fd epoll_fd s ≡ Run.done s')
        × Inv server_fd s'.heap (view s'.world)
  unfolding process_events
  process_events-Inv [] fds epoll_fd s inv fires = (s, refl, inv)
  process_events-Inv (e ∷ es) [] epoll_fd s inv fires = absurd fires
  process_events-Inv (e ∷ es) (fd ∷ fds) epoll_fd s inv (watched, apart, rest) =
      let (s1, runs, served) =
        process_epoll_event-Serves K E server_fd aligned e fd epoll_fd s inv watched in
      let (s2, ends, inv2) =
        process_events-Inv es fds epoll_fd s1 served.inv
          (Fires-kept (view s.world) (view s1.world) es fds apart served.keeps rest) in
      (s2, rw (runs, process_events) ends, inv2)

  serve-round :
      (rounds epoll_fd : ℕ) (s : Server World) (result : WaitResult) (w : World)
      → K.epoll_wait epoll_fd max_events s.world ≡ (result, w)
      → AfterWait max_events (view s.world) result (view w)
      → Inv server_fd s.heap (view s.world)
      → ((s' : Server World)
          → Inv server_fd s'.heap (view s'.world)
          → Fine K E (serve K rounds server_fd epoll_fd s'))
      → Fine K E (serve K (suc rounds) server_fd epoll_fd s)
  unfolding serve
  serve-round rounds epoll_fd s (WaitResult.failed eagain) w e law inv again =
      returned 0 (K.close server_fd (K.close epoll_fd w)) (rw (e, serve, e))
  serve-round rounds epoll_fd s (WaitResult.failed eintr) w e law inv again =
      rw (e, serve, e) (again (record s { world = w }) (rw law inv))
  serve-round rounds epoll_fd s (WaitResult.failed (other code)) w e law inv again =
      returned 0 (K.close server_fd (K.close epoll_fd w)) (rw (e, serve, e))
  serve-round rounds epoll_fd s (WaitResult.events es) w e (same, few, (fds, fires)) inv again =
      let (s', runs, inv') =
        process_events-Inv es fds epoll_fd (record s { world = w }) (rw same inv) (rw same fires) in
      rw (e, serve, e, runs) (again s' inv')

  serve-Fine :
      (rounds epoll_fd : ℕ) (s : Server World)
      → Inv server_fd s.heap (view s.world)
      → Fine K E (serve K rounds server_fd epoll_fd s)
  unfolding serve
  serve-Fine zero epoll_fd s inv = running server_fd s refl inv
  serve-Fine (suc rounds) epoll_fd s inv =
      serve-round rounds epoll_fd s _ _ refl (wait_law epoll_fd max_events s.world (omega arith))
        inv (serve-Fine rounds epoll_fd)

  -- The invariant at the start: no client, and the listening descriptor on the interest list.
  pub first-Inv :
      (word : ℕ) (v : View)
      → v.is_open server_fd ≡ true
      → word_fd word ≡ server_fd
      → v.watch ≡ (λ _. none)
      → Inv server_fd (λ _. none) (record v { watch = update v.watch server_fd (some word) })
  first-Inv word v opened low empty = record {
    objects = λ ptr d there. absurd (none-ne-some there);
    clients = λ fd ptr watched ne. absurd (
        none-ne-some (
          ap (λ (f : ℕ → Option ℕ). f fd) (sym empty)
          ∙ sym (update-other v.watch server_fd fd (some word) ne)
          ∙ watched));
    listening = (word, update_self v.watch server_fd (some word), low);
    server_open = opened;
  }

  -- What follows the registration of the listening descriptor.
  added-Fine :
      (rounds epoll_fd word : ℕ) (w2 : World) (added : Bool) (w3 : World)
      → AfterAdd server_fd word (view w2) added (view w3)
      → (view w2).is_open server_fd ≡ true
      → word_fd word ≡ server_fd
      → (view w2).watch ≡ (λ _. none)
      → Fine K E (
          if added
          then serve K rounds server_fd epoll_fd (record { heap = λ _. none; world = w3 })
          else Main.returned 1 (K.close server_fd (K.close epoll_fd w3)))
  added-Fine rounds epoll_fd word w2 false w3 law opened low empty =
      returned 1 (K.close server_fd (K.close epoll_fd w3)) refl
  added-Fine rounds epoll_fd word w2 true w3 law opened low empty =
      serve-Fine rounds epoll_fd (record { heap = λ _. none; world = w3 })
        (rw law (first-Inv word (view w2) opened low empty))

  -- What follows `epoll_create1`, by its result.
  created-Fine :
      (rounds high : ℕ) (w w2 : World) (created : FdResult)
      → K.epoll_create (disable_io_block K server_fd w).1 ≡ (created, w2)
      → AfterCreate (view w) created (view w2)
      → (disable_io_block K server_fd w).0 ≡ pos 0
      → (view w).is_open server_fd ≡ true
      → server_fd < 2 ^ 31
      → Fine K E (start K rounds high server_fd w)
  unfolding start
  created-Fine rounds high w w2 (FdResult.failed _) e law ready opened small =
      returned 1 (K.close server_fd w2) (rw (ready, start, e, e))
  created-Fine rounds high w w2 (FdResult.opened epoll_fd) e (shut, now) ready opened small =
      rw (ready, start, e, e)
        (added-Fine rounds epoll_fd (high * 2 ^ 32 + server_fd) w2 _ _
          (add_law epoll_fd server_fd _ w2)
          (ap (λ (v : View). v.is_open server_fd) now ∙ ground arith) (omega arith)
          (ap (λ (v : View). v.watch) now))

  start-Fine :
      (rounds high : ℕ) (w : World) (r : ℤ)
      → (disable_io_block K server_fd w).0 ≡ r
      → (view w).is_open server_fd ≡ true
      → server_fd < 2 ^ 31
      → Fine K E (start K rounds high server_fd w)
  unfolding start
  start-Fine rounds high w (pos zero) e opened small =
      let (created, w2) = K.epoll_create (disable_io_block K server_fd w).1 in
      created-Fine rounds high w w2 created refl
        (subst (λ v. AfterCreate v created (view w2))
          (view-disabled K E server_fd aligned server_fd w)
          (create_law (disable_io_block K server_fd w).1))
        e opened small
  start-Fine rounds high w (pos (suc n)) e opened small =
      returned 1 (K.close server_fd (disable_io_block K server_fd w).1) (rw (e, start))
  start-Fine rounds high w (negsuc n) e opened small =
      returned 1 (K.close server_fd (disable_io_block K server_fd w).1) (rw (e, start))

module _ (K : Kernel) (E : Effects K) where
  open K use {World}
  open E use {view}

  init-Fine :
      (rounds high port : ℕ) (w : World)
      → ((fd : ℕ) → (K.socket w).0 ≡ FdResult.opened fd → fd % 16 ≢ 0)
      → Ready K E port w (server_socket_init K port w)
      → Fine K E (main K rounds high 2 port w)
  unfolding main
  init-Fine rounds high port w aligned (exited w1 e same _) = returned 1 w1 (rw (e, main))
  init-Fine rounds high port w aligned (listening fd w1 e got shut small now _) =
      rw (e, main)
        (start-Fine K E fd (aligned fd got) rounds high w1 (disable_io_block K fd w1).0 refl
          (ap (λ (v : View). v.is_open fd) now ∙ update_self (view w).is_open fd true) small)

  -- `socket` gives the lowest descriptor that is not open: if 0 is open and one below 16 is not, what
  -- it gives is no multiple of 16.
  low_descriptor :
      (w : World) (free fd : ℕ)
      → (view w).is_open 0 ≡ true
      → free < 16
      → (view w).is_open free ≡ false
      → ((g : ℕ) → g < fd → (view w).is_open g ≡ true)
      → (K.socket w).0 ≡ FdResult.opened fd
      → fd % 16 ≢ 0
  low_descriptor w free fd input few shut lowest got =
      let law : AfterSocket (view w) (FdResult.opened fd) (view (K.socket w).1) =
        subst (λ r. AfterSocket (view w) r (view (K.socket w).1)) got (E.socket_law w) in
      let nonzero : fd ≢ 0 =
        λ e. absurd (ground (arith, sym input ∙ ap (view w).is_open (sym e) ∙ law.0)) in
      elim (Bool-cases (ltb free fd)) [
        | inl below ↦
            let there = lowest free (ltb→lt free fd below) in
            absurd (ground (arith, sym there ∙ shut))
        | inr above ↦ λ e. absurd (ground (arith, nonzero))
      ]

  -- `main` of the server returns an exit code, or is running still after any number of rounds of
  -- its loop: it never uses an address that holds no object, and no loop over `read_buff` runs out
  -- of the 4098 rounds of the model. While it is running the invariant holds: for every client, what was
  -- sent, with what is in the buffer, is what was received; every object is on the interest list,
  -- and every entry of the list but that of the listening socket leads to an object. The program is
  -- started with its standard input open and some descriptor below 16 not, and `socket` gives, as its
  -- manual page says, the lowest descriptor that is not open; so the listening descriptor is no
  -- multiple of 16, the alignment of `calloc`, and is never taken for the address of an object.
  pub main-Fine :
      (rounds high argc port : ℕ) (w : World) (free : ℕ)
      → (view w).is_open 0 ≡ true
      → free < 16
      → (view w).is_open free ≡ false
      → ((fd g : ℕ) → (K.socket w).0 ≡ FdResult.opened fd → g < fd → (view w).is_open g ≡ true)
      → Fine K E (main K rounds high argc port w)
  unfolding main
  main-Fine rounds high argc port w free input few shut lowest = elim (Bool-cases (argc == 2)) [
    | inl two ↦
        let aligned : (fd : ℕ) → (K.socket w).0 ≡ FdResult.opened fd → fd % 16 ≢ 0 =
          λ fd got. low_descriptor w free fd input few shut (λ g. lowest fd g got) got in
        subst (λ n. Fine K E (main K rounds high n port w)) (sym ((==_iff argc 2).0 two))
          (init-Fine rounds high port w aligned (server_socket_init-Ready K E port w))
    | inr usage ↦ returned 1 w (rw (usage, main))
  ]
