-- ===== src/Tests/Loopback.antt =====
-- A concrete kernel for the servers: one client at a time, whose events follow a plan.
use caos_seminars.Kernel.Moves.{update_self}
use caos_seminars.Prelude.{
  ◌≡◌, ℕ, ◌<◌, refl, true, false, none, some, List, [], ◌∷◌, ◌++◌, arith, length, length-take, take,
  drop, if◌then◌else◌, Bool-cases, Option-cases, inl, inr,
}
use caos_seminars.Posix.{ReadResult, WriteResult, eagain, eintr, other}
use caos_seminars.Kernel.{Kernel, FdResult, WaitResult, Events, update}
use caos_seminars.Net.Datagrams.{Datagram, Datagrams, RecvResult, Traffic, RecvLaw}
use caos_seminars.Kernel.Effects.{
  View, Effects, AfterSocket, AfterCreate, AfterWait, AfterAccept, AfterCalloc,
}

-- `input` is what the client sends, `plan` the descriptors that `epoll_wait` names, one a call, and
-- `mail` the datagrams that have arrived.
pub record World : Type 0 where
  pub view : View
  pub input : List ℕ
  pub plan : List (ℕ × Events)
  pub mail : List Datagram
  pub heard : ℕ → List Datagram
  pub said : ℕ → List Datagram

-- Nothing has moved, and no datagram is there.
abbrev pub fresh : (view : View) (input : List ℕ) (plan : List (ℕ × Events)) → World
fresh view input plan = record {
  view = view;
  input = input;
  plan = plan;
  mail = [];
  heard = λ _. [];
  said = λ _. [];
}

abbrev seen : (View → View) → World → World
seen f w = record w { view = f w.view }

abbrev opening : ℕ → View → View
opening fd v = record v { is_open = update v.is_open fd true }

abbrev read : (fd count : ℕ) → World → ReadResult × World
read fd count w =
    let bytes = take count w.input in
    let v = w.view in
    (
      ReadResult.got bytes,
      record w {
        view = record v { received = update v.received fd (v.received fd ++ bytes) };
        input = drop count w.input;
      },
    )

abbrev write : (fd : ℕ) (bytes : List ℕ) → World → WriteResult × World
write fd bytes w =
    let v = w.view in
    (
      WriteResult.wrote (length bytes),
      record w {
        view = record v { sent = update v.sent fd (v.sent fd ++ take (length bytes) bytes) };
      },
    )

-- The listening socket is descriptor 3, the epoll instance 4, the client 5, its object at 16.
abbrev socket : World → FdResult × World
socket w =
    if w.view.is_open 3
    then (FdResult.failed (other 24), w)
    else (FdResult.opened 3, seen (opening 3) w)

abbrev epoll_create : World → FdResult × World
epoll_create w =
    if w.view.is_open 4
    then (FdResult.failed (other 24), w)
    else (FdResult.opened 4, seen (λ v. record (opening 4 v) { watch = λ _. none }) w)

abbrev accept : ℕ → World → FdResult × World
accept _ w = if w.view.is_open 5 then (FdResult.failed eagain, w) else (
  FdResult.opened 5,
  seen (λ v. record (opening 5 v) { received = update v.received 5 []; sent = update v.sent 5 [] })
      w,
)

abbrev calloc : World → ℕ × World
calloc w =
    if w.view.allocated 16
    then (0, w)
    else (16, seen (λ v. record v { allocated = update v.allocated 16 true }) w)

abbrev wait_by : List (ℕ × Events) → World → WaitResult × World
wait_by [] w = (WaitResult.failed eintr, w)
wait_by ((fd, events) ∷ rest) w = elim (w.view.watch fd) [
  | none ↦ (WaitResult.events [], record w { plan = rest })
  | some word ↦
      (WaitResult.events (record { events = events; word = word } ∷ []), record w { plan = rest })
]

abbrev pub loopback : Kernel
loopback = record {
  files = record { World = World; read = read; write = write };
  socket = socket;
  setsockopt = λ fd w. (true, w);
  bind = λ fd port w. (true, w);
  listen = λ fd w. (true, w);
  accept = accept;
  shutdown = λ fd w. w;
  close = λ fd w.
      seen (λ v. record v { is_open = update v.is_open fd false; watch = update v.watch fd none })
        w;
  get_flags = λ fd w. (some 2, w);
  set_nonblock = λ fd flags w. (true, w);
  calloc = calloc;
  free = λ ptr w. seen (λ v. record v { allocated = update v.allocated ptr false }) w;
  epoll_create = epoll_create;
  epoll_add = λ epoll_fd fd event w.
      (true, seen (λ v. record v { watch = update v.watch fd (some event.word) }) w);
  epoll_mod = λ epoll_fd fd event w. w;
  epoll_del = λ epoll_fd fd w. seen (λ v. record v { watch = update v.watch fd none }) w;
  epoll_wait = λ epoll_fd max_events w. wait_by w.plan w;
}

pub socket_law : (w : World) → AfterSocket w.view (socket w).0 (socket w).1.view
socket_law w = elim (Bool-cases (w.view.is_open 3)) [
  | inl old ↦ rw old refl
  | inr new ↦ rw new (new, omega arith, refl)
]

pub create_law : (w : World) → AfterCreate w.view (epoll_create w).0 (epoll_create w).1.view
create_law w = elim (Bool-cases (w.view.is_open 4)) [
  | inl old ↦ rw old refl
  | inr new ↦ rw new (new, refl)
]

pub accept_law : (fd : ℕ) (w : World) → AfterAccept w.view (accept fd w).0 (accept fd w).1.view
accept_law fd w = elim (Bool-cases (w.view.is_open 5)) [
  | inl old ↦ rw old refl
  | inr new ↦ rw new (new, refl)
]

pub calloc_law : (w : World) → AfterCalloc w.view (calloc w).0 (calloc w).1.view
calloc_law w = elim (Bool-cases (w.view.allocated 16)) [
  | inl old ↦ rw old ((λ h. absurd (h refl)), λ h. refl)
  | inr new ↦ rw new ((λ h. (new, refl, refl)), λ h. absurd (omega arith))
]

pub wait_law :
    (plan : List (ℕ × Events)) (max_events : ℕ) (w : World)
    → 0 < max_events
    → AfterWait max_events w.view (wait_by plan w).0 (wait_by plan w).1.view
wait_law [] max_events w h = refl
wait_law ((fd, events) ∷ rest) max_events w h = elim (Option-cases (w.view.watch fd)) [
  | inl unwatched ↦ rw (unwatched, wait_by) (refl, omega arith, ([], tt))
  | inr (word, watched) ↦ rw (watched, wait_by) (refl, omega arith, (fd ∷ [], (watched, tt, tt)))
]

abbrev pub loopback_effects : Effects loopback
loopback_effects = record {
  view = λ w. w.view;
  socket_law = socket_law;
  setsockopt_law = λ fd w. refl;
  bind_law = λ fd port w. refl;
  listen_law = λ fd w. refl;
  create_law = create_law;
  wait_law = λ epoll_fd max_events w. wait_law w.plan max_events w;
  read_law = λ fd count w. (omega (arith, length-take {0} count w.input), refl);
  write_law = λ fd bytes w. (omega arith, refl);
  accept_law = accept_law;
  shutdown_law = λ fd w. refl;
  close_law = λ fd w. refl;
  get_flags_law = λ fd w. refl;
  set_nonblock_law = λ fd flags w. refl;
  calloc_law = calloc_law;
  free_law = λ ptr w. refl;
  add_law = λ epoll_fd fd event w. refl;
  mod_law = λ epoll_fd fd event w h. refl;
  del_law = λ epoll_fd fd w. refl;
}

-- Every datagram is sent; one that has arrived is cut off at `count`.
abbrev recv_by : List Datagram → (fd count : ℕ) → World → RecvResult × World
recv_by [] fd count w = (RecvResult.failed eagain, w)
recv_by (d ∷ rest) fd count w =
    let cut : Datagram = record d { bytes = take count d.bytes } in
    (
      RecvResult.got cut.peer cut.bytes,
      record w { mail = rest; heard = update w.heard fd (w.heard fd ++ (cut ∷ [])) },
    )

abbrev pub datagrams : Datagrams loopback
datagrams = record {
  recvfrom = λ fd count w. recv_by w.mail fd count w;
  sendto = λ fd bytes peer w. (
    true,
    record w {
      said = update w.said fd (w.said fd ++ (record { peer = peer; bytes = bytes } ∷ []));
    },
  );
}

pub recv_by_law :
    (mail : List Datagram) (fd count : ℕ) (w : World)
    → RecvLaw
        (λ (v : World). v.heard)
        (λ (v : World). v.said)
        (λ (v : World). v.view)
        fd
        count
        w
        (recv_by mail fd count w)
recv_by_law [] fd count w = (refl, refl, refl)
recv_by_law (d ∷ rest) fd count w =
    (omega (arith, length-take {0} count d.bytes), ground arith, refl, refl)

pub socket_mail : (w : World) → ((socket w).1.heard ≡ w.heard) × ((socket w).1.said ≡ w.said)
socket_mail w = elim (Bool-cases (w.view.is_open 3)) [
  | inl old ↦ rw old (refl, refl)
  | inr new ↦ rw new (refl, refl)
]

abbrev pub traffic : Traffic loopback loopback_effects datagrams
traffic = record {
  heard = λ w. w.heard;
  said = λ w. w.said;
  recv_law = λ fd count w. recv_by_law w.mail fd count w;
  send_law = λ fd bytes peer w. (update_self w.said fd _, refl, refl);
  socket_heard = λ w. (socket_mail w).0;
  socket_said = λ w. (socket_mail w).1;
  bind_heard = λ fd port w. refl;
  bind_said = λ fd port w. refl;
  close_heard = λ fd w. refl;
  close_said = λ fd w. refl;
}
