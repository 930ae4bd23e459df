-- ===== src/Tests/EpollTests.antt =====
-- server_epoll.c on the loopback kernel: the theorems at a client that sends five bytes.
use caos_seminars.Prelude.{
  ℕ, ◌≡◌, refl, true, false, none, some, List, [], ◌∷◌, arith, replicate, ltb, ◌<◌,
}
use caos_seminars.Kernel.{FdResult, Events, EpollEvent, update}
use caos_seminars.Kernel.Effects.{View}
use caos_seminars.Net.Socket.{configure, server_socket_init}
use caos_seminars.Net.Socket.Spec.{Ready, server_socket_init-Ready}
use caos_seminars.Epoll.Connection.{FdData, read_buff, write_buff, after_read, after_write}
use caos_seminars.Epoll.Connection.Queue.{
  IsBuffer, ReadBuff, WriteBuff, read_buff-ReadBuff, write_buff-WriteBuff,
}
use caos_seminars.Epoll.Invariant.{Inv}
use caos_seminars.Epoll.Event.{
  Server, Run, in_events, in_out_events, disable_io_block, add_client, accept_client, read_loop,
  after_reads, write_out, client_event, process_epoll_event,
}
use caos_seminars.Epoll.Event.Served.{Serves}
use caos_seminars.Epoll.Event.Admission.{accept_client-Served}
use caos_seminars.Epoll.Event.Process.{process_epoll_event-Serves}
use caos_seminars.Epoll.Loop.{Main, process_events, main, serve, start}
use caos_seminars.Epoll.Loop.Safety.{first-Inv, process_events-Inv, Fine, main-Fine}
use caos_seminars.Tests.Loopback.{fresh, World, loopback, loopback_effects}

abbrev idle : View
idle = record {
  received = λ _. [];
  sent = λ _. [];
  is_open = λ _. false;
  watch = λ _. none;
  allocated = λ _. false;
}

abbrev bytes : List ℕ
bytes = 104 ∷ 101 ∷ 108 ∷ 108 ∷ 111 ∷ []

-- The kernel as the program starts: a connection with a first event comes, and then bytes.
abbrev readable : Events
readable = record in_out_events { epollrdhup = false }

abbrev at_start : World
at_start = fresh idle bytes ((3, in_events) ∷ (5, readable) ∷ [])

-- The listening socket is registered, and no client is there.
abbrev listening : View
listening = record idle { is_open = update idle.is_open 3 true }

abbrev empty_server : Server World
empty_server = record {
  heap = λ _. none;
  world = record at_start { view = record listening { watch = update listening.watch 3 (some 3) } };
}

empty_server-Inv : Inv 3 empty_server.heap empty_server.world.view
empty_server-Inv = first-Inv loopback loopback_effects 3 (omega arith) 3 listening refl refl refl

-- One client is there, with descriptor 5 and its object at the address 16.
one_client : Server World
one_client = accept_client loopback 3 4 empty_server

one_client-Inv : Inv 3 one_client.heap one_client.world.view
unfolding one_client
one_client-Inv =
    let served =
      accept_client-Served loopback loopback_effects 3 (omega arith) 4 empty_server
        empty_server-Inv in
    served.inv

one_client-watched : one_client.world.view.watch 5 ≡ some 16
unfolding one_client accept_client add_client disable_io_block
one_client-watched = refl

-- Data came in, and the client is ready for more.
abbrev ready : EpollEvent
ready = record { events = readable; word = 16 }

process_epoll_event-Serves_example :
    Serves loopback loopback_effects 3 5 one_client.world.view
      (process_epoll_event loopback ready 3 4 one_client)
process_epoll_event-Serves_example =
    process_epoll_event-Serves loopback loopback_effects 3 (omega arith) ready 5 4 one_client
      one_client-Inv one_client-watched

ready_served :
    (s' : Server World) × (process_events loopback (ready ∷ []) 3 4 one_client ≡ Run.done s')
    × Inv 3 s'.heap s'.world.view
ready_served =
    process_events-Inv loopback loopback_effects 3 (omega arith) (ready ∷ []) (5 ∷ []) 4 one_client
      one_client-Inv (one_client-watched, tt, tt)

-- The world of a program with its three standard descriptors open.
abbrev from_shell : World
from_shell = record at_start { view = record at_start.view { is_open = λ g. ltb g 3 } }

lowest_given :
    (fd g : ℕ) → (loopback.socket from_shell).0 ≡ FdResult.opened fd → g < fd → ltb g 3 ≡ true
lowest_given fd g got below = ground (arith, got, below)

main-Fine_example : Fine loopback loopback_effects (main loopback 5 7 2 8080 from_shell)
main-Fine_example =
    main-Fine loopback loopback_effects 5 7 2 8080 from_shell 3 refl (omega arith) refl lowest_given

server_socket_init-Ready_example :
    Ready loopback loopback_effects 8080 at_start (server_socket_init loopback 8080 at_start)
server_socket_init-Ready_example = server_socket_init-Ready loopback loopback_effects 8080 at_start

-- Three bytes of the buffer are not yet written back.
abbrev three_left : FdData
three_left = record {
  fd = 5;
  buffer = 1 ∷ 2 ∷ 3 ∷ 4 ∷ replicate 4092 0;
  buffer_begin = 1;
  buffer_end = 4;
}

three_left-IsBuffer : IsBuffer three_left
three_left-IsBuffer = record { block = refl; ordered = omega arith; within = omega arith }

read_buff-ReadBuff_example :
    let out = read_buff loopback.files three_left at_start in
    ReadBuff three_left idle out.0 out.1 out.2.view
read_buff-ReadBuff_example =
    read_buff-ReadBuff loopback loopback_effects three_left at_start three_left-IsBuffer

write_buff-WriteBuff_example :
    let out = write_buff loopback.files three_left at_start in
    WriteBuff three_left idle out.0 out.1 out.2.view
write_buff-WriteBuff_example =
    write_buff-WriteBuff loopback loopback_effects three_left at_start three_left-IsBuffer

-- The whole program: the five bytes come back.
echoed : Main World → List ℕ
echoed (Main.running s) = s.world.view.sent 5
echoed _ = []

main_echoes : echoed (main loopback 3 7 2 8080 at_start) ≡ bytes
unfolding echoed main start serve process_events process_epoll_event accept_client add_client
    disable_io_block client_event read_loop after_reads write_out read_buff write_buff after_read
    after_write server_socket_init configure
main_echoes = refl
