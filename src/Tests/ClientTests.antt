-- ===== src/Tests/ClientTests.antt =====
-- The TCP client and the UDP server on the loopback kernel.
use caos_seminars.Prelude.{ℕ, ◌≡◌, refl, Bool, true, false, none, List, [], ◌∷◌, arith, replicate}
use caos_seminars.Bytes.{cstring}
use caos_seminars.Kernel.Effects.{View}
use caos_seminars.Net.Client
use caos_seminars.Net.Client.Lines.{typed, script}
use caos_seminars.Net.Client.Safety.{Ended, main-Ended}
use caos_seminars.Net.Datagrams.{Datagram}
use caos_seminars.Net.UdpServer
use caos_seminars.Net.UdpServer.Safety.{Runs, main-Runs}
use caos_seminars.Net.UdpClient
use caos_seminars.Net.UdpClient.Safety.{AsksFrom, main-Asks}
use caos_seminars.Net.UdpEcho.{Echoed, behind_client, ask-Echoed}
use caos_seminars.Tests.Loopback.{World, fresh, loopback, loopback_effects, datagrams, traffic}

abbrev idle : View
idle = record {
  received = λ _. [];
  sent = λ _. [];
  is_open = λ _. false;
  watch = λ _. none;
  allocated = λ _. false;
}

-- A greeting, an empty line, the command to quit, and a line behind it.
abbrev lines : List (List ℕ)
lines = (104 ∷ 105 ∷ []) ∷ [] ∷ (113 ∷ []) ∷ (120 ∷ []) ∷ []

abbrev answering : World
answering = fresh idle (72 ∷ 73 ∷ []) []

abbrev connect : (fd : ℕ) → World → Bool × World
connect fd w = (true, w)

main-Ended_example :
    Ended loopback loopback_effects connect 3 true
      (script lines)
      answering
      (Client.main loopback connect 9 3 true (typed lines) answering)
main-Ended_example =
    main-Ended loopback loopback_effects connect (λ fd w. refl) 9 3 true lines answering
      (ground arith) (omega arith)

abbrev sent_by : Client.Exit World → List ℕ
sent_by (Client.Exit.returned code w) = w.view.sent 3
sent_by Client.Exit.out_of_fuel = []

-- The command to quit is sent, and the line behind it is not.
client_sends :
    sent_by (Client.main loopback connect 9 3 true (typed lines) answering) ≡ 104 ∷ 105 ∷ 113 ∷ []
unfolding Client.main Client.dial Client.chat Client.fgets Client.line_of cstring Client.chomp
client_sends = refl

-- Two datagrams, and an empty one, which ends the server.
abbrev posted : World
posted = record (fresh idle [] []) {
  mail =
      record { peer = 7; bytes = 1 ∷ 2 ∷ [] }
      ∷ record { peer = 8; bytes = 3 ∷ [] }
      ∷ record { peer = 9; bytes = [] }
      ∷ record { peer = 7; bytes = 4 ∷ [] }
      ∷ [];
}

abbrev array : List ℕ
array = replicate 4096 0

main-Runs_example :
    Runs loopback loopback_effects datagrams traffic 5 8080 posted
      (UdpServer.main loopback datagrams 5 array 8080 posted)
main-Runs_example = main-Runs loopback loopback_effects datagrams traffic 5 array 8080 posted refl

abbrev said_by : UdpServer.Server World → List Datagram
said_by (UdpServer.Server.returned code w) = w.said 3
said_by (UdpServer.Server.receiving fd buff w) = []

udp_echoes :
    said_by (UdpServer.main loopback datagrams 5 array 8080 posted)
    ≡ record { peer = 7; bytes = 1 ∷ 2 ∷ [] } ∷ record { peer = 8; bytes = 3 ∷ [] } ∷ []
unfolding UdpServer.main UdpServer.serve
udp_echoes = refl

-- Two words with white space around them, to the server 5, and an answer to each.
abbrev typing : List (List ℕ × List ℕ)
typing = (104 ∷ 105 ∷ [], 32 ∷ 9 ∷ []) ∷ (121 ∷ [], 10 ∷ []) ∷ []

abbrev replying : World
replying = record (fresh idle [] []) {
  mail = record { peer = 5; bytes = 1 ∷ [] } ∷ record { peer = 5; bytes = 2 ∷ [] } ∷ [];
}

main-Asks_example :
    AsksFrom loopback loopback_effects datagrams traffic 5
      ((104 ∷ 105 ∷ []) ∷ (121 ∷ []) ∷ [])
      replying
      (UdpClient.main loopback datagrams 3 5 (10 ∷ 104 ∷ 105 ∷ 32 ∷ 9 ∷ 121 ∷ 10 ∷ []) replying)
main-Asks_example =
    main-Asks loopback loopback_effects datagrams traffic 3 5 (10 ∷ []) typing replying (refl, tt)
      (ground arith) (omega arith)

abbrev said_by_client : UdpClient.Exit World → List Datagram
said_by_client (UdpClient.Exit.returned code w) = w.said 3
said_by_client UdpClient.Exit.overrun = []
said_by_client UdpClient.Exit.out_of_fuel = []

udp_client_sends :
    said_by_client
      (UdpClient.main loopback datagrams 3 5 (10 ∷ 104 ∷ 105 ∷ 32 ∷ 9 ∷ 121 ∷ 10 ∷ []) replying)
    ≡ record { peer = 5; bytes = 104 ∷ 105 ∷ [] } ∷ record { peer = 5; bytes = 121 ∷ [] } ∷ []
unfolding UdpClient.main UdpClient.ask UdpClient.scanf UdpClient.skip UdpClient.word_of
    UdpClient.next_word cstring
udp_client_sends = refl

-- The words of `typing` at the server, sent by the client 7; the client gets their echoes.
abbrev asked_server : World
asked_server = record (fresh idle [] []) {
  mail = record { peer = 7; bytes = 104 ∷ 105 ∷ [] } ∷ record { peer = 7; bytes = 121 ∷ [] } ∷ [];
}

abbrev echoed_client : World
echoed_client = record (fresh idle [] []) {
  mail = record { peer = 5; bytes = 104 ∷ 105 ∷ [] } ∷ record { peer = 5; bytes = 121 ∷ [] } ∷ [];
}

abbrev typed_bytes : List ℕ
typed_bytes = 10 ∷ 104 ∷ 105 ∷ 32 ∷ 9 ∷ 121 ∷ 10 ∷ []

ask-Echoed_example :
    let exit = UdpClient.ask loopback datagrams 3 3 5 typed_bytes echoed_client in
    let w' = behind_client echoed_client exit in
    (exit ≡ UdpClient.Exit.returned 0 w')
    × Echoed loopback datagrams 3 ((104 ∷ 105 ∷ []) ∷ (121 ∷ []) ∷ []) (w'.heard 3)
unfolding UdpClient.ask UdpClient.scanf UdpClient.skip UdpClient.word_of UdpClient.next_word
    UdpServer.serve cstring
ask-Echoed_example =
    ask-Echoed loopback loopback_effects datagrams traffic loopback loopback_effects datagrams
      traffic (λ fd bytes peer w. refl) (λ fd bytes peer w. refl) 3 3 5 (10 ∷ []) typing
      echoed_client 2 4 7 array asked_server [] (refl, tt) (ground arith) (omega arith) refl
      (refl, refl, refl, refl) refl refl
