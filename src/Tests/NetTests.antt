-- ===== src/Tests/NetTests.antt =====
-- The servers over TCP on the loopback kernel: the theorems at a client that says hello.
use caos_seminars.Prelude.{
  true, Option, ◌==◌, ◌-◌, if◌then◌else◌, Bool-cases, inl, inr, ℕ, ◌≡◌, refl, false, none, some,
  List, [], ◌∷◌, ◌++◌, arith, replicate,
}
use caos_seminars.Kernel.Effects.{View}
use caos_seminars.Net.Message.{terminate, read_message, write_loop, write_message}
use caos_seminars.Net.Message.Spec.{IsMessage, Reads, read_message-Reads}
use caos_seminars.Net.Message.Write.{Writes, write_message-Writes}
use caos_seminars.Net.Session.{session}
use caos_seminars.Net.Session.Echo.{Talks, session-Talks}
use caos_seminars.Net.Socket.{configure, server_socket_init}
use caos_seminars.Net.TcpServer.{is_quit, Server, serve, main}
use caos_seminars.Net.TcpServer.Safety.{is_quit-Tests, Balanced, main-Balanced}
use caos_seminars.Net.ForkServer.Launch.{Launched, main_forking-Launched}
use caos_seminars.Net.ForkServer.Reaper.{sigchld_handler-reaps, AfterWait}
use caos_seminars.Net.ForkServer.{sigchld_handler, main_forking, Forked, is_q}
use caos_seminars.Net.ForkServer.Parent.{is_q-is_quit}
use caos_seminars.Tests.Loopback.{World, fresh, loopback, loopback_effects}

abbrev quiet : View
quiet = record {
  received = λ _. [];
  sent = λ _. [];
  is_open = λ _. false;
  watch = λ _. none;
  allocated = λ _. false;
}

abbrev hello : List ℕ
hello = 104 ∷ 101 ∷ 108 ∷ 108 ∷ 111 ∷ []

abbrev dialled : World
dialled = fresh quiet hello []

abbrev blank : List ℕ
blank = replicate 4096 0

read_message_hears :
    let (n, buff, w) = read_message loopback.files 5 (replicate 8 7) 8 dialled in
    Reads 5 (replicate 8 7) quiet n buff w.view
read_message_hears =
    read_message-Reads loopback loopback_effects 5 (replicate 8 7) dialled (omega arith)

read_message_terminates :
    let (n, buff, w) = read_message loopback.files 5 (replicate 8 7) 8 dialled in
    buff ≡ hello ++ (0 ∷ 7 ∷ 7 ∷ [])
unfolding read_message terminate
read_message_terminates = refl

write_message_sends :
    (w : World) × (write_message loopback.files 5 hello 4 dialled ≡ some w)
    × Writes loopback 5 hello 0 4 quiet w.view
write_message_sends = write_message-Writes loopback loopback_effects 5 hello 4 dialled

session-Talks_example :
    Talks loopback loopback_effects 3 5 quiet (session loopback.files is_quit 3 5 blank dialled)
session-Talks_example =
    session-Talks loopback loopback_effects is_quit is_quit-Tests 3 5 blank dialled refl

main-Balanced_example :
    Balanced loopback loopback_effects dialled (main loopback 1 3 blank 2 8080 dialled)
main-Balanced_example = main-Balanced loopback loopback_effects 1 3 blank 2 8080 dialled refl

-- The whole program: the greeting comes back.
echoed : Server World → List ℕ
echoed (Server.accepting _ w) = w.view.sent 5
echoed _ = []

main_echoes : echoed (main loopback 1 3 blank 2 8080 dialled) ≡ hello
unfolding echoed main serve session read_message terminate write_message write_loop
    server_socket_init configure
main_echoes = refl

hello-IsMessage : IsMessage hello (hello ++ (0 ∷ 7 ∷ []))
hello-IsMessage = record { content = refl; terminated = refl }

is_q-hello : is_q (hello ++ (0 ∷ 7 ∷ [])) 5 ≡ is_quit (hello ++ (0 ∷ 7 ∷ [])) 5
is_q-hello = is_q-is_quit hello (hello ++ (0 ∷ 7 ∷ [])) (omega arith) hello-IsMessage

-- The child's side.
abbrev fork : World → Forked × World
fork w = (Forked.child, w)

main_forking-Launched_example :
    Launched loopback loopback_effects quiet
      (main_forking loopback fork (λ w. (true, w)) 1 3 blank 2 8080 dialled)
main_forking-Launched_example =
    main_forking-Launched loopback loopback_effects fork (λ w. refl) (λ w. (true, w)) (λ w. refl) 1
      3 blank 2 8080 dialled refl

-- A system whose state is the number of children that have ended.
abbrev waitpid : ℕ → Option ℕ × ℕ
waitpid w = if w == 0 then (none, 0) else (some w, w - 1)

waitpid_law : (w : ℕ) → AfterWait w (waitpid w).0 (waitpid w).1
waitpid_law w = elim (Bool-cases (w == 0)) [
  | inl over ↦ rw over (ground arith, refl)
  | inr more ↦ rw more (ground arith)
]

sigchld_handler-reaps_example : (w : ℕ) × (sigchld_handler waitpid 4 3 ≡ some w) × (w ≡ 0)
sigchld_handler-reaps_example = sigchld_handler-reaps waitpid (λ w. w) waitpid_law 4 3 (omega arith)
