-- ===== src/Net/ForkServer.antt =====
-- sem10-net-sockets/snippets/tcp-fork/tcp_server.c: the quit command, the handler of SIGCHLD
-- and `main`, as the parent and as a child run it.
use caos_seminars.Prelude.{
  ℕ, zero, suc, Bool, true, false, List, [], ◌∷◌, Option, none, some, ◌==◌, if◌then◌else◌,
}
use caos_seminars.Kernel.{Kernel, FdResult}
use caos_seminars.Net.Socket.{Init, server_socket_init}
use caos_seminars.Net.Session.{Talk, session}
pub mod Parent
pub mod Reaper
pub mod Launch

-- `strcmp(a, b) == 0` of the C library, for arrays that hold a NUL: the bytes agree up to the first NUL.
abbrev pub same_string : List ℕ → List ℕ → Bool
same_string (x ∷ xs) (y ∷ ys) =
    let rest = same_string xs ys in if x == y then (if x == 0 then true else rest) else false
same_string _ _ = false

-- `strcmp(msg, "q") == 0`
abbrev pub is_q : (msg : List ℕ) (bytes_read : ℕ) → Bool
is_q msg bytes_read = same_string msg (113 ∷ 0 ∷ [])

-- The results of `fork`: 0, the child's number, or -1.
pub data Forked : Type 0 where
  child : Forked
  parent : (pid : ℕ) → Forked
  failed : Forked

-- `accepting` is the parent after the rounds that the loop was given, and `returned` the end of
-- the program before the loop. The others are a child.
pub data Process (W : Type 0) : Type 0 where
  accepting : (w : W) → Process W
  exited : (w : W) → Process W
  returned : (code : ℕ) (w : W) → Process W
  serving : (client_fd : ℕ) (w : W) → Process W
  out_of_fuel : Process W

module _ (K : Kernel) (fork : K.World → Forked × K.World) where
  open K use {World, accept, shutdown, close}

  -- The branch `pid == 0`. `msg` is what the array holds before it is first written.
  unfoldable pub run_child :
      (talks : ℕ) (msg : List ℕ) (server_fd client_fd : ℕ) → World → Process World
  run_child talks msg server_fd client_fd w =
      elim (session K.files is_q talks client_fd msg (close server_fd w)) [
        | Talk.ended w1 ↦ Process.exited (close client_fd (shutdown client_fd w1))
        | Talk.running _ w1 ↦ Process.serving client_fd w1
        | Talk.out_of_fuel ↦ Process.out_of_fuel
      ]

  -- The `while (true)`, for `rounds` rounds. EINTR and the other errors of `accept` differ in the
  -- message alone.
  unfoldable pub serve_forking :
      (rounds talks : ℕ) (msg : List ℕ) (server_fd : ℕ) → World → Process World
  serve_forking zero talks msg server_fd w = Process.accepting w
  serve_forking (suc rounds) talks msg server_fd w =
      let (result, w1) = accept server_fd w in
      elim result [
        | FdResult.failed _ ↦ serve_forking rounds talks msg server_fd w1
        | FdResult.opened client_fd ↦
            let (pid, w2) = fork w1 in
            elim pid [
              | Forked.child ↦ run_child talks msg server_fd client_fd w2
              | Forked.parent _ ↦ serve_forking rounds talks msg server_fd (close client_fd w2)
              | Forked.failed ↦ serve_forking rounds talks msg server_fd (close client_fd w2)
            ]
      ]

module _ (K : Kernel) (fork : K.World → Forked × K.World)
    (sigaction : K.World → Bool × K.World) where
  open K use {World}

  -- `port` is `atoi(argv[1])` as a `uint16_t`; `sigaction` is true if the handler was set.
  unfoldable pub main_forking :
      (rounds talks : ℕ) (msg : List ℕ) (argc port : ℕ) → World → Process World
  main_forking rounds talks msg argc port w =
      if argc == 2
      then (let (set, w1) = sigaction w in
          if set
          then elim (server_socket_init K port w1) [
            | Init.listening server_fd w2 ↦ serve_forking K fork rounds talks msg server_fd w2
            | Init.exited w2 ↦ Process.returned 1 w2
          ]
          else Process.returned 1 w1)
      else Process.returned 1 w

module _ {W : Type 0} (waitpid : W → Option ℕ × W) where
  -- The `while`, on fuel, with `waitpid(-1, NULL, WNOHANG)`: a positive number, or `none`.
  unfoldable pub sigchld_handler : (fuel : ℕ) → W → Option W
  sigchld_handler zero w = none
  sigchld_handler (suc fuel) w =
      let (pid, w') = waitpid w in elim pid [ some _ ↦ sigchld_handler fuel w' | none ↦ some w' ]
