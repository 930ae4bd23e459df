-- ===== src/Net/ForkServer/Launch.antt =====
-- The descriptors that the processes of `main` of tcp-fork/tcp_server.c hold.
use caos_seminars.Prelude.{
  inl, inr, ◌⊎◌, Bool-cases, ℕ, ◌≡◌, refl, ap, Bool, true, false, List, ◌==◌, length,
}
use caos_seminars.Kernel.{Kernel, update}
use caos_seminars.Kernel.Effects.{View, Effects}
use caos_seminars.Net.Session.{buff_size}
use caos_seminars.Net.Socket.{server_socket_init}
use caos_seminars.Net.Socket.Spec.{Ready, server_socket_init-Ready}
use caos_seminars.Net.ForkServer.{main_forking, Forked, Process}
use caos_seminars.Net.ForkServer.Parent.{ForkLaw, Shares, serve_forking-Shares}

-- The program has returned 1 with the descriptors open that were open before, or a process goes on
-- from a server that holds one more, the listening one.
abbrev pub Launched : (K : Kernel) (E : Effects K) → View → Process K.World → Type 0
Launched K E v out =
    ((w : K.World) × (out ≡ Process.returned 1 w) × ((g : ℕ) → (E.view w).is_open g ≡ v.is_open g))
    ⊎ ((server_fd : ℕ) × (v.is_open server_fd ≡ false)
        × Shares K E server_fd (record v { is_open = update v.is_open server_fd true }) out)

module _ (K : Kernel) (E : Effects K) (fork : K.World → Forked × K.World)
    (fork_law : ForkLaw K E fork) (sigaction : K.World → Bool × K.World)
    (sigaction_law : (w : K.World) → E.view (sigaction w).1 ≡ E.view w) where
  open K use {World}
  open E use {view}

  -- The handler is set; what follows, by the outcome of `server_socket_init`.
  launched :
      (rounds talks : ℕ) (msg : List ℕ) (port : ℕ) (w : World)
      → length msg ≡ buff_size
      → (sigaction w).0 ≡ true
      → Ready K E port (sigaction w).1 (server_socket_init K port (sigaction w).1)
      → Launched K E
          (view (sigaction w).1)
          (main_forking K fork sigaction rounds talks msg 2 port w)
  unfolding main_forking
  launched rounds talks msg port w size set (Ready.exited w2 e same _) =
      rw (set, e) (inl (w2, refl, same))
  launched rounds talks msg port w size set (Ready.listening fd w2 e got new small law _) =
      rw (set, e)
        (inr
          (fd, new, rw law at (serve_forking-Shares K E fork fork_law rounds talks msg fd w2 size)))

  -- However long `main` of tcp-fork/tcp_server.c runs, whichever process it is in: it has returned 1
  -- and left nothing open, or the parent holds the listening descriptor and no client's, and
  -- a child its client's and not the listening one, or neither when it has exited.
  pub main_forking-Launched :
      (rounds talks : ℕ) (msg : List ℕ) (argc port : ℕ) (w : World)
      → length msg ≡ buff_size
      → Launched K E (view w) (main_forking K fork sigaction rounds talks msg argc port w)
  unfolding main_forking
  main_forking-Launched rounds talks msg argc port w size = elim (Bool-cases (argc == 2)) [
    | inl two ↦ elim (Bool-cases (sigaction w).0) [
      | inl set ↦ rw two (
          rw (sigaction_law w) at (
            launched rounds talks msg port w size set
              (server_socket_init-Ready K E port (sigaction w).1)))
      | inr unset ↦
          rw (two, unset)
            (inl ((sigaction w).1, refl, λ g. ap (λ (v : View). v.is_open g) (sigaction_law w)))
    ]
    | inr other ↦ rw other (inl (w, refl, λ g. refl))
  ]
