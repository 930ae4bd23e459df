-- ===== src/Net/Socket/Spec.antt =====
-- What `server_socket_init` of sem10-net-sockets leaves open.
use caos_seminars.Prelude.{
  ℕ, ◌^◌, ◌<◌, ◌≡◌, refl, ap, ◌∙◌, inl, inr, Bool, true, false, arith, Bool-cases,
}
use caos_seminars.Posix.{Errno}
use caos_seminars.Kernel.{Kernel, FdResult, update}
use caos_seminars.Kernel.Effects.{View, Effects, AfterSocket}
use caos_seminars.Net.Socket.{Init, configure, server_socket_init}

module _ (K : Kernel) (E : Effects K) where
  open K use {World}
  open E use {view, socket_law, setsockopt_law, bind_law, listen_law, close_law}

  -- `socket`, `setsockopt`, `bind` and `listen` have succeeded, one after the other.
  pub record Configured (port : ℕ) (first : World) (fd : ℕ) (w : World) : Type 0 where
    pub w1 : World
    pub w2 : World
    pub w3 : World
    pub got : K.socket first ≡ (FdResult.opened fd, w1)
    pub optioned : K.setsockopt fd w1 ≡ (true, w2)
    pub bound : K.bind fd port w2 ≡ (true, w3)
    pub heard : K.listen fd w3 ≡ (true, w)

  -- The call that makes the program exit in the world `w`.
  pub data Failure (port : ℕ) (first : World) : (w : World) → Type 0 where
    no_socket :
        (e : Errno) (w : World) → K.socket first ≡ (FdResult.failed e, w) → Failure port first w
    no_option :
        (fd : ℕ) (w1 w2 : World)
        → K.socket first ≡ (FdResult.opened fd, w1)
        → K.setsockopt fd w1 ≡ (false, w2)
        → Failure port first (K.close fd w2)
    no_bind :
        (fd : ℕ) (w1 w2 w3 : World)
        → K.socket first ≡ (FdResult.opened fd, w1)
        → K.setsockopt fd w1 ≡ (true, w2)
        → K.bind fd port w2 ≡ (false, w3)
        → Failure port first (K.close fd w3)
    no_listen :
        (fd : ℕ) (w1 w2 w3 w4 : World)
        → K.socket first ≡ (FdResult.opened fd, w1)
        → K.setsockopt fd w1 ≡ (true, w2)
        → K.bind fd port w2 ≡ (true, w3)
        → K.listen fd w3 ≡ (false, w4)
        → Failure port first (K.close fd w4)

  -- From the world `first`: each call has succeeded, and a new descriptor is open and listens; or one
  -- has failed, the program exits and every descriptor is open or closed as before.
  pub data Ready (port : ℕ) (first : World) (run : Init World) : Type 0 where
    listening :
        (fd : ℕ) (w : World)
        → run ≡ Init.listening fd w
        → (K.socket first).0 ≡ FdResult.opened fd
        → (view first).is_open fd ≡ false
        → fd < 2 ^ 31
        → view w ≡ record (view first) { is_open = update (view first).is_open fd true }
        → Configured port first fd w
        → Ready port first run
    exited :
        (w : World)
        → run ≡ Init.exited w
        → ((g : ℕ) → (view w).is_open g ≡ (view first).is_open g)
        → Failure port first w
        → Ready port first run

  -- A call whose result is a Boolean.
  resulted : (call : Bool × World) (b : Bool) → call.0 ≡ b → call ≡ (b, call.1)
  resulted (c, w) b e = ap (λ d. (d, w)) e

  module _ (first : World) (fd : ℕ) (w : World) (got : K.socket first ≡ (FdResult.opened fd, w))
      (shut : (view first).is_open fd ≡ false) (small : fd < 2 ^ 31) where
    abbrev v : View
    v = view first

    reopened :
        (w : World)
        → view w ≡ record v { is_open = update v.is_open fd true }
        → (g : ℕ) → (view (K.close fd w)).is_open g ≡ v.is_open g
    reopened w e g = rw (close_law fd w, e) (ground arith)

    configure-Ready :
        (port : ℕ)
        → view w ≡ record v { is_open = update v.is_open fd true }
        → Ready port first (configure K fd port w)
    unfolding configure
    configure-Ready port e =
        let w1 = (K.setsockopt fd w).1 in
        let w2 = (K.bind fd port w1).1 in
        let w3 = (K.listen fd w2).1 in
        let e1 = setsockopt_law fd w ∙ e in
        let e2 = bind_law fd port w1 ∙ e1 in
        let e3 = listen_law fd w2 ∙ e2 in
        elim (Bool-cases (K.setsockopt fd w).0) [
          | inr unset ↦
              exited (K.close fd w1) (rw (unset, configure)) (reopened w1 e1)
                (Failure.no_option fd w w1 got (resulted _ false unset))
          | inl optioned ↦ elim (Bool-cases (K.bind fd port w1).0) [
            | inr unbound ↦
                exited (K.close fd w2) (rw (optioned, configure, unbound)) (reopened w2 e2) (
                  Failure.no_bind fd w w1 w2 got (resulted _ true optioned)
                    (resulted _ false unbound))
            | inl bound ↦ elim (Bool-cases (K.listen fd w2).0) [
              | inr unheard ↦
                  exited (K.close fd w3) (rw (optioned, configure, bound, unheard)) (reopened w3 e3)
                    (Failure.no_listen fd w w1 w2 w3 got (resulted _ true optioned)
                      (resulted _ true bound) (resulted _ false unheard))
              | inl heard ↦
                  listening fd w3 (rw (optioned, configure, bound, heard))
                    (ap (λ (r : FdResult × World). r.0) got) shut small e3
                    (record {
                      w1 = w;
                      w2 = w1;
                      w3 = w2;
                      got = got;
                      optioned = resulted _ true optioned;
                      bound = resulted _ true bound;
                      heard = resulted _ true heard;
                    })
            ]
          ]
        ]

  -- By the result of `socket`.
  socket-Ready :
      (port : ℕ) (w : World) (result : FdResult) (w1 : World)
      → K.socket w ≡ (result, w1)
      → AfterSocket (view w) result (view w1)
      → Ready port w (server_socket_init K port w)
  unfolding server_socket_init
  socket-Ready port w (FdResult.failed e) w1 s law =
      exited w1 (rw (s, server_socket_init, s)) (λ g. ap (λ (v : View). v.is_open g) law)
        (Failure.no_socket e w1 s)
  socket-Ready port w (FdResult.opened fd) w1 s (shut, small, e) =
      rw (s, server_socket_init, s) (configure-Ready w fd w1 s shut small port e)

  -- If `socket`, `setsockopt`, `bind` or `listen` fails, `server_socket_init` exits there, with no
  -- descriptor of its own left open; if all of them succeed, it returns the descriptor that `socket`
  -- has opened, and has opened no other.
  pub server_socket_init-Ready : (port : ℕ) (w : World) → Ready port w (server_socket_init K port w)
  server_socket_init-Ready port w =
      socket-Ready port w (K.socket w).0 (K.socket w).1 refl (socket_law w)
