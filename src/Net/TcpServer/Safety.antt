-- ===== src/Net/TcpServer/Safety.antt =====
-- The descriptors that `main` of tcp/tcp_server.c holds.
use caos_seminars.Prelude.{
  ℕ, zero, suc, ◌∷◌, [], if◌then◌else◌, ◌⊎◌, ◌≡◌, refl, sym, ap, ◌∙◌, inl, inr, Bool, true, false,
  List, ◌==◌, length, arith, Bool-cases,
}
use caos_seminars.Kernel.{Kernel, FdResult, update}
use caos_seminars.Kernel.Effects.{View, Effects, AfterAccept}
use caos_seminars.Net.Socket.{server_socket_init}
use caos_seminars.Net.Socket.Spec.{Ready, server_socket_init-Ready}
use caos_seminars.Net.Session.{Talk, buff_size, session}
use caos_seminars.Net.Session.Quit.{Tests, get_or-first, get_or-second}
use caos_seminars.Net.Session.Echo.{Talks, session-Talks}
use caos_seminars.Net.TcpServer.{Server, is_quit, serve, main}

-- On an array that `read_message` has filled, the test of tcp_server.c looks for a `q` that is the
-- whole message, or that a NUL follows in it.
pub is_quit-Tests : Tests is_quit
is_quit-Tests [] buff some_bytes m = absurd (omega arith)
is_quit-Tests (b ∷ []) buff some_bytes m = rw (get_or-first (b ∷ []) buff some_bytes m) refl
is_quit-Tests (b ∷ c ∷ bs) buff some_bytes m =
    let longer : (length (b ∷ c ∷ bs) == 1) ≡ false = ground arith in
    rw
      (
        get_or-first (b ∷ c ∷ bs) buff some_bytes m,
        get_or-second (b ∷ c ∷ bs) buff some_bytes m,
        longer,
      )
      refl

-- The same descriptors are open.
abbrev pub SameOpen : View → View → Type 0
SameOpen v v' = (g : ℕ) → v'.is_open g ≡ v.is_open g

-- Before the next `accept` the open descriptors are those of `v`, while a client is served its own
-- besides.
abbrev pub Holds : (K : Kernel) (E : Effects K) → View → Server K.World → Type 0
Holds K E v (Server.returned code w) = SameOpen v (E.view w)
Holds K E v (Server.accepting server_fd w) = SameOpen v (E.view w)
Holds K E v (Server.talking server_fd client_fd w) =
    (v.is_open client_fd ≡ false)
    × ((g : ℕ) → (E.view w).is_open g ≡ update v.is_open client_fd true g)
Holds K E v Server.out_of_fuel = ⊥

module _ (K : Kernel) (E : Effects K) where
  open K use {World}
  open E use {view, accept_law, shutdown_law, close_law}

  -- A client's descriptor is closed when its session has ended.
  reclosed :
      (fd : ℕ) (v : View) (w : World)
      → v.is_open fd ≡ false
      → ((g : ℕ) → (view w).is_open g ≡ update v.is_open fd true g)
      → SameOpen v (view (K.close fd (K.shutdown fd w)))
  reclosed fd v w new opened g =
      rw (close_law fd (K.shutdown fd w), shutdown_law fd w, opened g) (ground arith)

  Holds-same : (v v' : View) (s : Server World) → SameOpen v v' → Holds K E v' s → Holds K E v s
  Holds-same v v' (Server.returned code w) same h = λ g. h g ∙ same g
  Holds-same v v' (Server.accepting server_fd w) same h = λ g. h g ∙ same g
  Holds-same v v' (Server.talking server_fd fd w) same (new, opened) =
      (sym (same fd) ∙ new, λ g. opened g ∙ ap (λ b. if fd == g then true else b) (same g))
  Holds-same v v' Server.out_of_fuel same h = h

  -- A client is served, by the outcome of its session.
  serve_client :
      (rounds talks : ℕ) (msg : List ℕ) (server_fd fd : ℕ) (w w1 : World) (out : Talk World)
      → K.accept server_fd w ≡ (FdResult.opened fd, w1)
      → AfterAccept (view w) (FdResult.opened fd) (view w1)
      → session K.files is_quit talks fd msg w1 ≡ out
      → Talks K E talks fd (view w1) out
      → ((w' : World) → Holds K E (view w') (serve K rounds talks msg server_fd w'))
      → Holds K E (view w) (serve K (suc rounds) talks msg server_fd w)
  unfolding serve
  serve_client rounds talks msg server_fd fd w w1 (Talk.running msg' w2) e (new, law) s talk again =
      rw (e, serve, e, s)
        (
          new,
          λ g. ap (λ (f : ℕ → Bool). f g) (talk.1.0.same_open) ∙ ap (λ (v : View). v.is_open g) law,
        )
  serve_client rounds talks msg server_fd fd w w1 (Talk.ended w2) e (new, law) s (last, why, echo)
        again =
      rw (e, serve, e, s)
        (Holds-same (view w) (view (K.close fd (K.shutdown fd w2))) _
          (reclosed fd (view w) w2 new
            (λ g. ap (λ (f : ℕ → Bool). f g) echo.same_open ∙ ap (λ (v : View). v.is_open g) law))
          (again _))
  serve_client rounds talks msg server_fd fd w w1 Talk.out_of_fuel e law s talk again = absurd talk

  serve_round :
      (rounds talks : ℕ) (msg : List ℕ) (server_fd : ℕ) (w : World) (result : FdResult) (w1 : World)
      → length msg ≡ buff_size
      → K.accept server_fd w ≡ (result, w1)
      → AfterAccept (view w) result (view w1)
      → ((w' : World) → Holds K E (view w') (serve K rounds talks msg server_fd w'))
      → Holds K E (view w) (serve K (suc rounds) talks msg server_fd w)
  unfolding serve
  serve_round rounds talks msg server_fd w (FdResult.failed err) w1 size e law again =
      rw (e, serve, e)
        (Holds-same (view w) (view w1) _ (λ g. ap (λ (v : View). v.is_open g) law) (again w1))
  serve_round rounds talks msg server_fd w (FdResult.opened fd) w1 size e law again =
      serve_client rounds talks msg server_fd fd w w1 _ e law refl
        (session-Talks K E is_quit is_quit-Tests talks fd msg w1 size) again

  serve-Holds :
      (rounds talks : ℕ) (msg : List ℕ) (server_fd : ℕ) (w : World)
      → length msg ≡ buff_size
      → Holds K E (view w) (serve K rounds talks msg server_fd w)
  unfolding serve
  serve-Holds zero talks msg server_fd w size = λ g. refl
  serve-Holds (suc rounds) talks msg server_fd w size =
      serve_round rounds talks msg server_fd w _ _ size refl (accept_law server_fd w)
        (λ w'. serve-Holds rounds talks msg server_fd w' size)

  -- Nothing is left open, or the listening descriptor alone, and a client's while it is served.
  abbrev pub Balanced : (first : World) → Server World → Type 0
  Balanced first out =
      ((w : World) × (out ≡ Server.returned 1 w) × SameOpen (view first) (view w))
      ⊎ ((server_fd : ℕ) × ((view first).is_open server_fd ≡ false)
          × Holds K E (record (view first) { is_open = update (view first).is_open server_fd true })
              out)

  main_listening :
      (rounds talks : ℕ) (msg : List ℕ) (port : ℕ) (w : World)
      → length msg ≡ buff_size
      → Ready K E port w (server_socket_init K port w)
      → Balanced w (main K rounds talks msg 2 port w)
  unfolding main
  main_listening rounds talks msg port w size (Ready.exited w1 e same _) =
      rw e (inl (w1, refl, same))
  main_listening rounds talks msg port w size (Ready.listening fd w1 e got new small law _) =
      rw e (inr (fd, new, rw law at (serve-Holds rounds talks msg fd w1 size)))

  -- However long `main` runs, it never runs out of fuel in `write_message`. It has returned 1 with
  -- the descriptors open that were open before, or it holds one more, the listening one, and
  -- that of a client just while the client is served.
  pub main-Balanced :
      (rounds talks : ℕ) (msg : List ℕ) (argc port : ℕ) (w : World)
      → length msg ≡ buff_size
      → Balanced w (main K rounds talks msg argc port w)
  unfolding main
  main-Balanced rounds talks msg argc port w size = elim (Bool-cases (argc == 2)) [
    | inl two ↦
        rw two (main_listening rounds talks msg port w size (server_socket_init-Ready K E port w))
    | inr other ↦ rw other (inl (w, refl, λ g. refl))
  ]
