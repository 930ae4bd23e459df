-- ===== src/Net/ForkServer/Parent.antt =====
-- The descriptors that the processes of tcp-fork/tcp_server.c hold.
use caos_seminars.Prelude.{
  ◌<◌, ℕ, zero, suc, ◌≡◌, refl, sym, ap, ◌∙◌, Bool, true, false, List, ◌==◌, length, arith, [], ◌∷◌,
  if◌then◌else◌,
}
use caos_seminars.Kernel.{Kernel, FdResult, update}
use caos_seminars.Kernel.Effects.{View, Effects, AfterAccept}
use caos_seminars.Net.Session.{Talk, buff_size, session}
use caos_seminars.Net.Session.Quit.{Tests, get_or-first, get_or-second}
use caos_seminars.Net.Session.Echo.{Talks, session-Talks}
use caos_seminars.Net.Message.Spec.{IsMessage}
use caos_seminars.Net.TcpServer.{is_quit}
use caos_seminars.Net.TcpServer.Safety.{is_quit-Tests}
use caos_seminars.Net.ForkServer.{Forked, Process, is_q, run_child, serve_forking}

-- `strcmp` on an array that `read_message` has filled looks for a `q` that is the whole message,
-- or that a NUL follows in it.
pub is_q-Tests : Tests is_q
is_q-Tests bytes [] some_bytes m = rw (← get_or-first bytes [] some_bytes m) refl
is_q-Tests [] (x ∷ []) some_bytes m = absurd (omega arith)
is_q-Tests (b ∷ bs) (x ∷ []) some_bytes m = absurd (omega (arith, m.terminated))
is_q-Tests bytes (x ∷ y ∷ ys) some_bytes m =
    let first = get_or-first bytes (x ∷ y ∷ ys) some_bytes m in
    let second = get_or-second bytes (x ∷ y ∷ ys) some_bytes m in
    rw (← first, ← second) (ground arith)

-- What the manual page says of `fork`: both processes go on with the same descriptors.
abbrev pub ForkLaw : (K : Kernel) → Effects K → (K.World → Forked × K.World) → Type 0
ForkLaw K E fork = (w : K.World) → E.view (fork w).1 ≡ E.view w

-- The parent holds what it held. A child that has exited has closed its two descriptors, and one
-- that serves its client holds the client's in place of the listening one.
abbrev pub Shares : (K : Kernel) (E : Effects K) (server_fd : ℕ) → View → Process K.World → Type 0
Shares K E server_fd v (Process.accepting w) = (g : ℕ) → (E.view w).is_open g ≡ v.is_open g
Shares K E server_fd v (Process.exited w) =
    (g : ℕ) → (E.view w).is_open g ≡ update v.is_open server_fd false g
Shares K E server_fd v (Process.returned code w) = (g : ℕ) → (E.view w).is_open g ≡ v.is_open g
Shares K E server_fd v (Process.serving client_fd w) =
    (v.is_open client_fd ≡ false)
    × ((g : ℕ) → (E.view w).is_open g ≡ update (update v.is_open client_fd true) server_fd false g)
Shares K E server_fd v Process.out_of_fuel = ⊥

module _ (K : Kernel) (E : Effects K) (fork : K.World → Forked × K.World)
    (fork_law : ForkLaw K E fork) where
  open K use {World}
  open E use {view, accept_law, shutdown_law, close_law}

  run_child-Shares :
      (talks : ℕ) (msg : List ℕ) (server_fd fd : ℕ) (v : View) (w : World)
      → length msg ≡ buff_size
      → v.is_open fd ≡ false
      → (view w).is_open ≡ update v.is_open fd true
      → Shares K E server_fd v (run_child K fork talks msg server_fd fd w)
  unfolding run_child
  run_child-Shares talks msg server_fd fd v w size new opened =
      go _ refl (session-Talks K E is_q is_q-Tests talks fd msg (K.close server_fd w) size)
    where
      shut :
          (g : ℕ)
          → (view (K.close server_fd w)).is_open g
            ≡ update (update v.is_open fd true) server_fd false g
      shut g = rw (close_law server_fd w, opened) refl

      go :
          (out : Talk World)
          → session K.files is_q talks fd msg (K.close server_fd w) ≡ out
          → Talks K E talks fd (view (K.close server_fd w)) out
          → Shares K E server_fd v (run_child K fork talks msg server_fd fd w)
      go (Talk.ended w1) e (last, why, echo) =
          rw (run_child, e)
            (λ g.
              rw (close_law fd (K.shutdown fd w1), shutdown_law fd w1, echo.same_open, shut)
                (ground arith))
      go (Talk.running msg' w1) e (same, (echo, all)) =
          rw (run_child, e) (new, λ g. ap (λ (f : ℕ → Bool). f g) echo.same_open ∙ shut g)
      go Talk.out_of_fuel e talk = absurd talk

  Shares-same :
      (server_fd : ℕ) (v v' : View) (p : Process World)
      → ((g : ℕ) → v'.is_open g ≡ v.is_open g)
      → Shares K E server_fd v' p
      → Shares K E server_fd v p
  Shares-same server_fd v v' (Process.accepting w) same h = λ g. h g ∙ same g
  Shares-same server_fd v v' (Process.returned code w) same h = λ g. h g ∙ same g
  Shares-same server_fd v v' (Process.exited w) same h =
      λ g. h g ∙ ap (λ b. if server_fd == g then false else b) (same g)
  Shares-same server_fd v v' (Process.serving fd w) same (new, opened) = (
    sym (same fd) ∙ new,
    λ g.
        opened g ∙ ap (λ b. if server_fd == g then false else if fd == g then true else b) (same g),
  )
  Shares-same server_fd v v' Process.out_of_fuel same h = h

  -- The parent's side of `fork`, and of a `fork` that failed.
  parted :
      (fd : ℕ) (v : View) (w : World)
      → v.is_open fd ≡ false
      → (view w).is_open ≡ update v.is_open fd true
      → (g : ℕ) → (view (K.close fd w)).is_open g ≡ v.is_open g
  parted fd v w new opened g = rw (close_law fd w, opened) (ground arith)

  -- A client is accepted, by the result of `fork`.
  forked :
      (rounds talks : ℕ) (msg : List ℕ) (server_fd fd : ℕ) (w w1 : World) (pid : Forked)
      (w2 : World)
      → length msg ≡ buff_size
      → K.accept server_fd w ≡ (FdResult.opened fd, w1)
      → fork w1 ≡ (pid, w2)
      → (view w).is_open fd ≡ false
      → (view w2).is_open ≡ update (view w).is_open fd true
      → ((w' : World)
          → Shares K E server_fd (view w') (serve_forking K fork rounds talks msg server_fd w'))
      → Shares K E server_fd (view w) (serve_forking K fork (suc rounds) talks msg server_fd w)
  unfolding serve_forking
  forked rounds talks msg server_fd fd w w1 Forked.child w2 size e f new opened again =
      rw (e, serve_forking, e, f, e, f)
        (run_child-Shares talks msg server_fd fd (view w) w2 size new opened)
  forked rounds talks msg server_fd fd w w1 (Forked.parent pid) w2 size e f new opened again =
      rw (e, serve_forking, e, f, e, f)
        (Shares-same server_fd (view w) (view (K.close fd w2)) _ (parted fd (view w) w2 new opened)
          (again _))
  forked rounds talks msg server_fd fd w w1 Forked.failed w2 size e f new opened again =
      rw (e, serve_forking, e, f, e, f)
        (Shares-same server_fd (view w) (view (K.close fd w2)) _ (parted fd (view w) w2 new opened)
          (again _))

  serve_forking_round :
      (rounds talks : ℕ) (msg : List ℕ) (server_fd : ℕ) (w : World) (result : FdResult) (w1 : World)
      → length msg ≡ buff_size
      → K.accept server_fd w ≡ (result, w1)
      → AfterAccept (view w) result (view w1)
      → ((w' : World)
          → Shares K E server_fd (view w') (serve_forking K fork rounds talks msg server_fd w'))
      → Shares K E server_fd (view w) (serve_forking K fork (suc rounds) talks msg server_fd w)
  unfolding serve_forking
  serve_forking_round rounds talks msg server_fd w (FdResult.failed err) w1 size e law again =
      rw (e, serve_forking, e)
        (Shares-same server_fd (view w) (view w1) _ (λ g. ap (λ (v : View). v.is_open g) law)
          (again w1))
  serve_forking_round rounds talks msg server_fd w (FdResult.opened fd) w1 size e (new, law) again =
      forked rounds talks msg server_fd fd w w1 _ _ size e refl new
        (ap (λ (v : View). v.is_open) (fork_law w1 ∙ law)) again

  -- For any number of rounds: the parent holds the descriptors that it held before, whether `accept`
  -- or `fork` failed or not. A child that has exited has closed the listening descriptor and its
  -- client's; one that is serving has closed the listening one.
  pub serve_forking-Shares :
      (rounds talks : ℕ) (msg : List ℕ) (server_fd : ℕ) (w : World)
      → length msg ≡ buff_size
      → Shares K E server_fd (view w) (serve_forking K fork rounds talks msg server_fd w)
  unfolding serve_forking
  serve_forking-Shares zero talks msg server_fd w size = λ g. refl
  serve_forking-Shares (suc rounds) talks msg server_fd w size =
      serve_forking_round rounds talks msg server_fd w _ _ size refl (accept_law server_fd w)
        (λ w'. serve_forking-Shares rounds talks msg server_fd w' size)

-- On an array that holds a message of `read_message`, the test for the quit command of
-- tcp-fork/tcp_server.c, which is `strcmp`, agrees with that of tcp/tcp_server.c, which looks at
-- the length and two bytes.
pub is_q-is_quit :
    (bytes buff : List ℕ)
    → 0 < length bytes
    → IsMessage bytes buff
    → is_q buff (length bytes) ≡ is_quit buff (length bytes)
is_q-is_quit bytes buff some_bytes m =
    is_q-Tests bytes buff some_bytes m ∙ sym (is_quit-Tests bytes buff some_bytes m)
