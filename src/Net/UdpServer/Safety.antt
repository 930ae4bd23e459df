-- ===== src/Net/UdpServer/Safety.antt =====
-- The loop and `main` of sem10-net-sockets/snippets/udp/udp_server.c.
use caos_seminars.Prelude.{
  ℕ, zero, suc, ◌-◌, ◌<◌, ◌≡◌, refl, sym, ap, ◌∙◌, inl, inr, ◌⊎◌, Bool, true, false, List, [], ◌∷◌,
  ◌++◌, append-nil, arith, length, if◌then◌else◌,
}
use caos_seminars.Posix.{Errno}
use caos_seminars.Kernel.{Kernel, FdResult, update}
use caos_seminars.Kernel.Effects.{View, Effects, AfterSocket}
use caos_seminars.Net.Message.Spec.{length-terminated, terminated-IsMessage}
use caos_seminars.Net.Datagrams.{Datagram, Datagrams, RecvResult, Traffic, RecvLaw, SendLaw}
use caos_seminars.Net.UdpServer.{buff_size, stored, Server, serve, main}
use caos_seminars.Net.UdpServer.Echo.{
  Answers, Last, Serves, Echo-last, Echo-none, Echo-more, Serves-more,
}

module _ (K : Kernel) (E : Effects K) (D : Datagrams K) (T : Traffic K E D) where
  open K use {World, close, socket, bind}
  open E use {view, close_law, socket_law, bind_law}
  open D use {recvfrom, sendto}
  open T use {
    heard, said, recv_law, send_law, socket_heard, socket_said, bind_heard, bind_said, close_heard,
    close_said,
  }

  -- The socket is closed after the last datagram.
  closing :
      (rounds fd : ℕ) (last : List Datagram) (w w1 : World)
      → Last K E D T fd last
      → heard w1 fd ≡ heard w fd ++ last
      → said w1 ≡ said w
      → view w1 ≡ view w
      → Serves K E D T rounds fd w (Server.returned 0 (close fd w1))
  closing rounds fd last w w1 why h s v = (
    refl,
    (
      last,
      why,
      Echo-last K E D T fd last w _ (ap (λ (f : ℕ → List Datagram). f fd) (close_heard fd w1) ∙ h)
          (close_said fd w1 ∙ s),
    ),
    λ g.
        ap (λ (u : View). u.is_open g) (close_law fd w1)
        ∙ ap (λ (u : View). update u.is_open fd false g) v,
  )

  -- A datagram is answered, by what `sendto` gives.
  answer :
      (rounds fd peer : ℕ) (bytes : List ℕ) (w w1 : World) (result : Bool × World)
      → 0 < length bytes
      → RecvLaw heard said view fd (buff_size - 1) w (RecvResult.got peer bytes, w1)
      → sendto fd bytes peer w1 ≡ result
      → SendLaw heard said view fd bytes peer w1 result
      → (out : Server World) → Serves K E D T rounds fd result.1 out
      → Serves K E D T (suc rounds) fd w out
  answer rounds fd peer bytes w w1 (true, w2) some_bytes (few, h, s, v) e (s2, h2, v2) out next =
      let d : Datagram = record { peer = peer; bytes = bytes } in
      Serves-more K E D T rounds fd w w2 out
        (λ last w' rest.
          Echo-more K E D T fd d (d ∷ []) last w w1 w2 w' h s s2 h2 rest
            (Answers.echoed d some_bytes few rest.answers))
        (v2 ∙ v) next
  answer rounds fd peer bytes w w1 (false, w2) some_bytes (few, h, s, v) e (s2, h2, v2) out next =
      let d : Datagram = record { peer = peer; bytes = bytes } in
      Serves-more K E D T rounds fd w w2 out
        (λ last w' rest.
          Echo-more K E D T fd d [] last w w1 w2 w' h s
            (ap (λ (f : ℕ → List Datagram). f fd) s2 ∙ sym (append-nil (said w1 fd))) h2 rest
            (Answers.unsent d w1 some_bytes few (ap (λ (r : Bool × World). r.0) e) rest.answers))
        (v2 ∙ v) next

  -- One round, by what `recvfrom` gives.
  serve_round :
      (rounds fd : ℕ) (buff : List ℕ) (w : World) (result : RecvResult × World)
      → length buff ≡ buff_size
      → recvfrom fd (buff_size - 1) w ≡ result
      → RecvLaw heard said view fd (buff_size - 1) w result
      → ((buff' : List ℕ) (w' : World)
          → length buff' ≡ buff_size
          → Serves K E D T rounds fd w' (serve K D rounds fd buff' w'))
      → Serves K E D T (suc rounds) fd w (serve K D (suc rounds) fd buff w)
  unfolding serve
  serve_round rounds fd buff w (RecvResult.failed err, w1) size e (h, s, v) again =
      rw (e, serve, e)
        (closing (suc rounds) fd [] w w1
          (Last.broken w err (ap (λ (r : RecvResult × World). r.0) e))
          (ap (λ (f : ℕ → List Datagram). f fd) h ∙ sym (append-nil (heard w fd))) s v)
  serve_round rounds fd buff w (RecvResult.got peer [], w1) size e (few, h, s, v) again =
      rw (e, serve, e) (closing (suc rounds) fd _ w w1 (Last.empty peer) h s v)
  serve_round rounds fd buff w (RecvResult.got peer (b ∷ bs), w1) size e law again =
      let room : length (b ∷ bs) < length buff = omega (arith, law.0, size) in
      let whole = (terminated-IsMessage (b ∷ bs) buff room).content in
      rw (e, serve, e, whole)
        (answer rounds fd peer (b ∷ bs) w w1 (sendto fd (b ∷ bs) peer w1) (omega arith) law refl
          (send_law fd (b ∷ bs) peer w1) _
          (again (stored (b ∷ bs) buff) _ (length-terminated (b ∷ bs) buff room ∙ size)))

  -- The loop, for any number of rounds.
  pub serve-Serves :
      (rounds fd : ℕ) (buff : List ℕ) (w : World)
      → length buff ≡ buff_size
      → Serves K E D T rounds fd w (serve K D rounds fd buff w)
  unfolding serve
  serve-Serves zero fd buff w size = (refl, size, Echo-none K E D T fd w, refl)
  serve-Serves (suc rounds) fd buff w size =
      serve_round rounds fd buff w (recvfrom fd (buff_size - 1) w) size refl
        (recv_law fd (buff_size - 1) w) (serve-Serves rounds fd)

  -- The world in which the loop begins: `socket` has opened a new socket, `bind` has bound it, and no
  -- datagram has moved.
  pub record Bound (port fd : ℕ) (first w : World) : Type 0 where
    pub before : World
    pub got : socket first ≡ (FdResult.opened fd, before)
    pub is_bound : bind fd port before ≡ (true, w)
    pub new : (view first).is_open fd ≡ false
    pub opened : view w ≡ record (view first) { is_open = update (view first).is_open fd true }
    pub same_heard : heard w ≡ heard first
    pub same_said : said w ≡ said first

  -- The call that makes the server return 1.
  pub data NotBound (port : ℕ) (first w : World) : Type 0 where
    no_socket : (e : Errno) → socket first ≡ (FdResult.failed e, w) → NotBound port first w
    no_bind :
        (fd : ℕ) (w1 : World)
        → socket first ≡ (FdResult.opened fd, w1)
        → bind fd port w1 ≡ (false, w)
        → NotBound port first w

  -- It has returned 1, with no datagram moved, because `socket` or `bind` has failed; or both have
  -- succeeded, and it serves on the new socket.
  abbrev pub Runs : (rounds port : ℕ) (first : World) → Server World → Type 0
  Runs rounds port first out =
      ((w : World) × NotBound port first w
        × (out ≡ Server.returned 1 w)
        × (heard w ≡ heard first)
        × (said w ≡ said first))
      ⊎ ((fd : ℕ) × (w : World) × Bound port fd first w × Serves K E D T rounds fd w out)

  bound :
      (rounds fd : ℕ) (buff : List ℕ) (port : ℕ) (w w1 : World) (result : Bool × World)
      → length buff ≡ buff_size
      → socket w ≡ (FdResult.opened fd, w1)
      → bind fd port w1 ≡ result
      → (view w).is_open fd ≡ false
      → view result.1 ≡ record (view w) { is_open = update (view w).is_open fd true }
      → heard result.1 ≡ heard w
      → said result.1 ≡ said w
      → Runs rounds port w
          (if result.0 then serve K D rounds fd buff result.1 else Server.returned 1 result.1)
  bound rounds fd buff port w w1 (true, w2) size got e new law h s = inr (
    fd,
    w2,
    record {
      before = w1;
      got = got;
      is_bound = e;
      new = new;
      opened = law;
      same_heard = h;
      same_said = s;
    },
    serve-Serves rounds fd buff w2 size,
  )
  bound rounds fd buff port w w1 (false, w2) size got e new law h s =
      inl (w2, NotBound.no_bind fd w1 got e, refl, h, s)

  socketed :
      (rounds : ℕ) (buff : List ℕ) (port : ℕ) (w : World) (result : FdResult × World)
      → length buff ≡ buff_size
      → socket w ≡ result
      → AfterSocket (view w) result.0 (view result.1)
      → (heard result.1 ≡ heard w) × (said result.1 ≡ said w)
      → Runs rounds port w (main K D rounds buff port w)
  unfolding main
  socketed rounds buff port w (FdResult.failed err, w1) size e law (h, s) =
      rw (e, main, e) (inl (w1, NotBound.no_socket err e, refl, h, s))
  socketed rounds buff port w (FdResult.opened fd, w1) size e (new, _, law) (h, s) =
      rw (e, main, e)
        (bound rounds fd buff port w w1 (bind fd port w1) size e refl new
          (bind_law fd port w1 ∙ law) (bind_heard fd port w1 ∙ h) (bind_said fd port w1 ∙ s))

  -- However long the server runs: if `socket` or `bind` fails it has returned 1 and moved no
  -- datagram; else it has answered on the new socket what `recvfrom` gave, at most 4095 bytes of each
  -- datagram, in order, each to its sender and byte for byte, but for those that `sendto` has refused.
  -- It goes on, with one of them answered in each round, or it has returned 0 and closed the socket, because the
  -- last datagram was empty or `recvfrom` has failed.
  pub main-Runs :
      (rounds : ℕ) (buff : List ℕ) (port : ℕ) (w : World)
      → length buff ≡ buff_size
      → Runs rounds port w (main K D rounds buff port w)
  main-Runs rounds buff port w size =
      socketed rounds buff port w (socket w) size refl (socket_law w)
        (socket_heard w, socket_said w)
