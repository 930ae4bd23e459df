-- ===== src/Net/UdpServer/Echo.antt =====
-- What sem10-net-sockets/snippets/udp/udp_server.c answers, and when it ends.
use caos_seminars.Prelude.{
  ℕ, suc, ◌-◌, ◌≤◌, ◌<◌, ◌≡◌, refl, sym, ap, ◌∙◌, false, List, [], ◌∷◌, ◌++◌, append_assoc,
  append-nil, length,
}
use caos_seminars.Posix.{Errno}
use caos_seminars.Kernel.{Kernel, update}
use caos_seminars.Kernel.Effects.{View, Effects}
use caos_seminars.Net.Datagrams.{Datagram, Datagrams, RecvResult, Traffic}
use caos_seminars.Net.UdpServer.{buff_size, Server}

module _ (K : Kernel) (D : Datagrams K) where
  -- The replies to datagrams, in order: each goes back to its sender as it came, or `sendto` has
  -- failed for it. None is empty or longer than the array has room for.
  pub data Answers (fd : ℕ) : (ds rs : List Datagram) → Type 0 where
    over : Answers fd [] []
    echoed :
        (d : Datagram) {ds rs : List Datagram}
        → 0 < length d.bytes
        → length d.bytes ≤ buff_size - 1
        → Answers fd ds rs
        → Answers fd (d ∷ ds) (d ∷ rs)
    unsent :
        (d : Datagram) (w : K.World) {ds rs : List Datagram}
        → 0 < length d.bytes
        → length d.bytes ≤ buff_size - 1
        → (D.sendto fd d.bytes d.peer w).0 ≡ false
        → Answers fd ds rs
        → Answers fd (d ∷ ds) rs

module _ (K : Kernel) (E : Effects K) (D : Datagrams K) (T : Traffic K E D) where
  open K use {World, close, socket, bind}
  open E use {view, close_law, socket_law, bind_law}
  open D use {recvfrom, sendto}
  open T use {
    heard, said, recv_law, send_law, socket_heard, socket_said, bind_heard, bind_said, close_heard,
    close_said,
  }

  -- Between two worlds the server got datagrams, which it has answered, and then `last`.
  pub record Echo (fd : ℕ) (last : List Datagram) (w w' : World) : Type 0 where
    pub got : List Datagram
    pub replies : List Datagram
    pub answers : Answers K D fd got replies
    pub all_heard : heard w' fd ≡ heard w fd ++ (got ++ last)
    pub all_said : said w' fd ≡ said w fd ++ replies

  -- Why the loop has ended: the last datagram has no bytes, or `recvfrom` has failed.
  pub data Last (fd : ℕ) : List Datagram → Type 0 where
    empty : (peer : ℕ) → Last fd (record { peer = peer; bytes = [] } ∷ [])
    broken :
        (w : World) (e : Errno)
        → (recvfrom fd (buff_size - 1) w).0 ≡ RecvResult.failed e
        → Last fd []

  -- The server goes on as it began, with a datagram answered in each of the `rounds` rounds, or has returned 0 and closed its socket.
  abbrev pub Serves : (rounds fd : ℕ) → World → Server World → Type 0
  Serves rounds fd w (Server.receiving fd' buff w') =
      (fd' ≡ fd)
      × (length buff ≡ buff_size)
      × ((echo : Echo fd [] w w') × (length echo.got ≡ rounds))
      × (view w' ≡ view w)
  Serves rounds fd w (Server.returned code w') =
      (code ≡ 0)
      × ((last : List Datagram) × Last fd last × Echo fd last w w')
      × ((g : ℕ) → (view w').is_open g ≡ update (view w).is_open fd false g)

  pub Echo-last :
      (fd : ℕ) (last : List Datagram) (w w' : World)
      → heard w' fd ≡ heard w fd ++ last
      → said w' ≡ said w
      → Echo fd last w w'
  Echo-last fd last w w' h s = record {
    got = [];
    replies = [];
    answers = Answers.over;
    all_heard = h;
    all_said = ap (λ (f : ℕ → List Datagram). f fd) s ∙ sym (append-nil (said w fd));
  }

  -- A datagram, its answer `r`, and what follows.
  pub Echo-more :
      (fd : ℕ) (d : Datagram) (r last : List Datagram) (w w1 w2 w' : World)
      → heard w1 fd ≡ heard w fd ++ (d ∷ [])
      → said w1 ≡ said w
      → said w2 fd ≡ said w1 fd ++ r
      → heard w2 ≡ heard w1
      → (rest : Echo fd last w2 w') → Answers K D fd (d ∷ rest.got) (r ++ rest.replies)
      → (echo : Echo fd last w w') × (length echo.got ≡ suc (length rest.got))
  Echo-more fd d r last w w1 w2 w' h s s2 h2 rest a = (
    record {
      got = d ∷ rest.got;
      replies = r ++ rest.replies;
      answers = a;
      all_heard =
          rest.all_heard
          ∙ ap (λ (f : ℕ → List Datagram). f fd ++ (rest.got ++ last)) h2
          ∙ ap (λ l. l ++ (rest.got ++ last)) h
          ∙ append_assoc (heard w fd) (d ∷ []) (rest.got ++ last);
      all_said =
          rest.all_said
          ∙ ap (λ l. l ++ rest.replies) s2
          ∙ ap (λ (f : ℕ → List Datagram). (f fd ++ r) ++ rest.replies) s
          ∙ append_assoc (said w fd) r rest.replies;
    },
    refl,
  )

  -- No datagram yet.
  pub Echo-none : (fd : ℕ) (w : World) → (echo : Echo fd [] w w) × (length echo.got ≡ 0)
  unfolding Echo-last
  Echo-none fd w = (Echo-last fd [] w w (sym (append-nil (heard w fd))) refl, refl)

  pub Serves-more :
      (rounds fd : ℕ) (w w2 : World) (out : Server World)
      → ((last : List Datagram) (w' : World)
          → (rest : Echo fd last w2 w')
          → (echo : Echo fd last w w') × (length echo.got ≡ suc (length rest.got)))
      → view w2 ≡ view w
      → Serves rounds fd w2 out
      → Serves (suc rounds) fd w out
  Serves-more rounds fd w w2 (Server.receiving fd' buff w') more same (e, size, (echo, all), kept) =
      let (longer, one_more) = more [] w' echo in
      (e, size, (longer, one_more ∙ ap suc all), kept ∙ same)
  Serves-more rounds fd w w2 (Server.returned code w') more same (e, (last, why, echo), shut) = (
    e,
    (last, why, (more last w' echo).0),
    λ g. shut g ∙ ap (λ (v : View). update v.is_open fd false g) same,
  )
