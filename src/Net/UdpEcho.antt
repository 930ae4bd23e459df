-- ===== src/Net/UdpEcho.antt =====
-- sem10-net-sockets/snippets/udp: udp_client.c and udp_server.c together. Each runs on a kernel of its
-- own; the network is what stands between the datagrams that one sends and those that the other gets.
use caos_seminars.Prelude.{
  ℕ, ◌-◌, ◌<◌, ◌≡◌, sym, ap, subst, ◌∙◌, true, List, [], ◌∷◌, ◌++◌, length, arith,
}
use caos_seminars.Posix.{Errno}
use caos_seminars.Kernel.{Kernel}
use caos_seminars.Kernel.Effects.{Effects}
use caos_seminars.Net.Datagrams.{Datagram, Datagrams, RecvResult, Traffic}
use caos_seminars.Net.UdpClient
use caos_seminars.Net.UdpClient.Safety.{Tried, Asked, Asks, ask-Asks}
use caos_seminars.Net.UdpClient.Words.{AllSpace, AllWords, typed, words}
use caos_seminars.Net.UdpServer
use caos_seminars.Net.UdpServer.Echo.{Answers, Last, Echo, Serves}
use caos_seminars.Net.UdpServer.Safety.{serve-Serves}

-- Datagrams as they arrive: they carry the address of the sender, `from`.
abbrev pub carried : (from : ℕ) → List Datagram → List Datagram
carried from [] = []
carried from (d ∷ ds) = record { peer = from; bytes = d.bytes } ∷ carried from ds

-- The worlds in which client and server stand.
abbrev pub behind_client : {W : Type 0} → W → UdpClient.Exit W → W
behind_client w (UdpClient.Exit.returned code w') = w'
behind_client w UdpClient.Exit.overrun = w
behind_client w UdpClient.Exit.out_of_fuel = w

abbrev pub behind_server : {W : Type 0} → UdpServer.Server W → W
behind_server (UdpServer.Server.returned code w) = w
behind_server (UdpServer.Server.receiving fd buff w) = w

module _ (K : Kernel) (D : Datagrams K) where
  -- What came back for the words is the words, all of them or up to a `recvfrom` that failed.
  abbrev pub Echoed : (fd : ℕ) → List (List ℕ) → List Datagram → Type 0
  Echoed fd [] [] = Unit
  Echoed fd [] (a ∷ back) = ⊥
  Echoed fd (word ∷ ws) (a ∷ back) = (a.bytes ≡ word) × Echoed fd ws back
  Echoed fd (word ∷ ws) [] =
      (w : K.World) × (e : Errno) × ((D.recvfrom fd (UdpClient.buff_size - 1) w).0
        ≡ RecvResult.failed e)

∷-parts : {x y : Datagram} {xs ys : List Datagram} → (x ∷ xs) ≡ (y ∷ ys) → (x ≡ y) × (xs ≡ ys)
∷-parts e = ground (arith, e)

module _ (K : Kernel) (E : Effects K) (D : Datagrams K) (T : Traffic K E D) (KS : Kernel)
    (DS : Datagrams KS)
    (client_sends : (fd : ℕ) (bytes : List ℕ) (peer : ℕ) (w : K.World)
      → (D.sendto fd bytes peer w).0 ≡ true)
    (server_sends : (fd : ℕ) (bytes : List ℕ) (peer : ℕ) (w : KS.World)
      → (DS.sendto fd bytes peer w).0 ≡ true) where
  -- What was asked comes back, whatever is still on its way or has not been answered yet.
  Asked-Echoed :
      (fd server from fds : ℕ) (ws : List (List ℕ))
      (out back got last replies pending : List Datagram)
      → Asked K E D T fd server ws out back
      → Answers KS DS fds got replies
      → got ++ last ≡ carried from out
      → back ++ pending ≡ carried server replies
      → Echoed K D fd ws back
  Asked-Echoed fd server from fds _ _ _ got last replies pending Asked.over answers e1 e2 = tt
  Asked-Echoed fd server from fds _ _ _ _ last _ pending
        (Asked.answered a (Tried.unsent w x) _ _ rest) answers e1 e2 =
      absurd (cc (x, client_sends fd _ server w))
  Asked-Echoed fd server from fds _ _ _ _ last _ pending (Asked.answered a Tried.sent _ _ rest)
        Answers.over e1 e2 =
      absurd (cc e2)
  Asked-Echoed fd server from fds _ _ _ _ last _ pending (Asked.answered a Tried.sent _ _ rest)
        (Answers.unsent d w _ _ x answers) e1 e2 =
      absurd (cc (x, server_sends fds d.bytes d.peer w))
  Asked-Echoed fd server from fds _ _ _ _ last _ pending (Asked.answered a Tried.sent _ _ rest)
        (Answers.echoed d _ _ answers) e1 e2 =
      let (asked, asked_later) = ∷-parts e1 in
      let (back, back_later) = ∷-parts e2 in
      (
        ap (λ (m : Datagram). m.bytes) back ∙ ap (λ (m : Datagram). m.bytes) asked,
        Asked-Echoed fd server from fds _ _ _ _ last _ pending rest answers asked_later back_later,
      )
  Asked-Echoed fd server from fds _ _ _ _ last _ pending (Asked.unanswered t (Last.broken w err x))
        answers e1 e2 =
      (w, err, x)
  Asked-Echoed fd server from fds _ _ _ _ last _ pending (Asked.unanswered t (Last.empty peer))
        Answers.over e1 e2 =
      absurd (cc e2)
  Asked-Echoed fd server from fds _ _ _ _ last _ pending (Asked.unanswered t (Last.empty peer))
        (Answers.unsent d w _ _ x answers) e1 e2 =
      absurd (cc (x, server_sends fds d.bytes d.peer w))
  Asked-Echoed fd server from fds _ _ _ _ last _ pending (Asked.unanswered t (Last.empty peer))
        (Answers.echoed d some_bytes _ answers) e1 e2 =
      absurd (omega (arith, some_bytes, ap (λ (m : Datagram). length m.bytes) (∷-parts e2).0))

module _ (K : Kernel) (E : Effects K) (D : Datagrams K) (T : Traffic K E D) where
  -- The client has returned, and what it has sent and got since `w`.
  record Asking (fd server : ℕ) (ws : List (List ℕ)) (w : K.World) (exit : UdpClient.Exit K.World)
      : Type 0 where
    pub out : List Datagram
    pub back : List Datagram
    pub asked : Asked K E D T fd server ws out back
    pub ended : exit ≡ UdpClient.Exit.returned 0 (behind_client w exit)
    pub all_said : T.said (behind_client w exit) fd ≡ T.said w fd ++ out
    pub all_heard : T.heard (behind_client w exit) fd ≡ T.heard w fd ++ back

  asking :
      (fd server : ℕ) (ws : List (List ℕ)) (w : K.World) (exit : UdpClient.Exit K.World)
      → Asks K E D T fd server ws w exit
      → Asking fd server ws w exit
  asking fd server ws w (UdpClient.Exit.returned code w') (e, d, _) = record {
    out = d.out;
    back = d.back;
    asked = d.asked;
    ended = ap (λ n. UdpClient.Exit.returned n w') e;
    all_said = d.all_said;
    all_heard = d.all_heard;
  }
  asking fd server ws w UdpClient.Exit.overrun h = absurd h
  asking fd server ws w UdpClient.Exit.out_of_fuel h = absurd h

  -- What the server has got and answered since `w`, whether it goes on or has returned.
  answering :
      (rounds fd : ℕ) (w : K.World) (out : UdpServer.Server K.World)
      → Serves K E D T rounds fd w out
      → (last : List Datagram) × Echo K E D T fd last w (behind_server out)
  answering rounds fd w (UdpServer.Server.returned code w') (_, (last, _, echo), _) = (last, echo)
  answering rounds fd w (UdpServer.Server.receiving fd' buff w') (_, _, (echo, _), _) = ([], echo)

module _ (K : Kernel) (E : Effects K) (D : Datagrams K) (T : Traffic K E D) (KS : Kernel)
    (ES : Effects KS) (DS : Datagrams KS) (TS : Traffic KS ES DS)
    (client_sends : (fd : ℕ) (bytes : List ℕ) (peer : ℕ) (w : K.World)
      → (D.sendto fd bytes peer w).0 ≡ true)
    (server_sends : (fd : ℕ) (bytes : List ℕ) (peer : ℕ) (w : KS.World)
      → (DS.sendto fd bytes peer w).0 ≡ true) where
  -- The client at the address `from` and the server at `server`, each on a socket that has moved
  -- nothing, where no `sendto` fails and the network loses and reorders nothing: the server got what
  -- the client sent, and the client got replies of the server, up to those still `pending`. Then the
  -- client returns 0, and what it got for its words, in order, is the words: for all of them, or up to
  -- a `recvfrom` that failed. The server may go on or have returned.
  pub ask-Echoed :
      (fuel fd server : ℕ) (gap : List ℕ) (ps : List (List ℕ × List ℕ)) (w : K.World)
      (rounds fds from : ℕ) (buff : List ℕ) (v : KS.World) (pending : List Datagram)
      → AllSpace gap
      → AllWords ps
      → length ps < fuel
      → length buff ≡ UdpServer.buff_size
      → (T.said w fd ≡ []) × (T.heard w fd ≡ []) × (TS.said v fds ≡ []) × (TS.heard v fds ≡ [])
      → let w' = behind_client w (UdpClient.ask K D fuel fd server (typed gap ps) w) in
        let v' = behind_server (UdpServer.serve KS DS rounds fds buff v) in
        TS.heard v' fds ≡ carried from (T.said w' fd)
        → T.heard w' fd ++ pending ≡ carried server (TS.said v' fds)
        → (UdpClient.ask K D fuel fd server (typed gap ps) w ≡ UdpClient.Exit.returned 0 w')
          × Echoed K D fd (words ps) (T.heard w' fd)
  ask-Echoed fuel fd server gap ps w rounds fds from buff v pending hg hw enough size
        (no_said, no_heard, none_said, none_heard) there here =
      let a =
        asking K E D T fd server (words ps) w _
          (ask-Asks K E D T fuel fd server gap ps w hg hw enough) in
      let (last, b) =
        answering KS ES DS TS rounds fds v _ (serve-Serves KS ES DS TS rounds fds buff v size) in
      let said_all = a.all_said ∙ ap (λ l. l ++ a.out) no_said in
      let heard_all = a.all_heard ∙ ap (λ l. l ++ a.back) no_heard in
      let got_all = b.all_heard ∙ ap (λ l. l ++ (b.got ++ last)) none_heard in
      let replied_all = b.all_said ∙ ap (λ l. l ++ b.replies) none_said in
      (
        a.ended,
        subst (λ l. Echoed K D fd (words ps) l) (sym heard_all)
            (Asked-Echoed K E D T KS DS client_sends server_sends fd server from fds (words ps)
              a.out a.back b.got last b.replies pending a.asked b.answers
              (sym got_all ∙ there ∙ ap (λ l. carried from l) said_all)
              (ap (λ l. l ++ pending) (sym heard_all)
                ∙ here
                ∙ ap (λ l. carried server l) replied_all)),
      )
