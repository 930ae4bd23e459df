-- ===== src/Net/UdpClient/Safety.antt =====
-- What sem10-net-sockets/snippets/udp/udp_client.c sends, and when it ends.
use caos_seminars.Prelude.{
  ℕ, zero, suc, ◌-◌, ◌≤◌, ◌<◌, ◌≡◌, refl, sym, ap, ◌∙◌, inl, inr, ◌⊎◌, Bool, true, false, some,
  List, [], ◌∷◌, ◌++◌, append_assoc, append-nil, arith, length, lt→ltb,
}
use caos_seminars.Posix.{Errno}
use caos_seminars.Kernel.{Kernel, FdResult, update}
use caos_seminars.Kernel.Effects.{View, Effects, AfterSocket}
use caos_seminars.Bytes.{cstring}
use caos_seminars.Net.Datagrams.{Datagram, Datagrams, RecvResult, Traffic, RecvLaw, SendLaw}
use caos_seminars.Net.UdpClient.{buff_size, scanf, Exit, ask, ask_none, main}
use caos_seminars.Net.UdpClient.Words.{
  AllSpace, AllWords, typed, words, cstring-AllText, scanf-typed, scanf-AllSpace,
}
use caos_seminars.Net.UdpServer.Echo.{Last}

module _ (K : Kernel) (E : Effects K) (D : Datagrams K) (T : Traffic K E D) where
  open K use {World, close, socket}
  open E use {view, close_law, socket_law}
  open D use {recvfrom, sendto}
  open T use {heard, said, recv_law, send_law, socket_heard, socket_said, close_heard, close_said}

  -- What has been sent for a word: the word, or nothing if `sendto` has failed.
  pub data Tried (fd server : ℕ) (word : List ℕ) : List Datagram → Type 0 where
    sent : Tried fd server word (record { peer = server; bytes = word } ∷ [])
    unsent : (w : World) → (sendto fd word server w).0 ≡ false → Tried fd server word []

  -- Words, what has been sent for them, and what has come: one answer for each word. They end with
  -- the words, or where the answer is empty or `recvfrom` fails.
  pub data Asked (fd server : ℕ) : List (List ℕ) → (out back : List Datagram) → Type 0 where
    over : Asked fd server [] [] []
    answered :
        {word : List ℕ} {ws : List (List ℕ)} {s out back : List Datagram} (a : Datagram)
        → Tried fd server word s
        → 0 < length a.bytes
        → length a.bytes ≤ buff_size - 1
        → Asked fd server ws out back
        → Asked fd server (word ∷ ws) (s ++ out) (a ∷ back)
    unanswered :
        {word : List ℕ} {ws : List (List ℕ)} {s last : List Datagram}
        → Tried fd server word s
        → Last K E D T fd last
        → Asked fd server (word ∷ ws) s last

  pub record Dialogue (fd server : ℕ) (ws : List (List ℕ)) (w w' : World) : Type 0 where
    pub out : List Datagram
    pub back : List Datagram
    pub asked : Asked fd server ws out back
    pub all_said : said w' fd ≡ said w fd ++ out
    pub all_heard : heard w' fd ≡ heard w fd ++ back

  -- The client has returned 0, has asked for the words, and has closed its socket.
  abbrev pub Asks : (fd server : ℕ) → List (List ℕ) → World → Exit World → Type 0
  Asks fd server ws w (Exit.returned code w') =
      (code ≡ 0)
      × Dialogue fd server ws w w'
      × ((g : ℕ) → (view w').is_open g ≡ update (view w).is_open fd false g)
  Asks fd server ws w Exit.overrun = ⊥
  Asks fd server ws w Exit.out_of_fuel = ⊥

  -- The socket is closed behind the last words.
  closing :
      (fd server : ℕ) (ws : List (List ℕ)) (out back : List Datagram) (w w1 : World)
      → Asked fd server ws out back
      → said w1 fd ≡ said w fd ++ out
      → heard w1 fd ≡ heard w fd ++ back
      → view w1 ≡ view w
      → Asks fd server ws w (Exit.returned 0 (close fd w1))
  closing fd server ws out back w w1 asked s h v = (
    refl,
    record {
      out = out;
      back = back;
      asked = asked;
      all_said = ap (λ (f : ℕ → List Datagram). f fd) (close_said fd w1) ∙ s;
      all_heard = ap (λ (f : ℕ → List Datagram). f fd) (close_heard fd w1) ∙ h;
    },
    λ g.
        ap (λ (u : View). u.is_open g) (close_law fd w1)
        ∙ ap (λ (u : View). update u.is_open fd false g) v,
  )

  -- A word, its answer, and what follows.
  Asks-more :
      (fd server : ℕ) (word : List ℕ) (ws : List (List ℕ)) (s : List Datagram) (a : Datagram)
      (w w2 : World) (exit : Exit World)
      → Tried fd server word s
      → 0 < length a.bytes
      → length a.bytes ≤ buff_size - 1
      → said w2 fd ≡ said w fd ++ s
      → heard w2 fd ≡ heard w fd ++ (a ∷ [])
      → view w2 ≡ view w
      → Asks fd server ws w2 exit
      → Asks fd server (word ∷ ws) w exit
  Asks-more fd server word ws s a w w2 (Exit.returned code w') tried full few es eh v
        (e, rest, shut) =
      (
        e,
        record {
          out = s ++ rest.out;
          back = a ∷ rest.back;
          asked = Asked.answered a tried full few rest.asked;
          all_said =
              rest.all_said ∙ ap (λ l. l ++ rest.out) es ∙ append_assoc (said w fd) s rest.out;
          all_heard =
              rest.all_heard
              ∙ ap (λ l. l ++ rest.back) eh
              ∙ append_assoc (heard w fd) (a ∷ []) rest.back;
        },
        λ g. shut g ∙ ap (λ (u : View). update u.is_open fd false g) v,
      )
  Asks-more fd server word ws s a w w2 Exit.overrun tried full few es eh v rest = rest
  Asks-more fd server word ws s a w w2 Exit.out_of_fuel tried full few es eh v rest = rest

  -- What `sendto` leaves.
  record Sending (fd server : ℕ) (word : List ℕ) (w w1 : World) : Type 0 where
    pub out : List Datagram
    pub tried : Tried fd server word out
    pub now_said : said w1 fd ≡ said w fd ++ out
    pub same_heard : heard w1 ≡ heard w
    pub same_view : view w1 ≡ view w

  sending :
      (fd server : ℕ) (word : List ℕ) (w : World) (result : Bool × World)
      → sendto fd word server w ≡ result
      → SendLaw heard said view fd word server w result
      → Sending fd server word w result.1
  sending fd server word w (true, w1) e (s, h, v) = record {
    out = record { peer = server; bytes = word } ∷ [];
    tried = Tried.sent;
    now_said = s;
    same_heard = h;
    same_view = v;
  }
  sending fd server word w (false, w1) e (s, h, v) = record {
    out = [];
    tried = Tried.unsent w (ap (λ (r : Bool × World). r.0) e);
    now_said = ap (λ (f : ℕ → List Datagram). f fd) s ∙ sym (append-nil (said w fd));
    same_heard = h;
    same_view = v;
  }

  -- One round, by what `recvfrom` gives.
  ask_round :
      (fuel fd server : ℕ) (word input input' : List ℕ) (ws : List (List ℕ)) (w w1 : World)
      (result : RecvResult × World)
      → (sendto fd (cstring word) server w).1 ≡ w1
      → scanf input ≡ some (word, input')
      → length word < buff_size
      → Sending fd server word w w1
      → recvfrom fd (buff_size - 1) w1 ≡ result
      → RecvLaw heard said view fd (buff_size - 1) w1 result
      → ((w2 : World) → Asks fd server ws w2 (ask K D fuel fd server input' w2))
      → Asks fd server (word ∷ ws) w (ask K D (suc fuel) fd server input w)
  unfolding ask
  ask_round fuel fd server word input input' ws w w1 (RecvResult.failed err, w2) e1 es room out e
        (h, s, v) again =
      rw (es, ask, lt→ltb (length word) buff_size room, ask, e1, e, ask, e1, e)
        (closing fd server (word ∷ ws) out.out [] w w2
          (Asked.unanswered out.tried (Last.broken w1 err (ap (λ (r : RecvResult × World). r.0) e)))
          (ap (λ (f : ℕ → List Datagram). f fd) s ∙ out.now_said)
          (ap (λ (f : ℕ → List Datagram). f fd) (h ∙ out.same_heard)
            ∙ sym (append-nil (heard w fd)))
          (v ∙ out.same_view))
  ask_round fuel fd server word input input' ws w w1 (RecvResult.got peer [], w2) e1 es room out e
        (few, h, s, v) again =
      rw (es, ask, lt→ltb (length word) buff_size room, ask, e1, e, ask, e1, e)
        (closing fd server (word ∷ ws) out.out (record { peer = peer; bytes = [] } ∷ []) w w2
          (Asked.unanswered out.tried (Last.empty peer))
          (ap (λ (f : ℕ → List Datagram). f fd) s ∙ out.now_said)
          (h
            ∙ ap (λ (f : ℕ → List Datagram). f fd ++ (record { peer = peer; bytes = [] } ∷ []))
                out.same_heard)
          (v ∙ out.same_view))
  ask_round fuel fd server word input input' ws w w1 (RecvResult.got peer (b ∷ bs), w2) e1 es room
        out e (few, h, s, v) again =
      let a : Datagram = record { peer = peer; bytes = b ∷ bs } in
      rw (es, ask, lt→ltb (length word) buff_size room, ask, e1, e, ask, e1, e)
        (Asks-more fd server word ws out.out a w w2 _ out.tried (omega arith) few
          (ap (λ (f : ℕ → List Datagram). f fd) s ∙ out.now_said)
          (h ∙ ap (λ (f : ℕ → List Datagram). f fd ++ (a ∷ [])) out.same_heard) (v ∙ out.same_view)
          (again w2))

  -- The loop, with a round for each word and one more.
  pub ask-Asks :
      (fuel fd server : ℕ) (gap : List ℕ) (ps : List (List ℕ × List ℕ)) (w : World)
      → AllSpace gap
      → AllWords ps
      → length ps < fuel
      → Asks fd server (words ps) w (ask K D fuel fd server (typed gap ps) w)
  unfolding ask
  ask-Asks zero fd server gap ps w hg h enough = absurd (omega arith)
  ask-Asks (suc fuel) fd server gap [] w hg h enough =
      rw (scanf-AllSpace gap hg, ask)
        (closing fd server [] [] [] w w Asked.over (sym (append-nil (said w fd)))
          (sym (append-nil (heard w fd))) refl)
  ask-Asks (suc fuel) fd server gap ((word, gap') ∷ ps) w hg h enough =
      let ((_, text, room), _, hg', rest) = h in
      let w1 = (sendto fd word server w).1 in
      ask_round fuel fd server word (typed gap ((word, gap') ∷ ps)) (typed gap' ps) (words ps) w w1
        (recvfrom fd (buff_size - 1) w1)
        (ap (λ l. (sendto fd l server w).1) (cstring-AllText word text))
        (scanf-typed gap word gap' ps hg h) room
        (sending fd server word w (sendto fd word server w) refl (send_law fd word server w)) refl
        (recv_law fd (buff_size - 1) w1)
        (λ w2. ask-Asks fuel fd server gap' ps w2 hg' rest (omega (arith, enough)))

  -- `socket` has failed, and the client has returned 0 with nothing sent or got; or `socket` has
  -- opened a new socket, and it has asked for the words there.
  abbrev pub AsksFrom : (server : ℕ) → List (List ℕ) → World → Exit World → Type 0
  AsksFrom server ws w exit =
      ((e : Errno) × (w' : World) × (socket w ≡ (FdResult.failed e, w'))
        × (exit ≡ Exit.returned 0 w')
        × (heard w' ≡ heard w)
        × (said w' ≡ said w))
      ⊎ ((fd : ℕ) × (w1 : World) × (socket w ≡ (FdResult.opened fd, w1))
          × ((view w).is_open fd ≡ false)
          × (view w1 ≡ record (view w) { is_open = update (view w).is_open fd true })
          × (heard w1 ≡ heard w)
          × (said w1 ≡ said w)
          × Asks fd server ws w1 exit)

  ask_none-returned :
      (gap : List ℕ) (ps : List (List ℕ × List ℕ)) (w : World)
      → AllSpace gap
      → AllWords ps
      → ask_none K D (typed gap ps) w ≡ Exit.returned 0 w
  unfolding ask_none
  ask_none-returned gap [] w hg h = rw (scanf-AllSpace gap hg, ask_none)
  ask_none-returned gap ((word, gap') ∷ ps) w hg h =
      rw (scanf-typed gap word gap' ps hg h, ask_none, lt→ltb (length word) buff_size h.0.2) refl

  socketed :
      (fuel server : ℕ) (gap : List ℕ) (ps : List (List ℕ × List ℕ)) (w : World)
      (result : FdResult × World)
      → AllSpace gap
      → AllWords ps
      → length ps < fuel
      → socket w ≡ result
      → AfterSocket (view w) result.0 (view result.1)
      → (heard result.1 ≡ heard w) × (said result.1 ≡ said w)
      → AsksFrom server (words ps) w (main K D fuel server (typed gap ps) w)
  unfolding main
  socketed fuel server gap ps w (FdResult.failed err, w1) hg hw enough e law (h, s) =
      rw (e, main, e) (inl (err, w1, refl, ask_none-returned gap ps w1 hg hw, h, s))
  socketed fuel server gap ps w (FdResult.opened fd, w1) hg hw enough e (new, _, law) (h, s) =
      rw (e, main, e)
        (inr (fd, w1, refl, new, law, h, s, ask-Asks fuel fd server gap ps w1 hg hw enough))

  -- On words of text that fit its array, with any white space around them, the client returns 0. If
  -- `socket` has opened a socket, it has sent the words there to the server in order, but for those
  -- that `sendto` refused, and has waited for one answer to each, up to the end of the input or up to
  -- an answer that is empty or a `recvfrom` that fails, and the socket is closed. If `socket` has
  -- failed, nothing is sent.
  pub main-Asks :
      (fuel server : ℕ) (gap : List ℕ) (ps : List (List ℕ × List ℕ)) (w : World)
      → AllSpace gap
      → AllWords ps
      → length ps < fuel
      → AsksFrom server (words ps) w (main K D fuel server (typed gap ps) w)
  main-Asks fuel server gap ps w hg hw enough =
      socketed fuel server gap ps w (socket w) hg hw enough refl (socket_law w)
        (socket_heard w, socket_said w)
