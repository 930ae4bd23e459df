-- ===== src/Net/Client/Safety.antt =====
-- The loop and `main` of sem10-net-sockets/snippets/tcp/tcp_client.c.
use caos_seminars.Prelude.{
  ℕ, zero, suc, ◌-◌, ◌≤◌, ◌<◌, ◌≡◌, refl, ap, ◌∙◌, inl, inr, Bool, true, false, none, some, List,
  [], ◌∷◌, arith, length, take, ◌==◌, Bool-cases,
}
use caos_seminars.Posix.{Errno, ReadResult, WriteResult}
use caos_seminars.Kernel.{Kernel, FdResult, update}
use caos_seminars.Kernel.Effects.{View, Effects, AfterRead, AfterWrite, AfterSocket}
use caos_seminars.Kernel.Moves.{Received-none, Received-some, Sent, Sent-none, Sent-some}
use caos_seminars.Bytes.{cstring}
use caos_seminars.Net.Client.{buff_size, fgets, chomp, is_q, chat, Exit, dial, main}
use caos_seminars.Net.Client.Lines.{AllLines, typed, script, next_line}
use caos_seminars.Net.Client.Chat.{Follows, Chat, Chat-over, Chat-turn, Chat-last, Chat-same}

fgets-nil : fgets buff_size [] ≡ none
unfolding fgets
fgets-nil = refl

module _ (K : Kernel) (E : Effects K) (connect : (fd : ℕ) → K.World → Bool × K.World) where
  open K use {World, read, write}
  open E use {view, read_law, write_law}

  abbrev Ends : (fuel fd : ℕ) (input : List ℕ) (ms : List (List ℕ)) → World → Type 0
  Ends fuel fd input ms w =
      (w' : World) × (chat K connect fuel fd input w ≡ some w')
      × Chat K fd ms (view w) (view w')
      × ((view w').is_open ≡ (view w).is_open)

  module _ (fuel fd : ℕ) (c : ℕ) (l : List ℕ) (input : List ℕ) (ls : List (List ℕ)) (w : World)
      (line rest : List ℕ) (got : fgets buff_size input ≡ some (line, rest))
      (clean : chomp (cstring line) ≡ c ∷ l)
      (again : (w' : World) → Ends fuel fd rest (script ls) w') where
    -- The answer to a message that is not the command to quit.
    hear :
        (k : ℕ) (w1 : World) (answer : ReadResult × World)
        → write fd (c ∷ l) w ≡ (WriteResult.wrote (suc k), w1)
        → suc k ≤ length (c ∷ l)
        → Sent fd (take (suc k) (c ∷ l)) (view w) (view w1)
        → is_q (c ∷ l) ≡ false
        → read fd (buff_size - 1) w1 ≡ answer
        → AfterRead fd (buff_size - 1) (view w1) answer.0 (view answer.1)
        → Ends (suc fuel) fd input ((c ∷ l) ∷ script ls) w
    unfolding chat
    hear k w1 (ReadResult.failed err, w2) we few s q re law = (
      w2,
      rw (got, chat, clean, we, q, we, re, we, re) refl,
      Chat-last K fd _ _ s (Received-none fd law)
          (Follows.unanswered (c ∷ l) k (script ls) w1 few (rw re tt)),
      ap (λ (v : View). v.is_open) law ∙ s.same_open,
    )
    hear k w1 (ReadResult.got [], w2) we few s q re law = (
      w2,
      rw (got, chat, clean, we, q, we, re, we, re) refl,
      Chat-last K fd _ _ s (Received-some fd [] law.1)
          (Follows.unanswered (c ∷ l) k (script ls) w1 few (rw re tt)),
      ap (λ (v : View). v.is_open) law.1 ∙ s.same_open,
    )
    hear k w1 (ReadResult.got (b ∷ bs), w2) we few s q re law =
        let (w', runs, talk, kept) = again w2 in
        (
          w',
          rw (got, chat, clean, we, q, we, re, we, re) runs,
          Chat-turn K fd _ talk.turns _ s (Received-some fd (b ∷ bs) law.1)
              (Follows.answered (c ∷ l) k (b ∷ bs) few (omega arith) law.0 talk.follows) talk.sent
              talk.received talk.elsewhere,
          kept ∙ ap (λ (v : View). v.is_open) law.1 ∙ s.same_open,
        )

    -- The message and what follows it, by what `write` gives.
    say :
        (answer : WriteResult × World)
        → write fd (c ∷ l) w ≡ answer
        → AfterWrite fd (c ∷ l) (view w) answer.0 (view answer.1)
        → Ends (suc fuel) fd input (script ((c ∷ l) ∷ ls)) w
    unfolding chat
    say (WriteResult.failed err, w1) we law = (
      w1,
      rw (got, chat, clean, we, we) refl,
      Chat-last K fd _ _ (Sent-none fd law) (Received-none fd refl)
          (Follows.refused (c ∷ l) _ w (rw we tt)),
      ap (λ (v : View). v.is_open) law,
    )
    say (WriteResult.wrote zero, w1) we law = (
      w1,
      rw (got, chat, clean, we, we) refl,
      Chat-last K fd _ _ (Sent-some fd [] law.1) (Received-none fd refl)
          (Follows.refused (c ∷ l) _ w (rw we tt)),
      ap (λ (v : View). v.is_open) law.1,
    )
    say (WriteResult.wrote (suc k), w1) we law = elim (Bool-cases (is_q (c ∷ l))) [
      | inl q ↦ rw q (
        w1,
        rw (got, chat, clean, we, q, we) refl,
        Chat-last K fd _ _ (Sent-some fd (take (suc k) (c ∷ l)) law.1) (Received-none fd refl)
            (Follows.quit (c ∷ l) k law.0 q),
        ap (λ (v : View). v.is_open) law.1,
      )
      | inr other ↦ rw other (
          hear k w1 (read fd (buff_size - 1) w1) we law.0
            (Sent-some fd (take (suc k) (c ∷ l)) law.1) other refl (read_law fd (buff_size - 1) w1))
    ]

  -- The loop comes to its end with fuel for a round for each line and one more.
  pub chat-Chat :
      (fuel fd : ℕ) (ls : List (List ℕ)) (w : World)
      → AllLines ls
      → length ls < fuel
      → Ends fuel fd (typed ls) (script ls) w
  unfolding chat
  chat-Chat zero fd ls w h enough = absurd (omega arith)
  chat-Chat (suc fuel) fd [] w h enough =
      (w, rw (fgets-nil, chat) refl, Chat-over K fd (view w), refl)
  chat-Chat (suc fuel) fd ([] ∷ ls) w (text, room, h) enough =
      let (line, got, clean) = next_line [] (typed ls) text room in
      let (w', runs, talk, kept) = chat-Chat fuel fd ls w h (omega arith) in
      (w', rw (got, chat, clean) runs, talk, kept)
  chat-Chat (suc fuel) fd ((c ∷ l) ∷ ls) w (text, room, h) enough =
      let (line, got, clean) = next_line (c ∷ l) (typed ls) text room in
      say fuel fd c l (typed ((c ∷ l) ∷ ls)) ls w line (typed ls) got clean
        (λ w'. chat-Chat fuel fd ls w' h (omega arith)) (write fd (c ∷ l) w) refl
        (write_law fd (c ∷ l) w)

  -- The reason for which the program returns 1 in the world `w`: the number of arguments, `socket`,
  -- the address or `connect`.
  pub data Failure (argc : ℕ) (valid : Bool) (first : World) : (w : World) → Type 0 where
    usage : (argc == 3) ≡ false → Failure argc valid first first
    no_socket :
        (e : Errno) (w : World)
        → K.socket first ≡ (FdResult.failed e, w)
        → Failure argc valid first w
    no_address :
        (fd : ℕ) (w : World)
        → K.socket first ≡ (FdResult.opened fd, w)
        → valid ≡ false
        → Failure argc valid first (K.close fd w)
    no_connection :
        (fd : ℕ) (w1 w : World)
        → K.socket first ≡ (FdResult.opened fd, w1)
        → connect fd w1 ≡ (false, w)
        → Failure argc valid first (K.close fd w)

  -- The arguments and the address are valid, and `socket` and `connect` have succeeded.
  pub record Connected (argc : ℕ) (valid : Bool) (first : World) (fd : ℕ) : Type 0 where
    pub three : (argc == 3) ≡ true
    pub is_valid : valid ≡ true
    pub before : World
    pub after : World
    pub got : K.socket first ≡ (FdResult.opened fd, before)
    pub connected : connect fd before ≡ (true, after)

  -- The outcome of `main`: it returns 1 because something has failed, and nothing was sent or
  -- received, or it is connected and returns 0 after the conversation, on a descriptor that was not
  -- open before. No descriptor is left open either way.
  pub data Ended (argc : ℕ) (valid : Bool) (ms : List (List ℕ)) (first : World)
      : Exit World → Type 0 where
    refused :
        (w : World)
        → (view w).sent ≡ (view first).sent
        → (view w).received ≡ (view first).received
        → ((g : ℕ) → (view w).is_open g ≡ (view first).is_open g)
        → Failure argc valid first w
        → Ended argc valid ms first (Exit.returned 1 w)
    hung_up :
        (fd : ℕ) (w : World)
        → (view first).is_open fd ≡ false
        → Chat K fd ms (view first) (view w)
        → ((g : ℕ) → (view w).is_open g ≡ (view first).is_open g)
        → Connected argc valid first fd
        → Ended argc valid ms first (Exit.returned 0 w)

  module _ (connect_law : (fd : ℕ) (w : World) → view (connect fd w).1 ≡ view w) where
    open E use {socket_law, shutdown_law, close_law}

    abbrev closing : ℕ → View → View
    closing fd v = record v { is_open = update v.is_open fd false; watch = update v.watch fd none }

    -- A socket that was opened after `v`, and is closed again.
    reclosed :
        (fd : ℕ) (v : View) (w : World)
        → v.is_open fd ≡ false
        → ((g : ℕ) → (view w).is_open g ≡ update v.is_open fd true g)
        → (g : ℕ) → (view (K.close fd w)).is_open g ≡ v.is_open g
    reclosed fd v w new opened g = rw (close_law fd w, opened g) (ground arith)

    -- The socket is closed, and nothing was sent or received on it.
    dropped :
        (fd argc : ℕ) (valid : Bool) (ms : List (List ℕ)) (first w : World)
        → (view first).is_open fd ≡ false
        → view w ≡ record (view first) { is_open = update (view first).is_open fd true }
        → Failure argc valid first (K.close fd w)
        → Ended argc valid ms first (Exit.returned 1 (K.close fd w))
    dropped fd argc valid ms first w new law why =
        Ended.refused (K.close fd w)
          (ap (λ (u : View). u.sent) (close_law fd w) ∙ ap (λ (u : View). u.sent) law)
          (ap (λ (u : View). u.received) (close_law fd w) ∙ ap (λ (u : View). u.received) law)
          (reclosed fd (view first) w new (λ g. ap (λ (u : View). u.is_open g) law)) why

    talked :
        (fd argc : ℕ) (valid : Bool) (ms : List (List ℕ)) (first w w' : World)
        → (view first).is_open fd ≡ false
        → view w ≡ record (view first) { is_open = update (view first).is_open fd true }
        → Chat K fd ms (view w) (view w')
        → (view w').is_open ≡ (view w).is_open
        → Connected argc valid first fd
        → Ended argc valid ms first (Exit.returned 0 (K.close fd (K.shutdown fd w')))
    talked fd argc valid ms first w w' new law talk kept on =
        let w2 = K.shutdown fd w' in
        Ended.hung_up fd (K.close fd w2) new
          (Chat-same K fd ms (ap (λ (u : View). u.sent) law) (ap (λ (u : View). u.received) law)
            (ap (λ (u : View). u.sent) (close_law fd w2 ∙ ap (closing fd) (shutdown_law fd w')))
            (ap (λ (u : View). u.received) (close_law fd w2 ∙ ap (closing fd) (shutdown_law fd w')))
            talk)
          (reclosed fd (view first) w2 new (λ g.
            ap (λ (u : View). u.is_open g) (shutdown_law fd w')
            ∙ ap (λ (f : ℕ → Bool). f g) kept
            ∙ ap (λ (u : View). u.is_open g) law))
          on

    dialled :
        (fuel fd argc : ℕ) (valid : Bool) (ls : List (List ℕ)) (first w : World)
        (answer : Bool × World)
        → (argc == 3) ≡ true
        → K.socket first ≡ (FdResult.opened fd, w)
        → connect fd w ≡ answer
        → view answer.1 ≡ view w
        → AllLines ls
        → length ls < fuel
        → (view first).is_open fd ≡ false
        → view w ≡ record (view first) { is_open = update (view first).is_open fd true }
        → Ended argc valid (script ls) first (dial K connect fuel fd valid (typed ls) w)
    unfolding dial
    dialled fuel fd argc false ls first w answer three got e same h enough new law =
        dropped fd argc false (script ls) first w new law (Failure.no_address fd w got refl)
    dialled fuel fd argc true ls first w (false, w1) three got e same h enough new law =
        rw (e, dial)
          (dropped fd argc true (script ls) first w1 new (same ∙ law)
            (Failure.no_connection fd w w1 got e))
    dialled fuel fd argc true ls first w (true, w1) three got e same h enough new law =
        let (w', runs, talk, kept) = chat-Chat fuel fd ls w1 h enough in
        let on : Connected argc true first fd = record {
          three = three;
          is_valid = refl;
          before = w;
          after = w1;
          got = got;
          connected = e;
        } in
        rw (e, dial, runs)
          (talked fd argc true (script ls) first w1 w' new (same ∙ law) talk kept on)

    socketed :
        (fuel argc : ℕ) (valid : Bool) (ls : List (List ℕ)) (w : World) (answer : FdResult × World)
        → (argc == 3) ≡ true
        → K.socket w ≡ answer
        → AfterSocket (view w) answer.0 (view answer.1)
        → AllLines ls
        → length ls < fuel
        → Ended argc valid (script ls) w (main K connect fuel argc valid (typed ls) w)
    unfolding main
    socketed fuel argc valid ls w (FdResult.failed err, w1) three e law h enough =
        rw (three, main, e, e)
          (Ended.refused w1 (ap (λ (u : View). u.sent) law) (ap (λ (u : View). u.received) law)
            (λ g. ap (λ (u : View). u.is_open g) law) (Failure.no_socket err w1 e))
    socketed fuel argc valid ls w (FdResult.opened fd, w1) three e (new, _, law) h enough =
        rw (three, main, e, e)
          (dialled fuel fd argc valid ls w w1 (connect fd w1) three e refl (connect_law fd w1) h
            enough new law)

    -- For an input of lines that hold no NUL, fit the array and end in a line feed each, with fuel for
    -- a round for each of them and one more, the client ends. If the number of arguments is not 2, or
    -- the socket, the address or the connection fails, it returns 1, having sent and received nothing.
    -- Else it returns 0, and has had on a new descriptor the conversation of the lines that are not
    -- empty, in order, up to the first `q`: each was sent, wholly or up to where `write` stopped, and
    -- answered before the next one was, until `write` or `read` returned 0 or -1. Every descriptor is
    -- open exactly if it was before.
    pub main-Ended :
        (fuel argc : ℕ) (valid : Bool) (ls : List (List ℕ)) (w : World)
        → AllLines ls
        → length ls < fuel
        → Ended argc valid (script ls) w (main K connect fuel argc valid (typed ls) w)
    unfolding main
    main-Ended fuel argc valid ls w h enough = elim (Bool-cases (argc == 3)) [
      | inl three ↦ socketed fuel argc valid ls w (K.socket w) three refl (socket_law w) h enough
      | inr other ↦ rw (other, main) (Ended.refused w refl refl (λ g. refl) (Failure.usage other))
    ]
