-- ===== src/Net/Session/Echo.antt =====
-- What a client of the servers over TCP hears back.
use caos_seminars.Prelude.{
  ℕ, zero, suc, ◌+◌, ◌-◌, ◌≤◌, ◌≡◌, ◌≢◌, refl, sym, subst, ap, ◌∙◌, inl, inr, ◌⊎◌, Bool, true,
  false, List, [], ◌∷◌, ◌++◌, arith, length, take, drop, Bool-cases, append_assoc,
}
use mathlib.Core.List.{append-nil}
use caos_seminars.Bytes.{take-take}
use caos_seminars.Prelude.Int.{ℤ, pos, negsuc}
use caos_seminars.Kernel.{Kernel}
use caos_seminars.Kernel.Effects.{View, Effects}
use caos_seminars.Kernel.Moves.{Received, Sent}
use caos_seminars.Net.Message.{read_message}
use caos_seminars.Net.Message.Spec.{IsMessage, Reads, read_message-Reads}
use caos_seminars.Net.Message.Write.{Stops, Writes, write_message-Writes}
use caos_seminars.Net.Session.{Talk, buff_size, session}
use caos_seminars.Net.Session.Quit.{says_quit, Tests}

-- A message, and how many of its bytes went back.
abbrev pub Exchange : Type 0
Exchange = List ℕ × ℕ

abbrev pub heard : List Exchange → List ℕ
heard [] = []
heard ((bytes, _) ∷ rest) = bytes ++ heard rest

abbrev pub answered : List Exchange → List ℕ
answered [] = []
answered ((bytes, count) ∷ rest) = take count bytes ++ answered rest

module _ (K : Kernel) where
  open K use {World}

  -- The message is not the quit command. All of it went back, or `write` returned 0 or -1 for
  -- what follows the first `count` bytes in the array.
  pub record Answers (fd : ℕ) (bytes : List ℕ) (count : ℕ) : Type 0 where
    pub other : says_quit bytes ≡ false
    pub fits : count ≤ length bytes
    pub ending :
        (length bytes ≤ count)
        ⊎ ((buff : List ℕ) × (w : World) × IsMessage bytes buff
            × Stops (K.write fd (take (length bytes - count) (drop count buff)) w).0)

  abbrev pub AllAnswer : ℕ → List Exchange → Type 0
  AllAnswer fd [] = Unit
  AllAnswer fd ((bytes, count) ∷ rest) = Answers fd bytes count × AllAnswer fd rest

  -- Between two views, the messages were received and answered one after the other, `last` was
  -- received and not answered, and nothing else happened.
  pub record Echo (fd : ℕ) (last : List ℕ) (v v' : View) : Type 0 where
    pub exchanges : List Exchange
    pub answers : AllAnswer fd exchanges
    pub received : v'.received fd ≡ v.received fd ++ (heard exchanges ++ last)
    pub sent : v'.sent fd ≡ v.sent fd ++ answered exchanges
    pub elsewhere : (g : ℕ) → g ≢ fd → (v'.received g ≡ v.received g) × (v'.sent g ≡ v.sent g)
    pub same_open : v'.is_open ≡ v.is_open
    pub same_watch : v'.watch ≡ v.watch
    pub same_allocated : v'.allocated ≡ v.allocated

  Echo-last : (fd : ℕ) (last : List ℕ) {v v' : View} → Received fd last v v' → Echo fd last v v'
  Echo-last fd last {v} {v'} r = record {
    exchanges = [];
    answers = tt;
    received = r.here;
    sent = ap (λ (s : ℕ → List ℕ). s fd) r.same_sent ∙ sym (append-nil (v.sent fd));
    elsewhere = λ g ne. (r.elsewhere g ne, ap (λ (s : ℕ → List ℕ). s g) r.same_sent);
    same_open = r.same_open;
    same_watch = r.same_watch;
    same_allocated = r.same_allocated;
  }

  Echo-refl : (fd : ℕ) (v : View) → Echo fd [] v v
  Echo-refl fd v = Echo-last fd [] (record {
    here = sym (append-nil (v.received fd));
    elsewhere = λ g ne. refl;
    same_sent = refl;
    same_open = refl;
    same_watch = refl;
    same_allocated = refl;
  })

  Echo-more :
      (fd : ℕ) (last bytes : List ℕ) (count : ℕ) {v v1 v2 v' : View}
      → Answers fd bytes count
      → Received fd bytes v v1
      → Sent fd (take count bytes) v1 v2
      → Echo fd last v2 v'
      → Echo fd last v v'
  Echo-more fd last bytes count {v} {v1} {v2} {v'} a r s rest = record {
    exchanges = (bytes, count) ∷ rest.exchanges;
    answers = (a, rest.answers);
    received =
        rest.received
        ∙ ap (λ (f : ℕ → List ℕ). f fd ++ (heard rest.exchanges ++ last)) s.same_received
        ∙ ap (λ l. l ++ (heard rest.exchanges ++ last)) r.here
        ∙ append_assoc (v.received fd) bytes (heard rest.exchanges ++ last)
        ∙ ap (λ l. v.received fd ++ l) (sym (append_assoc bytes (heard rest.exchanges) last));
    sent =
        rest.sent
        ∙ ap (λ l. l ++ answered rest.exchanges) s.here
        ∙ ap (λ (f : ℕ → List ℕ). (f fd ++ take count bytes) ++ answered rest.exchanges) r.same_sent
        ∙ append_assoc (v.sent fd) (take count bytes) (answered rest.exchanges);
    elsewhere = λ g ne. (
      (rest.elsewhere g ne).0 ∙ ap (λ (f : ℕ → List ℕ). f g) s.same_received ∙ r.elsewhere g ne,
      (rest.elsewhere g ne).1 ∙ s.elsewhere g ne ∙ ap (λ (f : ℕ → List ℕ). f g) r.same_sent,
    );
    same_open = rest.same_open ∙ s.same_open ∙ r.same_open;
    same_watch = rest.same_watch ∙ s.same_watch ∙ r.same_watch;
    same_allocated = rest.same_allocated ∙ s.same_allocated ∙ r.same_allocated;
  }

  -- The number of exchanges, none at first and one more with each message.
  Echo-none : (fd : ℕ) (v : View) → (echo : Echo fd [] v v) × (length echo.exchanges ≡ 0)
  unfolding Echo-refl Echo-last
  Echo-none fd v = (Echo-refl fd v, refl)

  Echo-answered :
      (fd : ℕ) (last bytes : List ℕ) (count : ℕ) {v v1 v2 v' : View} {n : ℕ}
      → Answers fd bytes count
      → Received fd bytes v v1
      → Sent fd (take count bytes) v1 v2
      → (rest : Echo fd last v2 v') → length rest.exchanges ≡ n
      → (echo : Echo fd last v v') × (length echo.exchanges ≡ suc n)
  unfolding Echo-more
  Echo-answered fd last bytes count a r s rest e =
      (Echo-more fd last bytes count a r s rest, ap suc e)

  Writes-Answers :
      (fd : ℕ) (bytes buff : List ℕ) {v v' : View}
      → IsMessage bytes buff
      → says_quit bytes ≡ false
      → (ws : Writes K fd buff 0 (length bytes) v v')
      → Answers fd bytes ws.count × Sent fd (take ws.count bytes) v v'
  Writes-Answers fd bytes buff {v} {v'} m other ws = (
    record {
      other = other;
      fits = ws.fits;
      ending = elim ws.ending [
        | inl all ↦ inl all
        | inr (w, stops) ↦
            let same : 0 + ws.count ≡ ws.count = omega arith in inr (buff, w, m, rw same at stops)
      ];
    },
    subst (λ l. Sent fd l v v')
        (sym (take-take ws.count (length bytes) buff ws.fits) ∙ ap (take ws.count) m.content)
        ws.moved,
  )

-- A call of `read_message` has given no bytes or an error, and has left the world `w`.
pub record GaveNothing (K : Kernel) (fd : ℕ) (w : K.World) : Type 0 where
  pub before : K.World
  pub buff : List ℕ
  pub result : ℤ
  pub buff' : List ℕ
  pub size : length buff ≡ buff_size
  pub ran : read_message K.files fd buff buff_size before ≡ (result, buff', w)
  pub nothing : (result ≡ pos 0) ⊎ (result ≡ negsuc 0)

-- The outcome of the loop: the client is still served, and a message was answered in each of the
-- `rounds` rounds that the loop was given; or it has sent the quit command, or nothing
-- was left unanswered when `read_message`, the last call of the loop, has given nothing.
abbrev pub Talks : (K : Kernel) (E : Effects K) (rounds fd : ℕ) (v : View) → Talk K.World → Type 0
Talks K E rounds fd v (Talk.running msg w) =
    (length msg ≡ buff_size)
    × ((echo : Echo K fd [] v (E.view w)) × (length echo.exchanges ≡ rounds))
Talks K E rounds fd v (Talk.ended w) =
    (last : List ℕ) × (((last ≡ []) × GaveNothing K fd w) ⊎ (says_quit last ≡ true))
    × Echo K fd last v (E.view w)
Talks K E rounds fd v Talk.out_of_fuel = ⊥

module _ (K : Kernel) (E : Effects K) (is_quit : List ℕ → ℕ → Bool) (tests : Tests is_quit) where
  open K use {World}
  open E use {view}

  Talks-more :
      (rounds fd : ℕ) (bytes : List ℕ) (count : ℕ) {v v1 v2 : View} (out : Talk World)
      → Answers K fd bytes count
      → Received fd bytes v v1
      → Sent fd (take count bytes) v1 v2
      → Talks K E rounds fd v2 out
      → Talks K E (suc rounds) fd v out
  Talks-more rounds fd bytes count (Talk.running msg w) a r s (e, (rest, all)) =
      (e, Echo-answered K fd [] bytes count a r s rest all)
  Talks-more rounds fd bytes count (Talk.ended w) a r s (last, why, rest) =
      (last, why, Echo-more K fd last bytes count a r s rest)
  Talks-more rounds fd bytes count Talk.out_of_fuel a r s rest = rest

  -- One round, by the outcome of `read_message`.
  session_round :
      (rounds fd : ℕ) (msg : List ℕ) (w : World) (n : ℤ) (msg' : List ℕ) (w1 : World)
      → length msg ≡ buff_size
      → read_message K.files fd msg buff_size w ≡ (n, msg', w1)
      → Reads fd msg (view w) n msg' (view w1)
      → ((msg2 : List ℕ) (w2 : World)
          → length msg2 ≡ buff_size
          → Talks K E rounds fd (view w2) (session K.files is_quit rounds fd msg2 w2))
      → Talks K E (suc rounds) fd (view w) (session K.files is_quit (suc rounds) fd msg w)
  unfolding session
  session_round rounds fd msg w n msg' w1 size e (Reads.nothing (inl zero_bytes) same r) again =
      rw (e, session, zero_bytes, e)
        (
          [],
          inl (
            refl,
            record {
              before = w;
              buff = msg;
              result = n;
              buff' = msg';
              size = size;
              ran = e;
              nothing = inl zero_bytes;
            },
          ),
          Echo-last K fd [] r,
        )
  session_round rounds fd msg w n msg' w1 size e (Reads.nothing (inr error) same r) again =
      rw (e, session, error, e)
        (
          [],
          inl (
            refl,
            record {
              before = w;
              buff = msg;
              result = n;
              buff' = msg';
              size = size;
              ran = e;
              nothing = inr error;
            },
          ),
          Echo-last K fd [] r,
        )
  session_round rounds fd msg w n msg' w1 size e (Reads.message [] some_bytes en fits m r) again =
      absurd (omega arith)
  session_round rounds fd msg w n msg' w1 size e (Reads.message (b ∷ bs) some_bytes en fits m r)
        again =
      let q = tests (b ∷ bs) msg' some_bytes m in
      elim (Bool-cases (says_quit (b ∷ bs))) [
        | inl quit ↦ rw (e, session, en, e, q ∙ quit) (b ∷ bs, inr quit, Echo-last K fd (b ∷ bs) r)
        | inr other ↦
            let (w2, runs, ws) = write_message-Writes K E fd msg' (length (b ∷ bs)) w1 in
            let (answers, s) = Writes-Answers K fd (b ∷ bs) msg' m other ws in
            rw (e, session, en, e, q ∙ other, runs, e)
              (Talks-more rounds fd (b ∷ bs) ws.count _ answers r s (again msg' w2 (fits ∙ size)))
      ]

  -- The loop over the messages of a client, for any number of rounds. Each message but the last was
  -- answered, in order, with all of its bytes or with those before a `write` that returned 0 or -1;
  -- while the loop goes on, there is one in each round. The loop ends at the quit command, or with a
  -- `read_message` that has given no bytes or an error, behind which it does nothing more. It has moved
  -- no byte of another descriptor, and opened and closed none.
  pub session-Talks :
      (rounds fd : ℕ) (msg : List ℕ) (w : World)
      → length msg ≡ buff_size
      → Talks K E rounds fd (view w) (session K.files is_quit rounds fd msg w)
  unfolding session
  session-Talks zero fd msg w size = (size, Echo-none K fd (view w))
  session-Talks (suc rounds) fd msg w size =
      session_round rounds fd msg w _ _ _ size refl
        (rw size at (read_message-Reads K E fd msg w (omega (arith, size))))
        (session-Talks rounds fd)
