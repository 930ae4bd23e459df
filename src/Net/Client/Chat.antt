-- ===== src/Net/Client/Chat.antt =====
-- What the loop of sem10-net-sockets/snippets/tcp/tcp_client.c sends, and what it hears back.
use caos_seminars.Prelude.{
  ℕ, suc, ◌-◌, ◌≤◌, ◌<◌, ◌≡◌, ◌≢◌, refl, sym, ap, ◌∙◌, true, List, [], ◌∷◌, ◌++◌, length, take,
  append_assoc,
}
use mathlib.Core.List.{append-nil}
use caos_seminars.Posix.{ReadResult}
use caos_seminars.Kernel.{Kernel}
use caos_seminars.Kernel.Effects.{View}
use caos_seminars.Kernel.Moves.{Received, Sent}
use caos_seminars.Net.Message.Write.{Stops}
use caos_seminars.Net.Client.{buff_size, is_q}

-- A message, how many of its bytes were sent, and what came back for it.
pub record Turn : Type 0 where
  pub text : List ℕ
  pub count : ℕ
  pub reply : List ℕ

abbrev pub spoken : List Turn → List ℕ
spoken [] = []
spoken (t ∷ ts) = take t.count t.text ++ spoken ts

abbrev pub replies : List Turn → List ℕ
replies [] = []
replies (t ∷ ts) = t.reply ++ replies ts

-- A `read` that has got nothing.
abbrev pub Silent : ReadResult → Type 0
Silent (ReadResult.got []) = Unit
Silent (ReadResult.got (_ ∷ _)) = ⊥
Silent (ReadResult.failed _) = Unit

module _ (K : Kernel) where
  open K use {World}

  -- The turns of a conversation that has the messages before it: each message is written, wholly or
  -- in part, and answered before the next. It is over when there are no more messages, after the
  -- command to quit, when `write` has returned 0 or -1, or when `read` has.
  pub data Follows (fd : ℕ) : List Turn → List (List ℕ) → Type 0 where
    over : Follows fd [] []
    answered :
        (m : List ℕ) (k : ℕ) (reply : List ℕ) {ts : List Turn} {ms : List (List ℕ)}
        → suc k ≤ length m
        → 0 < length reply
        → length reply ≤ buff_size - 1
        → Follows fd ts ms
        → Follows fd (record { text = m; count = suc k; reply = reply } ∷ ts) (m ∷ ms)
    quit :
        (m : List ℕ) (k : ℕ)
        → suc k ≤ length m
        → is_q m ≡ true
        → Follows fd (record { text = m; count = suc k; reply = [] } ∷ []) (m ∷ [])
    refused :
        (m : List ℕ) (ms : List (List ℕ)) (w : World)
        → Stops (K.write fd m w).0
        → Follows fd (record { text = m; count = 0; reply = [] } ∷ []) (m ∷ ms)
    unanswered :
        (m : List ℕ) (k : ℕ) (ms : List (List ℕ)) (w : World)
        → suc k ≤ length m
        → Silent (K.read fd (buff_size - 1) w).0
        → Follows fd (record { text = m; count = suc k; reply = [] } ∷ []) (m ∷ ms)

  -- What was sent and received between two views is the conversation on the descriptor alone.
  pub record Chat (fd : ℕ) (ms : List (List ℕ)) (v v' : View) : Type 0 where
    pub turns : List Turn
    pub follows : Follows fd turns ms
    pub sent : v'.sent fd ≡ v.sent fd ++ spoken turns
    pub received : v'.received fd ≡ v.received fd ++ replies turns
    pub elsewhere : (g : ℕ) → g ≢ fd → (v'.sent g ≡ v.sent g) × (v'.received g ≡ v.received g)

  pub Chat-over : (fd : ℕ) (v : View) → Chat fd [] v v
  Chat-over fd v = record {
    turns = [];
    follows = Follows.over;
    sent = sym (append-nil _);
    received = sym (append-nil _);
    elsewhere = λ g ne. (refl, refl);
  }

  -- A turn, and the conversation after it.
  pub Chat-turn :
      (fd : ℕ) (t : Turn) (ts : List Turn) (ms : List (List ℕ)) {v v1 v2 v' : View}
      → Sent fd (take t.count t.text) v v1
      → Received fd t.reply v1 v2
      → Follows fd (t ∷ ts) ms
      → v'.sent fd ≡ v2.sent fd ++ spoken ts
      → v'.received fd ≡ v2.received fd ++ replies ts
      → ((g : ℕ) → g ≢ fd → (v'.sent g ≡ v2.sent g) × (v'.received g ≡ v2.received g))
      → Chat fd ms v v'
  Chat-turn fd t ts ms {v} {v1} s r f later_sent later_received later_else = record {
    turns = t ∷ ts;
    follows = f;
    sent =
        later_sent
        ∙ ap (λ (h : ℕ → List ℕ). h fd ++ spoken ts) r.same_sent
        ∙ ap (λ l. l ++ spoken ts) s.here
        ∙ append_assoc (v.sent fd) (take t.count t.text) (spoken ts);
    received =
        later_received
        ∙ ap (λ l. l ++ replies ts) r.here
        ∙ ap (λ (h : ℕ → List ℕ). (h fd ++ t.reply) ++ replies ts) s.same_received
        ∙ append_assoc (v.received fd) t.reply (replies ts);
    elsewhere = λ g ne. (
      (later_else g ne).0 ∙ ap (λ (h : ℕ → List ℕ). h g) r.same_sent ∙ s.elsewhere g ne,
      (later_else g ne).1 ∙ r.elsewhere g ne ∙ ap (λ (h : ℕ → List ℕ). h g) s.same_received,
    );
  }

  -- The last turn.
  pub Chat-last :
      (fd : ℕ) (t : Turn) (ms : List (List ℕ)) {v v1 v2 : View}
      → Sent fd (take t.count t.text) v v1
      → Received fd t.reply v1 v2
      → Follows fd (t ∷ []) ms
      → Chat fd ms v v2
  Chat-last fd t ms s r f =
      Chat-turn fd t [] ms s r f (sym (append-nil _)) (sym (append-nil _)) (λ g ne. (refl, refl))

  -- Only the bytes of the two views matter.
  pub Chat-same :
      (fd : ℕ) (ms : List (List ℕ)) {v v1 v2 v' : View}
      → v1.sent ≡ v.sent
      → v1.received ≡ v.received
      → v'.sent ≡ v2.sent
      → v'.received ≡ v2.received
      → Chat fd ms v1 v2
      → Chat fd ms v v'
  Chat-same fd ms {v} {v1} s r s' r' c = record {
    turns = c.turns;
    follows = c.follows;
    sent =
        ap (λ (h : ℕ → List ℕ). h fd) s'
        ∙ c.sent
        ∙ ap (λ (h : ℕ → List ℕ). h fd ++ spoken c.turns) s;
    received =
        ap (λ (h : ℕ → List ℕ). h fd) r'
        ∙ c.received
        ∙ ap (λ (h : ℕ → List ℕ). h fd ++ replies c.turns) r;
    elsewhere = λ g ne. (
      ap (λ (h : ℕ → List ℕ). h g) s' ∙ (c.elsewhere g ne).0 ∙ ap (λ (h : ℕ → List ℕ). h g) s,
      ap (λ (h : ℕ → List ℕ). h g) r' ∙ (c.elsewhere g ne).1 ∙ ap (λ (h : ℕ → List ℕ). h g) r,
    );
  }
