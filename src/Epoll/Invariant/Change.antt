-- ===== src/Epoll/Invariant/Change.antt =====
-- The invariant of server_epoll.c under a change of one object, and under its removal.
use caos_seminars.Prelude.{
  ℕ, ◌≡◌, ◌≢◌, sym, ap, ◌∙◌, subst, Bool, false, Option, none, some, List, ◌++◌, append_assoc,
  ==_iff, arith, ◌==◌, inl, inr, Bool-cases,
}
use caos_seminars.Kernel.{update}
use caos_seminars.Kernel.Effects.{View}
use mathlib.Core.Option.{some-injective}
use caos_seminars.Kernel.Moves.{update-other, update-none-some, update-some-some}
use caos_seminars.Epoll.Connection.{FdData}
use caos_seminars.Epoll.Connection.Queue.{pending, ReadBuff, WriteBuff}
use caos_seminars.Prelude.Int.{ℤ}
use mathlib.Core.Path.{ap₂, subst₂}
use caos_seminars.Epoll.Invariant.{Heap, Object, Inv, Keeps, Moved}

-- The view after the object at `ptr`, of descriptor `fd`, was closed and freed.
abbrev pub closed : (fd ptr : ℕ) → View → View
closed fd ptr v = record v {
  is_open = update v.is_open fd false;
  watch = update v.watch fd none;
  allocated = update v.allocated ptr false;
}

module _ {server_fd : ℕ} {heap : Heap} {v : View} (inv : Inv server_fd heap v) {ptr : ℕ}
    {d : FdData} (here : heap ptr ≡ some d) where
  open inv use {objects, clients, listening, server_open}

  -- Objects at two addresses have two descriptors.
  distinct : (q : ℕ) (e : FdData) → heap q ≡ some e → q ≢ ptr → e.fd ≢ d.fd
  distinct q e there ne same = ne (
      some-injective _ _
        (sym (objects q e there).watched ∙ ap v.watch same ∙ (objects ptr d here).watched))

  closed-Object :
      (q : ℕ) (e : FdData) → q ≢ ptr → heap q ≡ some e → Object server_fd (closed d.fd ptr v) q e
  closed-Object q e ne there =
      let o = objects q e there in
      let apart : e.fd ≢ d.fd = distinct q e there ne in
      record {
        watched = update-other v.watch d.fd e.fd none apart ∙ o.watched;
        opened = update-other v.is_open d.fd e.fd false apart ∙ o.opened;
        live = update-other v.allocated ptr q false ne ∙ o.live;
        not_null = o.not_null;
        not_listening = o.not_listening;
        client = o.client;
        valid = o.valid;
        echo = o.echo;
      }

  -- An object is removed with its descriptor.
  pub closed-Inv : Inv server_fd (update heap ptr none) (closed d.fd ptr v)
  closed-Inv =
      let own = objects ptr d here in
      let client : server_fd ≢ d.fd = λ e. own.client (sym e) in
      record {
        objects = λ q e there.
            let (ne, there') = update-none-some heap ptr q e there in closed-Object q e ne there';
        clients = λ fd q watched not_server.
            let (apart, watched') = update-none-some v.watch d.fd fd q watched in
            let (e, there, at_fd) = clients fd q watched' not_server in
            (
              e,
              update-other heap ptr q none (λ same. apart (sym at_fd ∙ same_object q e there same))
                  ∙ there,
              at_fd,
            );
        listening = (
          listening.0,
          update-other v.watch d.fd server_fd none client ∙ listening.1,
          listening.2,
        );
        server_open = update-other v.is_open d.fd server_fd false client ∙ server_open;
      }
    where
      same_object : (q : ℕ) (e : FdData) → heap q ≡ some e → q ≡ ptr → e.fd ≡ d.fd
      same_object q e there same =
          ap (λ (x : FdData). x.fd) (some-injective _ _ (sym there ∙ ap heap same ∙ here))

  pub closed-Keeps : Keeps d.fd v (closed d.fd ptr v)
  closed-Keeps g word ne watched = update-other v.watch d.fd g none ne ∙ watched

  module _ {v' : View} {d' : FdData} (m : Moved d d' v v') where
    open m use {same_fd, same_sent, same_received, same_open, same_watch, same_allocated}

    pub moved-Keeps : Keeps d.fd v v'
    moved-Keeps g word ne watched = ap (λ (f : ℕ → Option ℕ). f g) same_watch ∙ watched

    moved-here : Object server_fd v' ptr d'
    moved-here =
        let own = objects ptr d here in
        record {
          watched = ap₂ (λ (f : ℕ → Option ℕ) g. f g) same_watch same_fd ∙ own.watched;
          opened = ap₂ (λ (f : ℕ → Bool) g. f g) same_open same_fd ∙ own.opened;
          live = ap (λ (f : ℕ → Bool). f ptr) same_allocated ∙ own.live;
          not_null = own.not_null;
          not_listening = own.not_listening;
          client = λ e. own.client (sym same_fd ∙ e);
          valid = m.valid;
          echo = subst (λ g. v'.sent g ++ pending d' ≡ v'.received g) (sym same_fd) m.echo;
        }

    moved-elsewhere : (q : ℕ) (e : FdData) → q ≢ ptr → heap q ≡ some e → Object server_fd v' q e
    moved-elsewhere q e ne there =
        let o = objects q e there in
        let apart : e.fd ≢ d.fd = distinct q e there ne in
        record {
          watched = ap (λ (f : ℕ → Option ℕ). f e.fd) same_watch ∙ o.watched;
          opened = ap (λ (f : ℕ → Bool). f e.fd) same_open ∙ o.opened;
          live = ap (λ (f : ℕ → Bool). f q) same_allocated ∙ o.live;
          not_null = o.not_null;
          not_listening = o.not_listening;
          client = o.client;
          valid = o.valid;
          echo =
              ap (λ l. l ++ pending e) (same_sent e.fd apart)
              ∙ o.echo
              ∙ sym (same_received e.fd apart);
        }

    moved-Object :
        (q : ℕ) (e : FdData) → update heap ptr (some d') q ≡ some e → Object server_fd v' q e
    moved-Object q e there = elim (update-some-some heap ptr q d' e there) [
      | inl (at, same) ↦ subst₂ (Object server_fd v') (sym at) same moved-here
      | inr (ne, there') ↦ moved-elsewhere q e ne there'
    ]

    moved-client :
        (fd q : ℕ)
        → v'.watch fd ≡ some q
        → fd ≢ server_fd
        → (e : FdData) × (update heap ptr (some d') q ≡ some e) × (e.fd ≡ fd)
    moved-client fd q watched not_server =
        let (e, there, at_fd) =
          clients fd q (ap (λ (f : ℕ → Option ℕ). f fd) (sym same_watch) ∙ watched) not_server in
        elim (Bool-cases (ptr == q)) [
          | inl same ↦ (
            d',
            ground arith,
            same_fd
                ∙ ap (λ (x : FdData). x.fd)
                    (some-injective _ _ (sym here ∙ ap heap ((==_iff ptr q).0 same) ∙ there))
                ∙ at_fd,
          )
          | inr differ ↦ (e, ground arith, at_fd)
        ]

    pub moved-Inv : Inv server_fd (update heap ptr (some d')) v'
    moved-Inv = record {
      objects = moved-Object;
      clients = moved-client;
      listening = (
        listening.0,
        ap (λ (f : ℕ → Option ℕ). f server_fd) same_watch ∙ listening.1,
        listening.2,
      );
      server_open = ap (λ (f : ℕ → Bool). f server_fd) same_open ∙ server_open;
    }

  -- `read_buff` and `write_buff` keep the connection an echo.
  pub ReadBuff-Moved : {v' : View} {r : ℤ} {d' : FdData} → ReadBuff d v r d' v' → Moved d d' v v'
  ReadBuff-Moved {v'} {d'} b = record {
    same_fd = b.same_fd;
    valid = b.valid;
    echo =
        ap₂ (λ (f : ℕ → List ℕ) l. f d.fd ++ l) b.moved.same_sent b.queued
        ∙ sym (append_assoc (v.sent d.fd) (pending d) b.bytes)
        ∙ ap (λ l. l ++ b.bytes) (objects ptr d here).echo
        ∙ sym b.moved.here;
    same_sent = λ g ne. ap (λ (f : ℕ → List ℕ). f g) b.moved.same_sent;
    same_received = b.moved.elsewhere;
    same_open = b.moved.same_open;
    same_watch = b.moved.same_watch;
    same_allocated = b.moved.same_allocated;
  }

  pub WriteBuff-Moved : {v' : View} {r : ℤ} {d' : FdData} → WriteBuff d v r d' v' → Moved d d' v v'
  WriteBuff-Moved {v'} {d'} b = record {
    same_fd = b.same_fd;
    valid = b.valid;
    echo =
        ap (λ l. l ++ pending d') b.moved.here
        ∙ append_assoc (v.sent d.fd) b.bytes (pending d')
        ∙ ap (λ l. v.sent d.fd ++ l) b.dequeued
        ∙ (objects ptr d here).echo
        ∙ ap (λ (f : ℕ → List ℕ). f d.fd) (sym b.moved.same_received);
    same_sent = b.moved.elsewhere;
    same_received = λ g ne. ap (λ (f : ℕ → List ℕ). f g) b.moved.same_received;
    same_open = b.moved.same_open;
    same_watch = b.moved.same_watch;
    same_allocated = b.moved.same_allocated;
  }
