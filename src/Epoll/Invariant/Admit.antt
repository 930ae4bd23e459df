-- ===== src/Epoll/Invariant/Admit.antt =====
-- The invariant of server_epoll.c while a new client is taken in.
use caos_seminars.Prelude.{
  ℕ, ◌≡◌, ◌≢◌, sym, ap, ◌∙◌, true, false, none, some, [], ◌++◌, arith, ◌==◌, inl, inr, Bool-cases,
  length-replicate,
}
use mathlib.Core.Path.{subst₂}
use mathlib.Core.Bool.{false≢true}
use caos_seminars.Bytes.{slice-empty}
use caos_seminars.Kernel.{word_fd, update}
use caos_seminars.Kernel.Effects.{View}
use caos_seminars.Kernel.Moves.{update_self, update-other, update-some-some}
use caos_seminars.Epoll.Connection.{buff_size, FdData, fresh_data}
use caos_seminars.Epoll.Connection.Queue.{pending}
use caos_seminars.Epoll.Invariant.{Heap, Object, Inv}

pub none-ne-some {ℓ} : {A : Type ℓ} {a : A} → none ≡ some a → ⊥
none-ne-some e = cc

-- A descriptor that is neither the listening one nor that of an object.
pub record Stranger (server_fd : ℕ) (heap : Heap) (fd : ℕ) : Type 0 where
  pub not_server : fd ≢ server_fd
  pub no_object : (ptr : ℕ) (d : FdData) → heap ptr ≡ some d → d.fd ≢ fd

-- Nothing has changed but at the descriptor `fd`, and at addresses that hold no object.
pub record Aside (heap : Heap) (fd : ℕ) (v v' : View) : Type 0 where
  pub same_received : (g : ℕ) → g ≢ fd → v'.received g ≡ v.received g
  pub same_sent : (g : ℕ) → g ≢ fd → v'.sent g ≡ v.sent g
  pub same_open : (g : ℕ) → g ≢ fd → v'.is_open g ≡ v.is_open g
  pub same_watch : (g : ℕ) → g ≢ fd → v'.watch g ≡ v.watch g
  pub not_watched : (ptr : ℕ) → v'.watch fd ≡ some ptr → v.watch fd ≡ some ptr
  pub same_allocated :
      (ptr : ℕ) (d : FdData) → heap ptr ≡ some d → v'.allocated ptr ≡ v.allocated ptr

module _ {server_fd : ℕ} {heap : Heap} {v : View} (inv : Inv server_fd heap v) where
  open inv use {objects, clients, listening, server_open}

  -- A descriptor that is not open is a stranger.
  pub closed-Stranger : (fd : ℕ) → v.is_open fd ≡ false → Stranger server_fd heap fd
  closed-Stranger fd shut = record {
    not_server = λ e. false≢true (sym shut ∙ ap v.is_open e ∙ server_open);
    no_object = λ ptr d there e.
        false≢true (sym shut ∙ ap v.is_open (sym e) ∙ (objects ptr d there).opened);
  }

  pub Stranger-unwatched :
      {fd : ℕ} → Stranger server_fd heap fd → (ptr : ℕ) → v.watch fd ≡ some ptr → ⊥
  Stranger-unwatched {fd} s ptr watched =
      let (d, there, at_fd) = clients fd ptr watched s.not_server in s.no_object ptr d there at_fd

  -- Every entry of the interest list stays: a stranger has none.
  pub Aside-Keeps :
      {fd : ℕ} {v' : View}
      → Stranger server_fd heap fd
      → Aside heap fd v v'
      → (g word : ℕ) → v.watch g ≡ some word
      → v'.watch g ≡ some word
  Aside-Keeps {fd} s a g word watched =
      a.same_watch g (λ e. Stranger-unwatched s word (ap v.watch (sym e) ∙ watched)) ∙ watched

  Aside-Object :
      {fd : ℕ} {v' : View}
      → Stranger server_fd heap fd
      → Aside heap fd v v'
      → (ptr : ℕ) (d : FdData) → heap ptr ≡ some d
      → Object server_fd v' ptr d
  Aside-Object s a ptr d there =
      let o = objects ptr d there in
      let apart = s.no_object ptr d there in
      record {
        watched = a.same_watch d.fd apart ∙ o.watched;
        opened = a.same_open d.fd apart ∙ o.opened;
        live = a.same_allocated ptr d there ∙ o.live;
        not_null = o.not_null;
        not_listening = o.not_listening;
        client = o.client;
        valid = o.valid;
        echo =
            ap (λ l. l ++ pending d) (a.same_sent d.fd apart)
            ∙ o.echo
            ∙ sym (a.same_received d.fd apart);
      }

  -- What happens to a stranger does not concern the server's clients.
  pub Aside-Inv :
      {fd : ℕ} {v' : View} → Stranger server_fd heap fd → Aside heap fd v v' → Inv server_fd heap v'
  Aside-Inv {fd} {v'} s a =
      let not_server : server_fd ≢ fd = λ e. s.not_server (sym e) in
      record {
        objects = Aside-Object s a;
        clients = client;
        listening = (listening.0, a.same_watch server_fd not_server ∙ listening.1, listening.2);
        server_open = a.same_open server_fd not_server ∙ server_open;
      }
    where
      client :
          (g ptr : ℕ)
          → v'.watch g ≡ some ptr
          → g ≢ server_fd
          → (d : FdData) × (heap ptr ≡ some d) × (d.fd ≡ g)
      client g ptr watched not_listening = elim (Bool-cases (g == fd)) [
        | inl same ↦
            let e : g ≡ fd = ground arith in
            clients g ptr (ap v.watch e ∙ a.not_watched ptr (ap v'.watch (sym e) ∙ watched))
              not_listening
        | inr differ ↦ clients g ptr (sym (a.same_watch g (ground arith)) ∙ watched) not_listening
      ]

  -- A stranger with nothing moved yet gets an object, and its place on the interest list.
  module _ {fd ptr : ℕ} (s : Stranger server_fd heap fd) (unused : heap ptr ≡ none)
      (live : v.allocated ptr ≡ true) (opened : v.is_open fd ≡ true) (not_null : ptr ≢ 0)
      (not_listening : word_fd ptr ≢ server_fd) (silent : v.received fd ≡ [])
      (unsent : v.sent fd ≡ []) where
    abbrev watching : View
    watching = record v { watch = update v.watch fd (some ptr) }

    fresh-Object : Object server_fd watching ptr (fresh_data fd)
    fresh-Object = record {
      watched = update_self v.watch fd (some ptr);
      opened = opened;
      live = live;
      not_null = not_null;
      not_listening = not_listening;
      client = s.not_server;
      valid = record {
        block = length-replicate {A = ℕ} buff_size 0;
        ordered = omega arith;
        within = omega arith;
      };
      echo =
          ap (λ l. l ++ pending (fresh_data fd)) unsent
          ∙ slice-empty 0 (fresh_data fd).buffer
          ∙ sym silent;
    }

    old-Object : (q : ℕ) (d : FdData) → heap q ≡ some d → Object server_fd watching q d
    old-Object q d there =
        let o = objects q d there in
        record {
          watched = update-other v.watch fd d.fd (some ptr) (s.no_object q d there) ∙ o.watched;
          opened = o.opened;
          live = o.live;
          not_null = o.not_null;
          not_listening = o.not_listening;
          client = o.client;
          valid = o.valid;
          echo = o.echo;
        }

    watching-Object :
        (q : ℕ) (d : FdData)
        → update heap ptr (some (fresh_data fd)) q ≡ some d
        → Object server_fd watching q d
    watching-Object q d there = elim (update-some-some heap ptr q (fresh_data fd) d there) [
      | inl (at, same) ↦ subst₂ (Object server_fd watching) (sym at) same fresh-Object
      | inr (ne, there') ↦ old-Object q d there'
    ]

    watching-client :
        (g q : ℕ)
        → watching.watch g ≡ some q
        → g ≢ server_fd
        → (d : FdData) × (update heap ptr (some (fresh_data fd)) q ≡ some d) × (d.fd ≡ g)
    watching-client g q watched not_server = elim (update-some-some v.watch fd g ptr q watched) [
      | inl (at, same) ↦ (fresh_data fd, ground arith, sym at)
      | inr (ne, watched') ↦
          let (d, there, at) = clients g q watched' not_server in
          (
            d,
            update-other heap ptr q _ (λ e. none-ne-some (sym unused ∙ ap heap (sym e) ∙ there))
                ∙ there,
            at,
          )
    ]

    pub watching-Keeps : (g word : ℕ) → v.watch g ≡ some word → watching.watch g ≡ some word
    watching-Keeps g word watched =
        update-other v.watch fd g (some ptr)
          (λ e. Stranger-unwatched s word (ap v.watch (sym e) ∙ watched))
        ∙ watched

    pub watching-Inv : Inv server_fd (update heap ptr (some (fresh_data fd))) watching
    watching-Inv = record {
      objects = watching-Object;
      clients = watching-client;
      listening = (
        listening.0,
        update-other v.watch fd server_fd (some ptr) (λ e. s.not_server (sym e)) ∙ listening.1,
        listening.2,
      );
      server_open = server_open;
    }
