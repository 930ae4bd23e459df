-- ===== src/Epoll/Event/Served.antt =====
-- The states of server_epoll.c that an event may leave, and `close_connection`.
use caos_seminars.Prelude.{ℕ, ◌≡◌, sym, ap, ◌∙◌, subst, false, none, some, arith, ◌==◌}
use mathlib.Core.Path.{fun_ext}
use caos_seminars.Kernel.{Kernel, EpollEvent, update}
use caos_seminars.Kernel.Effects.{View, Effects}
use caos_seminars.Epoll.Connection.{FdData}
use caos_seminars.Epoll.Invariant.{Inv, Keeps, Moved}
use caos_seminars.Epoll.Invariant.Change.{closed, closed-Inv, closed-Keeps, moved-Inv, moved-Keeps}
use caos_seminars.Epoll.Event.{Server, Run, close_connection}

update-twice {ℓ} :
    {A : Type ℓ} (f : ℕ → A) (i : ℕ) (a : A) → update (update f i a) i a ≡ update f i a
update-twice f i a = fun_ext λ j. ground arith

module _ (K : Kernel) (E : Effects K) (server_fd : ℕ) where
  open K use {World}
  open E use {view, del_law, shutdown_law, close_law, free_law, mod_law}

  -- The invariant holds, and the interest list has changed at most at `fd`.
  pub record Served (fd : ℕ) (before : View) (s : Server World) : Type 0 where
    pub inv : Inv server_fd s.heap (view s.world)
    pub keeps : Keeps fd before (view s.world)

  -- The program goes on, in a good state.
  abbrev pub Serves : (fd : ℕ) → View → Run World → Type 0
  Serves fd before run = (s : Server World) × (run ≡ Run.done s) × Served fd before s

  view-closed :
      (fd ptr epoll_fd : ℕ) (w : World)
      → view (K.free ptr (K.close fd (K.shutdown fd (K.epoll_del epoll_fd fd w))))
        ≡ closed fd ptr (view w)
  view-closed fd ptr epoll_fd w =
      rw (free_law ptr _, close_law fd _, shutdown_law fd _, del_law epoll_fd fd w)
        (ap (λ f. record (closed fd ptr (view w)) { watch = f })
          (update-twice (view w).watch fd none))

  pub close_connection-Serves :
      (ptr epoll_fd : ℕ) (s : Server World) {d : FdData}
      → Inv server_fd s.heap (view s.world)
      → s.heap ptr ≡ some d
      → Serves d.fd (view s.world) (close_connection K ptr epoll_fd s)
  unfolding close_connection
  close_connection-Serves ptr epoll_fd s {d} inv here =
      let some_ptr : (ptr == 0) ≡ false = ground (arith, (inv.objects ptr d here).not_null) in
      (
        record {
          heap = update s.heap ptr none;
          world = K.free ptr (K.close d.fd (K.shutdown d.fd (K.epoll_del epoll_fd d.fd s.world)));
        },
        rw (some_ptr, here),
        record {
          inv = rw (view-closed d.fd ptr epoll_fd s.world) (closed-Inv inv here);
          keeps = rw (view-closed d.fd ptr epoll_fd s.world) (closed-Keeps inv here);
        },
      )

  -- The state after `read_buff` or `write_buff` on the object at `ptr`.
  abbrev pub stored : (ptr : ℕ) → Server World → FdData → World → Server World
  stored ptr s d' w' = record { heap = update s.heap ptr (some d'); world = w' }

  -- An object whose bytes moved is served, and stands where it stood.
  pub Moved-Served :
      (ptr : ℕ) (s : Server World) {d d' : FdData} (w' : World)
      → Inv server_fd s.heap (view s.world)
      → s.heap ptr ≡ some d
      → Moved d d' (view s.world) (view w')
      → Served d.fd (view s.world) (stored ptr s d' w')
  Moved-Served ptr s w' inv here m = record {
    inv = moved-Inv inv here m;
    keeps = moved-Keeps inv here m;
  }

  -- Then the events of the object are changed, to the same word.
  pub Served-mod :
      (ptr epoll_fd : ℕ) (event : EpollEvent) {fd : ℕ} {before : View} (s : Server World)
      (d : FdData)
      → Served fd before s
      → s.heap ptr ≡ some d
      → event.word ≡ ptr
      → Served fd before (record s { world = K.epoll_mod epoll_fd d.fd event s.world })
  Served-mod ptr epoll_fd event {fd} {before} s d served here word =
      let same : view (K.epoll_mod epoll_fd d.fd event s.world) ≡ view s.world =
        mod_law epoll_fd d.fd event s.world
          ((served.inv.objects ptr d here).watched ∙ ap some (sym word)) in
      record {
        inv = subst (Inv server_fd s.heap) (sym same) served.inv;
        keeps = subst (Keeps fd before) (sym same) served.keeps;
      }

  pub Served-later :
      {fd fd' : ℕ} {before : View} {s : Server World} {s' : Server World}
      → fd' ≡ fd
      → Served fd before s
      → Served fd' (view s.world) s'
      → Served fd before s'
  Served-later same first second = record {
    inv = second.inv;
    keeps = λ g word ne watched.
        second.keeps g word (λ e. ne (e ∙ same)) (first.keeps g word ne watched);
  }
