-- ===== src/Epoll/Event/Admission.antt =====
-- `accept_client` of server_epoll.c keeps the invariant, on each of its error paths too.
use caos_seminars.Prelude.{
  ℕ, zero, suc, ◌%◌, ◌≡◌, ◌≢◌, refl, sym, ap, ◌∙◌, subst, inl, inr, true, false, Bool, none, some,
  [], arith, ◌==◌, ==_iff, Bool-cases, Option-cases, if◌then◌else◌,
}
use mathlib.Core.Bool.{false≢true}
use caos_seminars.Prelude.Int.{ℤ, pos, negsuc}
use caos_seminars.Kernel.{Kernel, FdResult, update, word_fd}
use caos_seminars.Kernel.Effects.{View, Effects, AfterAccept, AfterCalloc, AfterAdd}
use caos_seminars.Kernel.Moves.{update_self, update-other, update-none-some}
use caos_seminars.Epoll.Connection.{fresh_data}
use caos_seminars.Epoll.Invariant.{Heap, Inv, Keeps}
use caos_seminars.Epoll.Invariant.Admit.{
  Stranger, Aside, closed-Stranger, Aside-Keeps, Aside-Inv, watching-Inv, watching-Keeps,
  none-ne-some,
}
use caos_seminars.Epoll.Event.{Server, disable_io_block, add_client, accept_client, in_events}
use caos_seminars.Epoll.Event.Served.{Served}

module _ (K : Kernel) (E : Effects K) (server_fd : ℕ) (aligned : server_fd % 16 ≢ 0) where
  open K use {World}
  open E use {
    view, accept_law, get_flags_law, set_nonblock_law, calloc_law, free_law, add_law, close_law,
  }

  -- The steps on the way of a new client: the invariant holds, the descriptor is a stranger, and
  -- the entries of the interest list are those before the event.
  record Admitting (heap : Heap) (fd : ℕ) (before now : View) : Type 0 where
    inv : Inv server_fd heap now
    stranger : Stranger server_fd heap fd
    kept : Keeps server_fd before now
    opened : now.is_open fd ≡ true
    silent : now.received fd ≡ []
    unsent : now.sent fd ≡ []

  Admitting-same :
      {heap : Heap} {fd : ℕ} {before now : View} (later : View)
      → later ≡ now
      → Admitting heap fd before now
      → Admitting heap fd before later
  Admitting-same {heap} {fd} {before} later e a = subst (Admitting heap fd before) (sym e) a

  -- A change that does not concern the clients.
  Admitting-Aside :
      {heap : Heap} {fd : ℕ} {before now later : View}
      → Aside heap fd now later
      → Admitting heap fd before now
      → Inv server_fd heap later × Keeps server_fd before later
  Admitting-Aside a ad = (
    Aside-Inv ad.inv ad.stranger a,
    λ g word ne watched. Aside-Keeps ad.inv ad.stranger a g word (ad.kept g word ne watched),
  )

  accepted :
      {heap : Heap} {fd : ℕ} {v v' : View}
      → Inv server_fd heap v
      → AfterAccept v (FdResult.opened fd) v'
      → Admitting heap fd v v'
  accepted {heap} {fd} {v} inv (shut, e) =
      let stranger = closed-Stranger inv fd shut in
      let aside : Aside heap fd v (record v {
        received = update v.received fd [];
        sent = update v.sent fd [];
        is_open = update v.is_open fd true;
      }) =
        record {
          same_received = λ g ne. update-other v.received fd g [] ne;
          same_sent = λ g ne. update-other v.sent fd g [] ne;
          same_open = λ g ne. update-other v.is_open fd g true ne;
          same_watch = λ g ne. refl;
          not_watched = λ ptr watched. watched;
          same_allocated = λ ptr d there. refl;
        } in
      Admitting-same _ e (record {
        inv = Aside-Inv inv stranger aside;
        stranger = stranger;
        kept = λ g word ne watched. watched;
        opened = update_self v.is_open fd true;
        silent = update_self v.received fd [];
        unsent = update_self v.sent fd [];
      })

  pub view-disabled : (fd : ℕ) (w : World) → view (disable_io_block K fd w).1 ≡ view w
  unfolding disable_io_block
  view-disabled fd w = elim (Option-cases (K.get_flags fd w).0) [
    | inl failed ↦ rw (failed, disable_io_block) (get_flags_law fd w)
    | inr (flags, got) ↦
        rw (got, disable_io_block)
          (elim (Bool-cases (K.set_nonblock fd flags (K.get_flags fd w).1).0) [
            | inl ok ↦ rw ok (set_nonblock_law fd flags _ ∙ get_flags_law fd w)
            | inr refused ↦ rw refused (set_nonblock_law fd flags _ ∙ get_flags_law fd w)
          ])
  ]

  -- The error paths end by closing the new descriptor.
  refused :
      {fd : ℕ} {before : View} (s : Server World) (w : World)
      → Admitting s.heap fd before (view w)
      → Served K E server_fd server_fd before (record s { world = K.close fd w })
  refused {fd} {before} s w ad =
      let v = view w in
      let (inv, keeps) =
        Admitting-Aside
          {later = record v { is_open = update v.is_open fd false; watch = update v.watch fd none }}
          (record {
            same_received = λ g ne. refl;
            same_sent = λ g ne. refl;
            same_open = λ g ne. update-other v.is_open fd g false ne;
            same_watch = λ g ne. update-other v.watch fd g none ne;
            not_watched =
                λ ptr watched. absurd ((update-none-some v.watch fd fd ptr watched).0 refl);
            same_allocated = λ ptr d there. refl;
          })
          ad in
      record { inv = rw (close_law fd w) inv; keeps = rw (close_law fd w) keeps }

  -- An address that is marked allocated, or free, and holds no object.
  marked :
      {heap : Heap} {fd : ℕ} {before now : View} (ptr : ℕ) (b : Bool)
      → heap ptr ≡ none
      → Admitting heap fd before now
      → Admitting heap fd before (record now { allocated = update now.allocated ptr b })
  marked {heap} {fd} {now} ptr b unused ad =
      let (inv, keeps) =
        Admitting-Aside {later = record now { allocated = update now.allocated ptr b }}
          (record {
            same_received = λ g ne. refl;
            same_sent = λ g ne. refl;
            same_open = λ g ne. refl;
            same_watch = λ g ne. refl;
            not_watched = λ q watched. watched;
            same_allocated = λ q d there.
                update-other now.allocated ptr q b
                  (λ e. none-ne-some (sym unused ∙ ap heap (sym e) ∙ there));
          })
          ad in
      record {
        inv = inv;
        stranger = ad.stranger;
        kept = keeps;
        opened = ad.opened;
        silent = ad.silent;
        unsent = ad.unsent;
      }

  -- An address that is not allocated holds no object.
  unused_address :
      {heap : Heap} {v : View} (ptr : ℕ)
      → Inv server_fd heap v
      → v.allocated ptr ≡ false
      → heap ptr ≡ none
  unused_address {heap} ptr inv free = elim (Option-cases (heap ptr)) [
    | inl none_there ↦ none_there
    | inr (d, there) ↦ absurd (false≢true (sym free ∙ (inv.objects ptr d there).live))
  ]

  abbrev added_to : (fd ptr : ℕ) → Server World → Bool → World → Server World
  added_to fd ptr s added w3 =
      if added
      then record { heap = update s.heap ptr (some (fresh_data fd)); world = w3 }
      else record s { world = K.close fd (K.free ptr w3) }

  -- `epoll_ctl` adds the new client, or the object is freed and the descriptor closed.
  module _ (fd epoll_fd ptr : ℕ) {before : View} (s : Server World) (w : World) (not_null : ptr ≢ 0)
      (even : ptr % 16 ≡ 0) (unused : s.heap ptr ≡ none) (live : (view w).allocated ptr ≡ true)
      (ad : Admitting s.heap fd before (view w)) where
    not_listening : word_fd ptr ≢ server_fd
    not_listening e = aligned (omega (arith, even, e))

    added-Served :
        (added : Bool) (w3 : World)
        → AfterAdd fd ptr (view w) added (view w3)
        → Served K E server_fd server_fd before (added_to fd ptr s added w3)
    added-Served true w3 law = record {
      inv = rw law (
          watching-Inv ad.inv ad.stranger unused live ad.opened not_null not_listening ad.silent
            ad.unsent);
      keeps = λ g word ne watched. rw law (
          watching-Keeps ad.inv ad.stranger unused live ad.opened not_null not_listening ad.silent
            ad.unsent g word (ad.kept g word ne watched));
    }
    added-Served false w3 law =
        refused s (K.free ptr w3)
          (Admitting-same _ (free_law ptr w3) (marked ptr false unused (Admitting-same _ law ad)))

  -- What follows `calloc`.
  add_client-calloc :
      (fd epoll_fd : ℕ) {before : View} (s : Server World) (w1 : World) (ptr : ℕ) (w2 : World)
      → AfterCalloc (view w1) ptr (view w2)
      → Admitting s.heap fd before (view w1)
      → Served K E server_fd server_fd before (
          if ptr == 0
          then record s { world = K.close fd w2 }
          else (let (added, w3) =
                K.epoll_add epoll_fd fd (record { events = in_events; word = ptr }) w2 in
              added_to fd ptr s added w3))
  add_client-calloc fd epoll_fd {before} s w1 ptr w2 law ad = elim (Bool-cases (ptr == 0)) [
    | inl null ↦ rw null (refused s w2 (Admitting-same _ (law.1 ((==_iff ptr 0).0 null)) ad))
    | inr some_ptr ↦
        let not_null : ptr ≢ 0 = ground arith in
        let (free, even, e) = law.0 not_null in
        let unused : s.heap ptr ≡ none = unused_address ptr ad.inv free in
        rw some_ptr (
          added-Served fd epoll_fd ptr s w2 not_null even unused
            (ap (λ (v : View). v.allocated ptr) e ∙ update_self (view w1).allocated ptr true)
            (Admitting-same _ e (marked ptr true unused ad)) _ _
            (add_law epoll_fd fd (record { events = in_events; word = ptr }) w2))
  ]

  -- What follows `disable_io_block`, by its value.
  add_client-blocked :
      (fd epoll_fd : ℕ) {before : View} (s : Server World) (r : ℤ)
      → (disable_io_block K fd s.world).0 ≡ r
      → Admitting s.heap fd before (view s.world)
      → Served K E server_fd server_fd before (add_client K fd epoll_fd s)
  unfolding add_client
  add_client-blocked fd epoll_fd s (pos zero) e ad =
      let w1 = (disable_io_block K fd s.world).1 in
      rw (e, add_client)
        (add_client-calloc fd epoll_fd s w1 _ _ (calloc_law w1)
          (Admitting-same _ (view-disabled fd s.world) ad))
  add_client-blocked fd epoll_fd s (pos (suc n)) e ad =
      rw (e, add_client)
        (refused s (disable_io_block K fd s.world).1
          (Admitting-same _ (view-disabled fd s.world) ad))
  add_client-blocked fd epoll_fd s (negsuc n) e ad =
      rw (e, add_client)
        (refused s (disable_io_block K fd s.world).1
          (Admitting-same _ (view-disabled fd s.world) ad))

  accept_client-result :
      (epoll_fd : ℕ) (s : Server World) (result : FdResult) (w1 : World)
      → K.accept server_fd s.world ≡ (result, w1)
      → AfterAccept (view s.world) result (view w1)
      → Inv server_fd s.heap (view s.world)
      → Served K E server_fd server_fd (view s.world) (accept_client K server_fd epoll_fd s)
  unfolding accept_client
  accept_client-result epoll_fd s (FdResult.failed _) w1 e law inv =
      rw (e, accept_client, e)
        (record { inv = rw law inv; keeps = λ g word ne watched. rw law watched })
  accept_client-result epoll_fd s (FdResult.opened fd) w1 e law inv =
      rw (e, accept_client, e)
        (add_client-blocked fd epoll_fd (record s { world = w1 }) _ refl (accepted inv law))

  -- A new connection is taken in, or refused with all that was made for it undone.
  pub accept_client-Served :
      (epoll_fd : ℕ) (s : Server World)
      → Inv server_fd s.heap (view s.world)
      → Served K E server_fd server_fd (view s.world) (accept_client K server_fd epoll_fd s)
  accept_client-Served epoll_fd s inv =
      accept_client-result epoll_fd s (K.accept server_fd s.world).0 (K.accept server_fd s.world).1
        refl (accept_law server_fd s.world) inv
