-- ===== src/Epoll/Event/Loops.antt =====
-- The loop of reads and the write of server_epoll.c keep the invariant.
use caos_seminars.Prelude.{
  ℕ, zero, suc, ◌+◌, ◌<◌, ◌≡◌, refl, ◌∙◌, inl, inr, some, List, length, arith, ◌==◌, Bool-cases,
}
use caos_seminars.Prelude.Int.{ℤ, pos, negsuc}
use caos_seminars.Kernel.{Kernel, EpollEvent}
use caos_seminars.Kernel.Effects.{View, Effects}
use caos_seminars.Kernel.Moves.{update_self}
use caos_seminars.Epoll.Connection.{buff_size, FdData, read_buff, write_buff}
use caos_seminars.Epoll.Connection.Queue.{
  Reports, ReadBuff, WriteBuff, read_buff-ReadBuff, write_buff-WriteBuff,
}
use caos_seminars.Epoll.Invariant.{Inv}
use caos_seminars.Epoll.Invariant.Change.{ReadBuff-Moved, WriteBuff-Moved}
use caos_seminars.Epoll.Event.{Server, LoopRun, in_events, in_out_events, read_loop, write_out}
use caos_seminars.Epoll.Event.Served.{
  Served, Serves, close_connection-Serves, stored, Moved-Served, Served-mod, Served-later,
}

Reports-suc : (n : ℕ) (bytes : List ℕ) → Reports (pos (suc n)) bytes → length bytes ≡ suc n
Reports-suc n bytes h = ground arith

module _ (K : Kernel) (E : Effects K) (server_fd : ℕ) where
  open K use {World}
  open E use {view}

  -- The loop breaks with the object in its place, or returns after a close.
  pub data LoopServes (ptr fd : ℕ) (before : View) (run : LoopRun World) : Type 0 where
    broke :
        (s : Server World) (d : FdData)
        → run ≡ LoopRun.broke s
        → Served K E server_fd fd before s
        → s.heap ptr ≡ some d
        → d.fd ≡ fd
        → LoopServes ptr fd before run
    returned :
        (s : Server World)
        → run ≡ LoopRun.returned s
        → Served K E server_fd fd before s
        → LoopServes ptr fd before run

  LoopServes-later :
      (ptr : ℕ) {fd fd' : ℕ} {before : View} {s : Server World} {run : LoopRun World}
      → fd' ≡ fd
      → Served K E server_fd fd before s
      → LoopServes ptr fd' (view s.world) run
      → LoopServes ptr fd before run
  LoopServes-later ptr same first (broke s d e served here at_fd) =
      broke s d e (Served-later K E server_fd same first served) here (at_fd ∙ same)
  LoopServes-later ptr same first (returned s e served) =
      returned s e (Served-later K E server_fd same first served)

  module _ (ptr epoll_fd : ℕ) where
    -- One round of the loop, by the value of `read_buff`.
    read_step :
        (fuel : ℕ) (s : Server World) (d : FdData) (r : ℤ)
        → (read_buff K.files d s.world).0 ≡ r
        → ReadBuff d
            (view s.world)
            r
            (read_buff K.files d s.world).1
            (view (read_buff K.files d s.world).2)
        → Inv server_fd s.heap (view s.world)
        → s.heap ptr ≡ some d
        → buff_size < suc fuel + d.buffer_end
        → ((s' : Server World) (d' : FdData)
            → Inv server_fd s'.heap (view s'.world)
            → s'.heap ptr ≡ some d'
            → buff_size < fuel + d'.buffer_end
            → LoopServes ptr d'.fd (view s'.world) (read_loop K fuel ptr epoll_fd s'))
        → LoopServes ptr d.fd (view s.world) (read_loop K (suc fuel) ptr epoll_fd s)
    unfolding read_loop
    read_step fuel s d (pos zero) er b inv here enough again =
        let (_, d', w') = read_buff K.files d s.world in
        broke (stored K E server_fd ptr s d' w') d' (rw (here, read_loop, er))
          (Moved-Served K E server_fd ptr s w' inv here (ReadBuff-Moved inv here b))
          (update_self s.heap ptr (some d')) b.same_fd
    read_step fuel s d (pos (suc n)) er b inv here enough again =
        let (_, d', w') = read_buff K.files d s.world in
        let event : EpollEvent = record { events = in_out_events; word = ptr } in
        let next = record (stored K E server_fd ptr s d' w') {
          world = K.epoll_mod epoll_fd d'.fd event w';
        } in
        let served =
          Served-mod K E server_fd ptr epoll_fd event (stored K E server_fd ptr s d' w') d'
            (Moved-Served K E server_fd ptr s w' inv here (ReadBuff-Moved inv here b))
            (update_self s.heap ptr (some d')) refl in
        LoopServes-later ptr b.same_fd served (
          rw (here, read_loop, er)
            (again next d' served.inv (update_self s.heap ptr (some d'))
              (omega (arith, b.grown, Reports-suc n b.bytes b.value, enough))))
    read_step fuel s d (negsuc n) er b inv here enough again =
        let (_, d', w') = read_buff K.files d s.world in
        let served = Moved-Served K E server_fd ptr s w' inv here (ReadBuff-Moved inv here b) in
        let (s', runs, closes) =
          close_connection-Serves K E server_fd ptr epoll_fd (stored K E server_fd ptr s d' w')
            served.inv (update_self s.heap ptr (some d')) in
        returned s' (rw (here, read_loop, er, runs))
          (Served-later K E server_fd b.same_fd served closes)

    pub read_loop-Serves :
        (fuel : ℕ) (s : Server World) (d : FdData)
        → Inv server_fd s.heap (view s.world)
        → s.heap ptr ≡ some d
        → buff_size < fuel + d.buffer_end
        → LoopServes ptr d.fd (view s.world) (read_loop K fuel ptr epoll_fd s)
    read_loop-Serves zero s d inv here enough =
        absurd (omega (arith, (inv.objects ptr d here).valid.within, enough))
    read_loop-Serves (suc fuel) s d inv here enough =
        read_step fuel s d (read_buff K.files d s.world).0 refl
          (read_buff-ReadBuff K E d s.world (inv.objects ptr d here).valid) inv here enough
          (read_loop-Serves fuel)

    write_step :
        (s : Server World) (d : FdData) (r : ℤ)
        → (write_buff K.files d s.world).0 ≡ r
        → WriteBuff d
            (view s.world)
            r
            (write_buff K.files d s.world).1
            (view (write_buff K.files d s.world).2)
        → Inv server_fd s.heap (view s.world)
        → s.heap ptr ≡ some d
        → Serves K E server_fd d.fd (view s.world) (write_out K ptr epoll_fd s)
    unfolding write_out
    write_step s d (negsuc n) er b inv here =
        let (_, d', w') = write_buff K.files d s.world in
        let served = Moved-Served K E server_fd ptr s w' inv here (WriteBuff-Moved inv here b) in
        let (s', runs, closes) =
          close_connection-Serves K E server_fd ptr epoll_fd (stored K E server_fd ptr s d' w')
            served.inv (update_self s.heap ptr (some d')) in
        (s', rw (here, write_out, er, runs), Served-later K E server_fd b.same_fd served closes)
    write_step s d (pos n) er b inv here =
        let (_, d', w') = write_buff K.files d s.world in
        let event : EpollEvent = record { events = in_events; word = ptr } in
        let after = stored K E server_fd ptr s d' w' in
        let served = Moved-Served K E server_fd ptr s w' inv here (WriteBuff-Moved inv here b) in
        elim (Bool-cases (d'.buffer_begin == d'.buffer_end)) [
          | inl empty ↦ (
            record after { world = K.epoll_mod epoll_fd d'.fd event w' },
            rw (here, write_out, er, empty),
            Served-mod K E server_fd ptr epoll_fd event after d' served
                (update_self s.heap ptr (some d')) refl,
          )
          | inr left ↦ (after, rw (here, write_out, er, left), served)
        ]

    pub write_out-Serves :
        (s : Server World) (d : FdData)
        → Inv server_fd s.heap (view s.world)
        → s.heap ptr ≡ some d
        → Serves K E server_fd d.fd (view s.world) (write_out K ptr epoll_fd s)
    write_out-Serves s d inv here =
        write_step s d (write_buff K.files d s.world).0 refl
          (write_buff-WriteBuff K E d s.world (inv.objects ptr d here).valid) inv here
