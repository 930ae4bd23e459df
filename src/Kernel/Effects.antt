-- ===== src/Kernel/Effects.antt =====
-- What the manual pages say that the calls of `Kernel` do, on the part of the world that the
-- servers under sem10-net-sockets rely on.
use caos_seminars.Prelude.{
  ℕ, ◌%◌, ◌≤◌, ◌≡◌, ◌≢◌, ◌<◌, ◌^◌, ◌∷◌, Bool, true, false, Option, none, some, List, [], ◌++◌,
  length, take,
}
use caos_seminars.Posix.{ReadResult, WriteResult}
use caos_seminars.Kernel.{Kernel, FdResult, EpollEvent, WaitResult, update}

-- The part of the world that the servers rely on.
pub record View : Type 0 where
  -- the bytes that `read` has given from a descriptor, and those that `write` has taken for it
  pub received : ℕ → List ℕ
  pub sent : ℕ → List ℕ
  -- whether a descriptor is open
  pub is_open : ℕ → Bool
  -- the word that a descriptor is registered with in the epoll instance
  pub watch : ℕ → Option ℕ
  -- whether an address is that of an allocated object
  pub allocated : ℕ → Bool

abbrev pub AfterRead : (fd count : ℕ) → View → ReadResult → View → Type 0
AfterRead fd count v (ReadResult.got bs) v' =
    (length bs ≤ count) × (v' ≡ record v { received = update v.received fd (v.received fd ++ bs) })
AfterRead fd count v (ReadResult.failed _) v' = v' ≡ v

abbrev pub AfterWrite : (fd : ℕ) (bytes : List ℕ) → View → WriteResult → View → Type 0
AfterWrite fd bytes v (WriteResult.wrote k) v' =
    (k ≤ length bytes) × (v' ≡ record v { sent = update v.sent fd (v.sent fd ++ take k bytes) })
AfterWrite fd bytes v (WriteResult.failed _) v' = v' ≡ v

-- `accept` returns a descriptor that was not open, of a connection with nothing moved yet.
abbrev pub AfterAccept : View → FdResult → View → Type 0
AfterAccept v (FdResult.opened fd) v' =
    (v.is_open fd ≡ false)
    × (v' ≡ record v {
      received = update v.received fd [];
      sent = update v.sent fd [];
      is_open = update v.is_open fd true;
    })
AfterAccept v (FdResult.failed _) v' = v' ≡ v

-- `calloc` returns NULL, or an address that was not allocated, aligned for any type.
abbrev pub AfterCalloc : View → ℕ → View → Type 0
AfterCalloc v ptr v' =
    (ptr ≢ 0
      → (v.allocated ptr ≡ false)
        × (ptr % 16 ≡ 0)
        × (v' ≡ record v { allocated = update v.allocated ptr true }))
    × (ptr ≡ 0 → v' ≡ v)

abbrev pub AfterAdd : (fd word : ℕ) → View → Bool → View → Type 0
AfterAdd fd word v true v' = v' ≡ record v { watch = update v.watch fd (some word) }
AfterAdd fd word v false v' = v' ≡ v

-- `socket` returns a descriptor that was not open, as a non-negative `int`.
abbrev pub AfterSocket : View → FdResult → View → Type 0
AfterSocket v (FdResult.opened fd) v' =
    (v.is_open fd ≡ false) × (fd < 2 ^ 31) × (v' ≡ record v { is_open = update v.is_open fd true })
AfterSocket v (FdResult.failed _) v' = v' ≡ v

-- `epoll_create1` returns a descriptor that was not open, of an empty interest list.
abbrev pub AfterCreate : View → FdResult → View → Type 0
AfterCreate v (FdResult.opened fd) v' =
    (v.is_open fd ≡ false)
    × (v' ≡ record v { is_open = update v.is_open fd true; watch = λ _. none })
AfterCreate v (FdResult.failed _) v' = v' ≡ v

abbrev pub NotIn : ℕ → List ℕ → Type 0
NotIn fd [] = Unit
NotIn fd (g ∷ gs) = (g ≢ fd) × NotIn fd gs

-- The events are of the registered descriptors `fds`, each of which has one event at most.
abbrev pub Fires : View → List EpollEvent → (fds : List ℕ) → Type 0
Fires v [] [] = Unit
Fires v [] (_ ∷ _) = ⊥
Fires v (_ ∷ _) [] = ⊥
Fires v (e ∷ es) (fd ∷ fds) = (v.watch fd ≡ some e.word) × NotIn fd fds × Fires v es fds

abbrev pub AfterWait : (max_events : ℕ) → View → WaitResult → View → Type 0
AfterWait max_events v (WaitResult.events es) v' =
    (v' ≡ v) × (length es ≤ max_events) × ((fds : List ℕ) × Fires v es fds)
AfterWait max_events v (WaitResult.failed _) v' = v' ≡ v

pub record Effects (K : Kernel) : Type 0 where
  pub view : K.World → View
  pub socket_law : (w : K.World) → AfterSocket (view w) (K.socket w).0 (view (K.socket w).1)
  pub setsockopt_law : (fd : ℕ) (w : K.World) → view (K.setsockopt fd w).1 ≡ view w
  pub bind_law : (fd port : ℕ) (w : K.World) → view (K.bind fd port w).1 ≡ view w
  pub listen_law : (fd : ℕ) (w : K.World) → view (K.listen fd w).1 ≡ view w
  pub create_law :
      (w : K.World) → AfterCreate (view w) (K.epoll_create w).0 (view (K.epoll_create w).1)
  pub wait_law :
      (epoll_fd max_events : ℕ) (w : K.World)
      → 0 < max_events
      → AfterWait max_events
          (view w)
          (K.epoll_wait epoll_fd max_events w).0
          (view (K.epoll_wait epoll_fd max_events w).1)
  pub read_law :
      (fd count : ℕ) (w : K.World)
      → AfterRead fd count (view w) (K.read fd count w).0 (view (K.read fd count w).1)
  pub write_law :
      (fd : ℕ) (bytes : List ℕ) (w : K.World)
      → AfterWrite fd bytes (view w) (K.write fd bytes w).0 (view (K.write fd bytes w).1)
  pub accept_law :
      (server_fd : ℕ) (w : K.World)
      → AfterAccept (view w) (K.accept server_fd w).0 (view (K.accept server_fd w).1)
  pub shutdown_law : (fd : ℕ) (w : K.World) → view (K.shutdown fd w) ≡ view w
  -- Closing a descriptor also takes it off the interest list.
  pub close_law :
      (fd : ℕ) (w : K.World)
      → view (K.close fd w) ≡ record (view w) {
        is_open = update (view w).is_open fd false;
        watch = update (view w).watch fd none;
      }
  pub get_flags_law : (fd : ℕ) (w : K.World) → view (K.get_flags fd w).1 ≡ view w
  pub set_nonblock_law : (fd flags : ℕ) (w : K.World) → view (K.set_nonblock fd flags w).1 ≡ view w
  pub calloc_law : (w : K.World) → AfterCalloc (view w) (K.calloc w).0 (view (K.calloc w).1)
  pub free_law :
      (ptr : ℕ) (w : K.World)
      → view (K.free ptr w) ≡ record (view w) { allocated = update (view w).allocated ptr false }
  pub add_law :
      (epoll_fd fd : ℕ) (event : EpollEvent) (w : K.World)
      → AfterAdd fd event.word
          (view w)
          (K.epoll_add epoll_fd fd event w).0
          (view (K.epoll_add epoll_fd fd event w).1)
  -- A change of the events of a registered descriptor, to the same word.
  pub mod_law :
      (epoll_fd fd : ℕ) (event : EpollEvent) (w : K.World)
      → (view w).watch fd ≡ some event.word
      → view (K.epoll_mod epoll_fd fd event w) ≡ view w
  pub del_law :
      (epoll_fd fd : ℕ) (w : K.World)
      → view (K.epoll_del epoll_fd fd w) ≡ record (view w) { watch = update (view w).watch fd none }
