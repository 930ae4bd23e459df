-- ===== src/Kernel.antt =====
-- The system and library calls of the programs under sem10-net-sockets, on an abstract world.
-- The calls are parameters. `Effects` says what each does to the part of the world that the
-- servers rely on, as the manual pages document it.
pub mod Effects
pub mod Moves
use caos_seminars.Prelude.{ℕ, ◌%◌, ◌^◌, Bool, Option, List, ◌==◌, if◌then◌else◌}
use caos_seminars.Posix.{Files, Errno}

-- A descriptor, or -1 with `errno`.
pub data FdResult : Type 0 where
  opened : (fd : ℕ) → FdResult
  failed : (e : Errno) → FdResult

-- The bits of an event mask that the server uses.
pub record Events : Type 0 where
  pub epollin : Bool
  pub epollout : Bool
  pub epollerr : Bool
  pub epollhup : Bool
  pub epollrdhup : Bool
  pub epollet : Bool

-- `struct epoll_event`: `word` is the 64-bit union `data`, whose member `ptr` is the whole word
-- and whose member `fd` is its low 32 bits.
pub record EpollEvent : Type 0 where
  pub events : Events
  pub word : ℕ

-- `event->data.fd`, for a comparison with a descriptor.
abbrev pub word_fd : ℕ → ℕ
word_fd word = word % 2 ^ 32

pub data WaitResult : Type 0 where
  events : (pending : List EpollEvent) → WaitResult
  failed : (e : Errno) → WaitResult

-- A Boolean result is true if the call succeeded. The results that no caller looks at are left out.
pub record Kernel : Type 1 where
  pub files : Files
  pub open files use {World, read, write}
  pub socket : World → FdResult × World
  pub setsockopt : (fd : ℕ) → World → Bool × World
  pub bind : (fd port : ℕ) → World → Bool × World
  pub listen : (fd : ℕ) → World → Bool × World
  pub accept : (server_fd : ℕ) → World → FdResult × World
  pub shutdown : (fd : ℕ) → World → World
  pub close : (fd : ℕ) → World → World
  -- `fcntl(fd, F_GETFL)`, `none` for -1, and `fcntl(fd, F_SETFL, flags | O_NONBLOCK)`
  pub get_flags : (fd : ℕ) → World → Option ℕ × World
  pub set_nonblock : (fd flags : ℕ) → World → Bool × World
  -- `calloc(1, sizeof(fd_data))`, 0 for NULL
  pub calloc : World → ℕ × World
  pub free : (ptr : ℕ) → World → World
  pub epoll_create : World → FdResult × World
  pub epoll_add : (epoll_fd fd : ℕ) (event : EpollEvent) → World → Bool × World
  pub epoll_mod : (epoll_fd fd : ℕ) (event : EpollEvent) → World → World
  pub epoll_del : (epoll_fd fd : ℕ) → World → World
  pub epoll_wait : (epoll_fd max_events : ℕ) → World → WaitResult × World

-- A family of values by descriptor or by address, changed at one place.
abbrev pub update {ℓ} : {A : Type ℓ} → (ℕ → A) → ℕ → A → ℕ → A
update f i a j = if i == j then a else f j
