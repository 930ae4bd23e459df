-- ===== src/Epoll/Invariant.antt =====
-- What holds between the events of server_epoll.c: the objects of `fd_data` on the heap, the
-- descriptors and the interest list fit together, and every connection is an echo so far.
pub mod Change
pub mod Admit
use caos_seminars.Prelude.{ℕ, ◌≡◌, ◌≢◌, true, Option, some, ◌++◌}
use caos_seminars.Kernel.{word_fd}
use caos_seminars.Kernel.Effects.{View}
use caos_seminars.Epoll.Connection.{FdData}
use caos_seminars.Epoll.Connection.Queue.{IsBuffer, pending}

abbrev pub Heap : Type 0
Heap = ℕ → Option FdData

-- The object `d` at the address `ptr`. No event of its is taken for one of the listening socket,
-- and what was sent to its client, with what is still in the buffer, is what the client sent.
pub record Object (server_fd : ℕ) (v : View) (ptr : ℕ) (d : FdData) : Type 0 where
  pub watched : v.watch d.fd ≡ some ptr
  pub opened : v.is_open d.fd ≡ true
  pub live : v.allocated ptr ≡ true
  pub not_null : ptr ≢ 0
  pub not_listening : word_fd ptr ≢ server_fd
  pub client : d.fd ≢ server_fd
  pub valid : IsBuffer d
  pub echo : v.sent d.fd ++ pending d ≡ v.received d.fd

pub record Inv (server_fd : ℕ) (heap : Heap) (v : View) : Type 0 where
  -- No object is lost: each is on the interest list.
  pub objects : (ptr : ℕ) (d : FdData) → heap ptr ≡ some d → Object server_fd v ptr d
  -- No entry of the interest list dangles.
  pub clients :
      (fd ptr : ℕ)
      → v.watch fd ≡ some ptr
      → fd ≢ server_fd
      → (d : FdData) × (heap ptr ≡ some d) × (d.fd ≡ fd)
  pub listening : (word : ℕ) × (v.watch server_fd ≡ some word) × (word_fd word ≡ server_fd)
  pub server_open : v.is_open server_fd ≡ true

-- The descriptors other than `fd` that were on the interest list are on it with the same word.
abbrev pub Keeps : (fd : ℕ) → View → View → Type 0
Keeps fd v v' = (g word : ℕ) → g ≢ fd → v.watch g ≡ some word → v'.watch g ≡ some word

-- Bytes went in or out of the object `d`, now `d'`, and nothing else happened.
pub record Moved (d d' : FdData) (v v' : View) : Type 0 where
  pub same_fd : d'.fd ≡ d.fd
  pub valid : IsBuffer d'
  pub echo : v'.sent d.fd ++ pending d' ≡ v'.received d.fd
  pub same_sent : (g : ℕ) → g ≢ d.fd → v'.sent g ≡ v.sent g
  pub same_received : (g : ℕ) → g ≢ d.fd → v'.received g ≡ v.received g
  pub same_open : v'.is_open ≡ v.is_open
  pub same_watch : v'.watch ≡ v.watch
  pub same_allocated : v'.allocated ≡ v.allocated
