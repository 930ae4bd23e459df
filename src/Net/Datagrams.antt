-- ===== src/Net/Datagrams.antt =====
-- What the programs under sem10-net-sockets/snippets/udp take from the system besides `Kernel`:
-- `recvfrom` and `sendto`, which are parameters, and what the manual pages say of them.
use caos_seminars.Prelude.{ℕ, ◌≤◌, ◌≡◌, Bool, true, false, List, [], ◌∷◌, ◌++◌, length}
use caos_seminars.Posix.{Errno}
use caos_seminars.Kernel.{Kernel}
use caos_seminars.Kernel.Effects.{View, Effects}

-- The bytes of a datagram, and the address that it came from or goes to.
pub record Datagram : Type 0 where
  pub peer : ℕ
  pub bytes : List ℕ

pub data RecvResult : Type 0 where
  got : (peer : ℕ) (bytes : List ℕ) → RecvResult
  failed : (e : Errno) → RecvResult

-- `recvfrom(fd, …, count, …)` and `sendto(fd, bytes, length bytes, …, peer)`, which succeeds or not.
pub record Datagrams (K : Kernel) : Type 0 where
  pub recvfrom : (fd count : ℕ) → K.World → RecvResult × K.World
  pub sendto : (fd : ℕ) (bytes : List ℕ) (peer : ℕ) → K.World → Bool × K.World

module _ {W : Type 0} (heard said : W → ℕ → List Datagram) (view : W → View) where
  -- A datagram that is longer than `count` is cut off there; what is got are the first bytes.
  abbrev pub RecvLaw : (fd count : ℕ) → W → RecvResult × W → Type 0
  RecvLaw fd count w (RecvResult.got peer bytes, w') =
      (length bytes ≤ count)
      × (heard w' fd ≡ heard w fd ++ (record { peer = peer; bytes = bytes } ∷ []))
      × (said w' ≡ said w)
      × (view w' ≡ view w)
  RecvLaw fd count w (RecvResult.failed _, w') =
      (heard w' ≡ heard w) × (said w' ≡ said w) × (view w' ≡ view w)

  -- A datagram is sent whole or not at all.
  abbrev pub SendLaw : (fd : ℕ) (bytes : List ℕ) (peer : ℕ) → W → Bool × W → Type 0
  SendLaw fd bytes peer w (true, w') =
      (said w' fd ≡ said w fd ++ (record { peer = peer; bytes = bytes } ∷ []))
      × (heard w' ≡ heard w)
      × (view w' ≡ view w)
  SendLaw fd bytes peer w (false, w') =
      (said w' ≡ said w) × (heard w' ≡ heard w) × (view w' ≡ view w)

-- Every socket has the datagrams got from it so far, and those sent. The other calls move none.
pub record Traffic (K : Kernel) (E : Effects K) (D : Datagrams K) : Type 0 where
  pub heard : K.World → ℕ → List Datagram
  pub said : K.World → ℕ → List Datagram
  pub recv_law :
      (fd count : ℕ) (w : K.World) → RecvLaw heard said E.view fd count w (D.recvfrom fd count w)
  pub send_law :
      (fd : ℕ) (bytes : List ℕ) (peer : ℕ) (w : K.World)
      → SendLaw heard said E.view fd bytes peer w (D.sendto fd bytes peer w)
  pub socket_heard : (w : K.World) → heard (K.socket w).1 ≡ heard w
  pub socket_said : (w : K.World) → said (K.socket w).1 ≡ said w
  pub bind_heard : (fd port : ℕ) (w : K.World) → heard (K.bind fd port w).1 ≡ heard w
  pub bind_said : (fd port : ℕ) (w : K.World) → said (K.bind fd port w).1 ≡ said w
  pub close_heard : (fd : ℕ) (w : K.World) → heard (K.close fd w) ≡ heard w
  pub close_said : (fd : ℕ) (w : K.World) → said (K.close fd w) ≡ said w
