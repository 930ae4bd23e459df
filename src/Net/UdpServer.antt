-- ===== src/Net/UdpServer.antt =====
-- sem10-net-sockets/snippets/udp/udp_server.c.
use caos_seminars.Prelude.{ℕ, zero, suc, ◌-◌, Bool, List, [], ◌∷◌, length, take, if◌then◌else◌}
use caos_seminars.Bytes.{blit}
use caos_seminars.Kernel.{Kernel, FdResult}
use caos_seminars.Net.Datagrams.{Datagrams, RecvResult}
pub mod Echo
pub mod Safety

abbrev pub buff_size : ℕ
buff_size = 4096

-- The array with what was got, and a NUL behind it.
abbrev pub stored : (bytes buff : List ℕ) → List ℕ
stored bytes buff = blit (length bytes) (0 ∷ []) (blit 0 bytes buff)

-- `receiving`: the rounds that the loop was given are over, and it goes on from there.
pub data Server (W : Type 0) : Type 0 where
  returned : (code : ℕ) (w : W) → Server W
  receiving : (fd : ℕ) (buff : List ℕ) (w : W) → Server W

module _ (K : Kernel) (D : Datagrams K) where
  open K use {World, socket, bind, close}
  open D use {recvfrom, sendto}

  -- The `while (1)` and what follows it, for `rounds` rounds.
  unfoldable pub serve : (rounds fd : ℕ) (buff : List ℕ) → World → Server World
  serve zero fd buff w = Server.receiving fd buff w
  serve (suc rounds) fd buff w =
      let (result, w1) = recvfrom fd (buff_size - 1) w in
      elim result [
        | RecvResult.failed _ ↦ Server.returned 0 (close fd w1)
        | RecvResult.got _ [] ↦ Server.returned 0 (close fd w1)
        | RecvResult.got peer (b ∷ bs) ↦
            let buff' = stored (b ∷ bs) buff in
            serve rounds fd buff' (sendto fd (take (length (b ∷ bs)) buff') peer w1).1
      ]

  -- `bind` on the -1 of a `socket` that has failed fails too. `port` is that of `argv[2]`.
  unfoldable pub main : (rounds : ℕ) (buff : List ℕ) (port : ℕ) → World → Server World
  main rounds buff port w =
      let (result, w1) = socket w in
      elim result [
        | FdResult.failed _ ↦ Server.returned 1 w1
        | FdResult.opened fd ↦
            let (bound, w2) = bind fd port w1 in
            if bound then serve rounds fd buff w2 else Server.returned 1 w2
      ]
