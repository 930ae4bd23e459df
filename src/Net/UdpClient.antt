-- ===== src/Net/UdpClient.antt =====
-- sem10-net-sockets/snippets/udp/udp_client.c.
use caos_seminars.Prelude.{
  ℕ, zero, suc, ◌-◌, Bool, true, false, ◌&&◌, ◌||◌, Option, none, some, List, [], ◌∷◌, length, ltb,
  leb, ◌==◌, if◌then◌else◌,
}
use caos_seminars.Kernel.{Kernel, FdResult}
use caos_seminars.Bytes.{cstring}
use caos_seminars.Net.Datagrams.{Datagrams, RecvResult}
pub mod Words
pub mod Safety

abbrev pub buff_size : ℕ
buff_size = 4096

-- White space, as `isspace` has it: a blank, or one of the characters from `\t` to `\r`.
abbrev pub is_space : ℕ → Bool
is_space c = c == b' ' || (leb 9 c && leb c 13)

-- `%s` passes over white space, ...
unfoldable pub skip : List ℕ → List ℕ
skip [] = []
skip (c ∷ s) = elim (is_space c) [ true ↦ skip s | false ↦ c ∷ s ]

-- ... and takes what stands before the next white space.
unfoldable pub word_of : List ℕ → List ℕ × List ℕ
word_of [] = ([], [])
word_of (c ∷ s) = elim (is_space c) [
  | true ↦ ([], c ∷ s)
  | false ↦ (c ∷ (word_of s).0, (word_of s).1)
]

unfoldable pub next_word : List ℕ → Option (List ℕ × List ℕ)
unfolding word_of
next_word [] = none
next_word (c ∷ s) = some (word_of (c ∷ s))

-- `scanf("%s", buff)` on what is left of the standard input; `none` for EOF.
unfoldable pub scanf : (input : List ℕ) → Option (List ℕ × List ℕ)
unfolding skip next_word
scanf input = next_word (skip input)

-- `overrun`: a word and its NUL do not fit in `buff`.
pub data Exit (W : Type 0) : Type 0 where
  returned : (code : ℕ) (w : W) → Exit W
  overrun : Exit W
  out_of_fuel : Exit W

module _ (K : Kernel) (D : Datagrams K) where
  open K use {World, socket, close}
  open D use {recvfrom, sendto}

  -- The `while (scanf(…) > 0)` and what follows it, on fuel. `server` is the address of the server.
  unfoldable pub ask : (fuel fd server : ℕ) (input : List ℕ) → World → Exit World
  ask zero fd server input w = Exit.out_of_fuel
  ask (suc fuel) fd server input w = elim (scanf input) [
    | none ↦ Exit.returned 0 (close fd w)
    | some (word, input') ↦ elim (ltb (length word) buff_size) [
      | false ↦ Exit.overrun
      | true ↦
          let (result, w2) = recvfrom fd (buff_size - 1) (sendto fd (cstring word) server w).1 in
          elim result [
            | RecvResult.failed _ ↦ Exit.returned 0 (close fd w2)
            | RecvResult.got _ [] ↦ Exit.returned 0 (close fd w2)
            | RecvResult.got _ (b ∷ bs) ↦ ask fuel fd server input' w2
          ]
    ]
  ]

  -- The loop on the -1 of a `socket` that has failed: each call on it fails and does nothing.
  unfoldable pub ask_none : (input : List ℕ) → World → Exit World
  ask_none input w = elim (scanf input) [
    | none ↦ Exit.returned 0 w
    | some (word, _) ↦ if ltb (length word) buff_size then Exit.returned 0 w else Exit.overrun
  ]

  unfoldable pub main : (fuel server : ℕ) (input : List ℕ) → World → Exit World
  main fuel server input w =
      let (result, w1) = socket w in
      elim result [
        | FdResult.failed _ ↦ ask_none input w1
        | FdResult.opened fd ↦ ask fuel fd server input w1
      ]
