-- ===== src/Net/Client.antt =====
-- sem10-net-sockets/snippets/tcp/tcp_client.c.
use caos_seminars.Prelude.{
  ℕ, zero, suc, ◌-◌, Bool, true, false, ◌&&◌, Option, none, some, List, [], ◌∷◌, ◌==◌,
  if◌then◌else◌,
}
use caos_seminars.Bytes.{cstring}
use caos_seminars.Posix.{ReadResult, WriteResult}
use caos_seminars.Kernel.{Kernel, FdResult}
pub mod Lines
pub mod Chat
pub mod Safety

abbrev pub buff_size : ℕ
buff_size = 4096

-- At most `count` bytes of a stream, up to the end of a line, and what follows them.
unfoldable pub line_of : (count : ℕ) (input : List ℕ) → List ℕ × List ℕ
line_of zero input = ([], input)
line_of (suc count) [] = ([], [])
line_of (suc count) (c ∷ input) =
    let (line, rest) = line_of count input in
    if c == b'\n' then (c ∷ [], input) else (c ∷ line, rest)

-- `fgets(buff, size, stdin)`, which leaves room for a NUL, on what is left of the standard input;
-- `none` for NULL.
unfoldable pub fgets : (size : ℕ) (input : List ℕ) → Option (List ℕ × List ℕ)
unfolding line_of
fgets size [] = none
fgets size (c ∷ input) = some (line_of (size - 1) (c ∷ input))

-- The string without the line feed at its end.
unfoldable pub chomp : List ℕ → List ℕ
chomp [] = []
chomp (c ∷ []) = if c == b'\n' then [] else c ∷ []
chomp (c ∷ d ∷ s) = c ∷ chomp (d ∷ s)

-- `strcmp(buff, "q") == 0`
abbrev pub is_q : List ℕ → Bool
is_q [] = false
is_q (c ∷ []) = c == b'q'
is_q (c ∷ d ∷ s) = false

pub data Exit (W : Type 0) : Type 0 where
  returned : (code : ℕ) (w : W) → Exit W
  out_of_fuel : Exit W

module _ (K : Kernel) (connect : (fd : ℕ) → K.World → Bool × K.World) where
  open K use {World, read, write, socket, shutdown, close}

  -- The `while (fgets(…) != NULL)`, on fuel; `none` means that the fuel ran out.
  unfoldable pub chat : (fuel fd : ℕ) (input : List ℕ) → World → Option World
  chat zero fd input w = none
  chat (suc fuel) fd input w = elim (fgets buff_size input) [
    | none ↦ some w
    | some (line, input') ↦ elim (chomp (cstring line)) [
      | [] ↦ chat fuel fd input' w
      | c ∷ text ↦
          let (bytes_sent, w1) = write fd (c ∷ text) w in
          elim bytes_sent [
            | WriteResult.failed _ ↦ some w1
            | WriteResult.wrote zero ↦ some w1
            | WriteResult.wrote (suc k) ↦ elim (is_q (c ∷ text)) [
              | true ↦ some w1
              | false ↦
                  let (bytes_received, w2) = read fd (buff_size - 1) w1 in
                  elim bytes_received [
                    | ReadResult.failed _ ↦ some w2
                    | ReadResult.got [] ↦ some w2
                    | ReadResult.got (b ∷ bs) ↦ chat fuel fd input' w2
                  ]
            ]
          ]
    ]
  ]

  -- The end of `main`.
  abbrev pub hang_up : (fd : ℕ) → Option World → Exit World
  hang_up fd none = Exit.out_of_fuel
  hang_up fd (some w) = Exit.returned 0 (close fd (shutdown fd w))

  -- `main` once it has a socket.
  unfoldable pub dial : (fuel fd : ℕ) (valid : Bool) (input : List ℕ) → World → Exit World
  dial fuel fd valid input w =
      let (connected, w1) = connect fd w in
      let talk = hang_up fd (chat fuel fd input w1) in
      if valid
      then (if connected then talk else Exit.returned 1 (close fd w1))
      else Exit.returned 1 (close fd w)

  -- `valid`: `inet_pton` has read the address. `input` is the standard input up to its end.
  unfoldable pub main : (fuel argc : ℕ) (valid : Bool) (input : List ℕ) → World → Exit World
  main fuel argc valid input w =
      let (result, w1) = socket w in
      if argc == 3
      then elim result [
        | FdResult.failed _ ↦ Exit.returned 1 w1
        | FdResult.opened fd ↦ dial fuel fd valid input w1
      ]
      else Exit.returned 1 w
