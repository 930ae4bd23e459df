-- ===== src/Net/Message.antt =====
-- sem10-net-sockets/snippets/tcp/tcp_server.c: `read_message` and `write_message`. Those of
-- tcp-fork/tcp_server.c do the same, and report errors besides.
use caos_seminars.Prelude.{
  ℕ, zero, suc, ◌+◌, ◌-◌, Option, none, some, List, [], ◌∷◌, length, take, drop, ltb, if◌then◌else◌,
}
use caos_seminars.Prelude.Int.{ℤ, pos, minus_one}
use caos_seminars.Bytes.{blit}
use caos_seminars.Posix.{Files, ReadResult, WriteResult}
pub mod Spec
pub mod Write

-- What follows the `read` in `read_message`: the value, and the array with the terminator set.
unfoldable pub terminate : (buff : List ℕ) → ReadResult → ℤ × List ℕ
terminate buff (ReadResult.got []) = (pos 0, buff)
terminate buff (ReadResult.got (b ∷ bs)) =
    let n = length (b ∷ bs) in (pos n, blit n (0 ∷ []) (blit 0 (b ∷ bs) buff))
terminate buff (ReadResult.failed _) = (minus_one, buff)

module _ (F : Files) where
  open F use {World, read, write}

  unfoldable pub read_message :
      (client_fd : ℕ) (buff : List ℕ) (buff_size : ℕ) → World → ℤ × List ℕ × World
  read_message client_fd buff buff_size w =
      let (result, w') = read client_fd (buff_size - 1) w in
      let (n, buff') = terminate buff result in (n, buff', w')

  -- The `while` of `write_message`, on fuel; `none` means that the fuel ran out.
  unfoldable pub write_loop :
      (fuel client_fd : ℕ) (buff : List ℕ) (len total_written : ℕ) → World → Option World
  write_loop zero client_fd buff len total_written w = none
  write_loop (suc fuel) client_fd buff len total_written w =
      let (result, w') = write client_fd (take (len - total_written) (drop total_written buff)) w in
      let next : Option World = elim result [
        | WriteResult.wrote zero ↦ some w'
        | WriteResult.wrote (suc k) ↦ write_loop fuel client_fd buff len (total_written + suc k) w'
        | WriteResult.failed _ ↦ some w'
      ] in
      if ltb total_written len then next else some w

  -- Each round but the last writes a byte or more.
  unfoldable pub write_message : (client_fd : ℕ) (buff : List ℕ) (len : ℕ) → World → Option World
  write_message client_fd buff len w = write_loop (suc (suc len)) client_fd buff len 0 w
