-- ===== src/Io/ReadRetry.antt =====
-- sem03-lowlevel-io-fs/smart_reprinter.c, `read_retry`.
use caos_seminars.Prelude.{
  ℕ, zero, suc, ◌+◌, ◌-◌, Option, none, some, List, [], ◌∷◌, length, ◌==◌, if◌then◌else◌,
}
use caos_seminars.Prelude.Int.{ℤ, pos, minus_one}
use caos_seminars.Bytes.{blit}
use caos_seminars.Posix.{Files, ReadResult, retryable}
pub mod Spec

module _ (F : Files) where
  open F use {World, read}

  -- The `while (1)`, on fuel; `none` means that the fuel ran out. `off` is `cdata - data`, and
  -- `data` the caller's array. The result is the return value, the array and the world.
  pub read_retry_loop :
      (fuel fd : ℕ) (data' : List ℕ) (off size : ℕ) → World → Option (ℤ × List ℕ × World)
  read_retry_loop zero fd data' off size w = none
  read_retry_loop (suc fuel) fd data' off size w =
      let (result, w') = read fd size w in
      elim result [
        | ReadResult.got [] ↦ some (pos off, data', w')
        | ReadResult.failed e ↦
            let again = read_retry_loop fuel fd data' off size w' in
            if retryable e then again else some (minus_one, data', w')
        | ReadResult.got (b ∷ bs) ↦
            let stored = blit off (b ∷ bs) data' in
            let off' = off + length (b ∷ bs) in
            let size' = size - length (b ∷ bs) in
            let again = read_retry_loop fuel fd stored off' size' w' in
            if size' == 0 then some (pos off', stored, w') else again
      ]

  pub read_retry : (fuel fd : ℕ) (data' : List ℕ) (size : ℕ) → World → Option (ℤ × List ℕ × World)
  unfolding read_retry_loop
  read_retry fuel fd data' size w = read_retry_loop fuel fd data' 0 size w
