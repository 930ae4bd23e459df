-- ===== src/Io/WriteRetry.antt =====
-- sem03-lowlevel-io-fs/buffered_perf.c, `write_retry`.
use caos_seminars.Prelude.{
  ℕ, zero, suc, ◌+◌, ◌-◌, Option, none, some, List, take, drop, ◌==◌, if◌then◌else◌,
}
use caos_seminars.Prelude.Int.{ℤ, pos, minus_one}
use caos_seminars.Posix.{Files, WriteResult, retryable}
pub mod Spec
pub mod Full

module _ (F : Files) where
  open F use {World, write}

  -- The `while (1)`, on fuel; `none` means that the fuel ran out. `off` is `cdata - data`. The
  -- result is the return value and the world.
  pub write_retry_loop : (fuel fd : ℕ) (data' : List ℕ) (off size : ℕ) → World → Option (ℤ × World)
  write_retry_loop zero fd data' off size w = none
  write_retry_loop (suc fuel) fd data' off size w =
      let (result, w') = write fd (take size (drop off data')) w in
      elim result [
        | WriteResult.wrote zero ↦ some (pos off, w')
        | WriteResult.failed e ↦
            let again = write_retry_loop fuel fd data' off size w' in
            if retryable e then again else some (minus_one, w')
        | WriteResult.wrote (suc k) ↦
            let again = write_retry_loop fuel fd data' (off + suc k) (size - suc k) w' in
            if size - suc k == 0 then some (pos (off + suc k), w') else again
      ]

  pub write_retry : (fuel fd : ℕ) (data' : List ℕ) (size : ℕ) → World → Option (ℤ × World)
  unfolding write_retry_loop
  write_retry fuel fd data' size w = write_retry_loop fuel fd data' 0 size w
