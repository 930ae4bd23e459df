-- ===== src/Io/CopyFile.antt =====
-- sem03-lowlevel-io-fs/error_handling_io.c and sized_io.c: both read what fits a buffer of 16 bytes from
-- one descriptor and write it to another, and differ in what they do with an error. The calls of
-- `open`, `malloc` and `close` are left out: the descriptors and the block are arguments.
use caos_seminars.Prelude.{
  ℕ, zero, suc, ◌+◌, ◌-◌, Bool, true, false, List, [], ◌∷◌, length, take, drop, if◌then◌else◌,
}
use caos_seminars.Prelude.Int.{ℤ, pos, minus_one}
use caos_seminars.Bytes.{blit}
use caos_seminars.Posix.{Files, ReadResult, WriteResult, Errno, retryable}
pub mod Filling
pub mod Flushing
pub mod Copied
pub mod Unchecked

abbrev pub buffer_size : ℕ
buffer_size = 16

-- How a loop ended: by its test, with a value, or by `return -1`.
pub data Phase (A W : Type 0) : Type 0 where
  finished : (value : A) (w : W) → Phase A W
  failed : (w : W) → Phase A W
  out_of_fuel : Phase A W

-- The value that a program returns.
pub data Exit (W : Type 0) : Type 0 where
  returned : (code : ℤ) (w : W) → Exit W
  out_of_fuel : Exit W

-- What `main` returns once it has written.
abbrev pub exit_with : {A W : Type 0} → Phase A W → Exit W
exit_with Phase.out_of_fuel = Exit.out_of_fuel
exit_with (Phase.failed w) = Exit.returned minus_one w
exit_with (Phase.finished _ w) = Exit.returned (pos 0) w

-- `errno == EINTR` or `errno == EAGAIN` in error_handling_io.c, and any error in sized_io.c.
abbrev pub Policy : Type 0
Policy = Errno → Bool

abbrev pub any_error : Policy
any_error e = true

module _ (F : Files) (goes_on : Policy) where
  open F use {World, read, write}

  -- The first `do … while`, on fuel: the number of bytes read, and the buffer.
  unfoldable pub fill :
      (fuel input_fd : ℕ) (buffer : List ℕ) (read_bytes : ℕ) → World → Phase (ℕ × List ℕ) World
  fill zero input_fd buffer read_bytes w = Phase.out_of_fuel
  fill (suc fuel) input_fd buffer read_bytes w =
      let (result, w') = read input_fd (buffer_size - read_bytes) w in
      elim result [
        | ReadResult.got [] ↦ Phase.finished (read_bytes, buffer) w'
        | ReadResult.got (b ∷ bs) ↦
            fill fuel input_fd (blit read_bytes (b ∷ bs) buffer) (read_bytes + length (b ∷ bs)) w'
        | ReadResult.failed e ↦
            let again = fill fuel input_fd buffer read_bytes w' in
            if goes_on e then again else Phase.failed w'
      ]

  -- The second one: the number of bytes written.
  unfoldable pub flush :
      (fuel output_fd : ℕ) (buffer : List ℕ) (read_bytes written_bytes : ℕ) → World → Phase ℕ World
  flush zero output_fd buffer read_bytes written_bytes w = Phase.out_of_fuel
  flush (suc fuel) output_fd buffer read_bytes written_bytes w =
      let (result, w') =
        write output_fd (take (read_bytes - written_bytes) (drop written_bytes buffer)) w in
      elim result [
        | WriteResult.wrote zero ↦ Phase.finished written_bytes w'
        | WriteResult.wrote (suc k) ↦
            flush fuel output_fd buffer read_bytes (written_bytes + suc k) w'
        | WriteResult.failed e ↦
            let again = flush fuel output_fd buffer read_bytes written_bytes w' in
            if goes_on e then again else Phase.failed w'
      ]

  -- `main`, with `fuel` for each loop. `buffer` is the block that `malloc` has returned.
  unfoldable pub copy_file : (fuel input_fd output_fd : ℕ) (buffer : List ℕ) → World → Exit World
  copy_file fuel input_fd output_fd buffer w = elim (fill fuel input_fd buffer 0 w) [
    | Phase.out_of_fuel ↦ Exit.out_of_fuel
    | Phase.failed w1 ↦ Exit.returned minus_one w1
    | Phase.finished (read_bytes, filled) w1 ↦
        exit_with (flush fuel output_fd filled read_bytes 0 w1)
  ]

-- The two programs.
unfoldable pub error_handling_io :
    (F : Files) (fuel input_fd output_fd : ℕ) (buffer : List ℕ) → F.World → Exit F.World
error_handling_io F = copy_file F retryable

unfoldable pub sized_io :
    (F : Files) (fuel input_fd output_fd : ℕ) (buffer : List ℕ) → F.World → Exit F.World
sized_io F = copy_file F any_error
