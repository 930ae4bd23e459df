-- ===== src/Io/BufferedWriter.antt =====
-- sem03-lowlevel-io-fs/buffered_perf.c: `struct BufferedWriter` over `write_retry`.
use caos_seminars.Prelude.{
  ℕ, ◌+◌, ◌-◌, ◌*◌, Option, none, some, List, [], ◌∷◌, length, take, drop, ltb, if◌then◌else◌,
}
use caos_seminars.Prelude.Int.{ℤ}
use caos_seminars.Bytes.{blit, cstring}
use caos_seminars.Posix.{Files}
use caos_seminars.Io.WriteRetry.{write_retry}
pub mod Spec
pub mod Program

-- `buffer` is the block that `malloc(capacity)` returned.
pub record BufferedWriter : Type 0 where
  pub fd : ℕ
  pub capacity : ℕ
  pub size : ℕ
  pub buffer : List ℕ

-- `block` is what `malloc` returns: `capacity` bytes of any value.
pub init_buffer : (block : List ℕ) (capacity fd : ℕ) → BufferedWriter
init_buffer block capacity fd = record { fd = fd; capacity = capacity; size = 0; buffer = block }

module _ (F : Files) where
  open F use {World}

  -- A call of `write_retry` whose return value is not looked at.
  abbrev flushed : Option (ℤ × World) → Option World
  flushed none = none
  flushed (some (_, w)) = some w

  -- `none` here and below: the fuel of a `write_retry` ran out.
  pub close_buffer : (fuel : ℕ) → BufferedWriter → World → Option World
  close_buffer fuel writer w =
      if ltb 0 writer.size
      then flushed (write_retry F fuel writer.fd writer.buffer writer.size w)
      else some w

  -- `buffered_write` for a string that is `text`, so that `strlen` is its length.
  pub buffered_text :
      (fuel : ℕ) → BufferedWriter → (text : List ℕ) → World → Option (BufferedWriter × World)
  buffered_text fuel writer text w =
      let len = length text in
      if ltb writer.capacity (len + writer.size)
      then (let first_part = writer.capacity - writer.size in
          let filled = blit writer.size (take first_part text) writer.buffer in
          elim (flushed (write_retry F fuel writer.fd filled writer.capacity w)) [
            | none ↦ none
            | some w' ↦ some (
              record writer {
                buffer = blit 0 (drop first_part text) filled;
                size = len - first_part;
              },
              w',
            )
          ])
      else some (
        record writer { buffer = blit writer.size text writer.buffer; size = writer.size + len },
        w,
      )

  -- `string` is the array, whose string ends before its first NUL.
  pub buffered_write :
      (fuel : ℕ) → BufferedWriter → (string : List ℕ) → World → Option (BufferedWriter × World)
  unfolding buffered_text
  buffered_write fuel writer string w = buffered_text fuel writer (cstring string) w

  -- The `while` over `getline`, for the lines that it gives.
  pub write_lines :
      (fuel : ℕ)
      → BufferedWriter
      → (lines : List (List ℕ)) → World
      → Option (BufferedWriter × World)
  write_lines fuel writer [] w = some (writer, w)
  write_lines fuel writer (line ∷ lines) w = elim (buffered_write fuel writer line w) [
    | none ↦ none
    | some (writer', w') ↦ write_lines fuel writer' lines w'
  ]

  -- `write_impl`, with the block of 1 MB that `malloc` returns; STDOUT_FILENO is 1.
  pub write_impl : (fuel : ℕ) (block : List ℕ) (lines : List (List ℕ)) → World → Option World
  unfolding write_lines close_buffer
  write_impl fuel block lines w =
      elim (write_lines fuel (init_buffer block (1024 * 1024) 1) lines w) [
        | none ↦ none
        | some (writer, w') ↦ close_buffer fuel writer w'
      ]
