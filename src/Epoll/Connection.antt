-- ===== src/Epoll/Connection.antt =====
-- server_epoll.c: `fd_data`, `read_buff` and `write_buff`.
pub mod Queue
use caos_seminars.Prelude.{
  ℕ, zero, suc, ◌+◌, ◌-◌, List, [], ◌∷◌, length, leb, replicate, ◌==◌, if◌then◌else◌,
}
use caos_seminars.Prelude.Int.{ℤ, pos, minus_one}
use caos_seminars.Bytes.{blit, slice}
use caos_seminars.Posix.{Files, ReadResult, WriteResult, would_block}

abbrev pub buff_size : ℕ
buff_size = 4096

pub record FdData : Type 0 where
  pub fd : ℕ
  pub buffer : List ℕ
  pub buffer_begin : ℕ
  pub buffer_end : ℕ

-- An object that `calloc` has zeroed, with the fields that are then set.
abbrev pub fresh_data : ℕ → FdData
fresh_data fd = record { fd = fd; buffer = replicate buff_size 0; buffer_begin = 0; buffer_end = 0 }

-- What follows the `read` in `read_buff`.
unfoldable pub after_read : FdData → ReadResult → ℤ × FdData
after_read d (ReadResult.got []) = (pos 0, d)
after_read d (ReadResult.got (b ∷ bs)) = (
  pos (length (b ∷ bs)),
  record d {
    buffer = blit d.buffer_end (b ∷ bs) d.buffer;
    buffer_end = d.buffer_end + length (b ∷ bs);
  },
)
after_read d (ReadResult.failed e) = if would_block e then (pos 0, d) else (minus_one, d)

-- What follows the `write` in `write_buff`.
unfoldable pub after_write : FdData → WriteResult → ℤ × FdData
after_write d (WriteResult.wrote zero) = (pos 0, d)
after_write d (WriteResult.wrote (suc k)) =
    let begin = d.buffer_begin + suc k in
    if begin == d.buffer_end
    then (pos (suc k), record d { buffer_begin = 0; buffer_end = 0 })
    else (pos (suc k), record d { buffer_begin = begin })
after_write d (WriteResult.failed e) = if would_block e then (pos 0, d) else (minus_one, d)

module _ (F : Files) where
  open F use {World, read, write}

  -- The return value, the object and the world.
  unfoldable pub read_buff : FdData → World → ℤ × FdData × World
  unfolding after_read
  read_buff d w =
      if leb buff_size d.buffer_end
      then (minus_one, d, w)
      else (let (result, w') = read d.fd (buff_size - d.buffer_end) w in
          let (r, d') = after_read d result in (r, d', w'))

  unfoldable pub write_buff : FdData → World → ℤ × FdData × World
  unfolding after_write
  write_buff d w =
      if leb d.buffer_end d.buffer_begin
      then (pos 0, d, w)
      else (let (result, w') = write d.fd (slice d.buffer_begin d.buffer_end d.buffer) w in
          let (r, d') = after_write d result in (r, d', w'))
