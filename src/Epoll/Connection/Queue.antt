-- ===== src/Epoll/Connection/Queue.antt =====
-- The buffer of a connection of server_epoll.c as a queue of bytes: `read_buff` puts bytes in at
-- one end, `write_buff` takes bytes out at the other.
use caos_seminars.Prelude.{
  ℕ, zero, suc, ◌+◌, ◌-◌, ◌≤◌, ◌≡◌, ◌⊎◌, inl, inr, refl, sym, ap, ◌∙◌, List, [], ◌∷◌, ◌++◌, arith,
  length, take, leb, ◌==◌, Bool-cases, length-take,
}
use mathlib.Core.List.{append-nil}
use caos_seminars.Prelude.Int.{ℤ, pos, minus_one}
use caos_seminars.Bytes.{slice, length-blit, slice-blit, slice-split, slice-empty, length-slice}
use caos_seminars.Posix.{ReadResult, WriteResult, would_block}
use caos_seminars.Kernel.{Kernel}
use caos_seminars.Kernel.Effects
use caos_seminars.Kernel.Effects.{View, Effects}
use caos_seminars.Kernel.Moves.{Received, Received-none, Received-some, Sent, Sent-none, Sent-some}
use caos_seminars.Epoll.Connection.{
  buff_size, FdData, after_read, read_buff, after_write, write_buff,
}

-- The bytes that were read and not yet written back, in order.
abbrev pub pending : FdData → List ℕ
pending d = slice d.buffer_begin d.buffer_end d.buffer

-- The offsets stay in order and within the array.
pub record IsBuffer (d : FdData) : Type 0 where
  pub block : length d.buffer ≡ buff_size
  pub ordered : d.buffer_begin ≤ d.buffer_end
  pub within : d.buffer_end ≤ buff_size

-- The number of bytes moved, or -1 if none were.
abbrev pub Reports : ℤ → List ℕ → Type 0
Reports r bytes = (r ≡ pos (length bytes)) ⊎ ((r ≡ minus_one) × (bytes ≡ []))

pub record ReadBuff (d : FdData) (v : View) (r : ℤ) (d' : FdData) (v' : View) : Type 0 where
  pub bytes : List ℕ
  pub valid : IsBuffer d'
  pub same_fd : d'.fd ≡ d.fd
  pub grown : d'.buffer_end ≡ d.buffer_end + length bytes
  pub queued : pending d' ≡ pending d ++ bytes
  pub moved : Received d.fd bytes v v'
  pub value : Reports r bytes

pub record WriteBuff (d : FdData) (v : View) (r : ℤ) (d' : FdData) (v' : View) : Type 0 where
  pub bytes : List ℕ
  pub valid : IsBuffer d'
  pub same_fd : d'.fd ≡ d.fd
  pub dequeued : bytes ++ pending d' ≡ pending d
  pub moved : Sent d.fd bytes v v'
  pub value : Reports r bytes

-- A call that moved nothing.
unread :
    {d : FdData} {v v' : View} {r : ℤ}
    → IsBuffer d
    → Received d.fd [] v v'
    → Reports r []
    → ReadBuff d v r d v'
unread {d} valid moved value = record {
  bytes = [];
  valid = valid;
  same_fd = refl;
  grown = omega arith;
  queued = sym (append-nil (pending d));
  moved = moved;
  value = value;
}

unwritten :
    {d : FdData} {v v' : View} {r : ℤ}
    → IsBuffer d
    → Sent d.fd [] v v'
    → Reports r []
    → WriteBuff d v r d v'
unwritten valid moved value = record {
  bytes = [];
  valid = valid;
  same_fd = refl;
  dequeued = refl;
  moved = moved;
  value = value;
}

after_read-ReadBuff :
    (d : FdData) (result : ReadResult) (v v' : View)
    → IsBuffer d
    → Effects.AfterRead d.fd (buff_size - d.buffer_end) v result v'
    → ReadBuff d v (after_read d result).0 (after_read d result).1 v'
unfolding after_read
after_read-ReadBuff d (ReadResult.got []) v v' valid law =
    unread valid (Received-some d.fd [] law.1) (inl refl)
after_read-ReadBuff d (ReadResult.got (b ∷ bs)) v v' valid law = record {
  bytes = b ∷ bs;
  valid = record {
    block =
        length-blit d.buffer_end (b ∷ bs) d.buffer (omega (arith, law.0, valid.within, valid.block))
        ∙ valid.block;
    ordered = omega (arith, valid.ordered);
    within = omega (arith, law.0, valid.within);
  };
  same_fd = refl;
  grown = refl;
  queued =
      slice-blit d.buffer_end (b ∷ bs) d.buffer (omega (arith, valid.block, valid.within))
        d.buffer_begin valid.ordered;
  moved = Received-some d.fd (b ∷ bs) law.1;
  value = inl refl;
}
after_read-ReadBuff d (ReadResult.failed e) v v' valid law = elim (Bool-cases (would_block e)) [
  | inl again ↦ rw again (unread valid (Received-none d.fd law) (inl refl))
  | inr broken ↦ rw broken (unread valid (Received-none d.fd law) (inr (refl, refl)))
]

-- `k` bytes from the front of the queue.
module _ (d : FdData) (k : ℕ) (valid : IsBuffer d) (fits : k ≤ length (pending d)) where
  length-taken : length (take k (pending d)) ≡ k
  length-taken = omega (arith, length-take {0} k (pending d))

  room : d.buffer_begin + k ≤ d.buffer_end
  room = omega (
    arith,
    length-slice d.buffer_begin d.buffer_end d.buffer (omega (arith, valid.within, valid.block)),
    valid.ordered,
  )

  drained :
      {v v' : View}
      → d.buffer_begin + k ≡ d.buffer_end
      → Sent d.fd (take k (pending d)) v v'
      → WriteBuff d v (pos k) (record d { buffer_begin = 0; buffer_end = 0 }) v'
  drained all moved = record {
    bytes = take k (pending d);
    valid = record { block = valid.block; ordered = omega arith; within = omega arith };
    same_fd = refl;
    dequeued =
        ap (λ l. take k (pending d) ++ l)
          (sym (slice-empty d.buffer_end d.buffer)
            ∙ ap (λ n. slice n d.buffer_end d.buffer) (sym all))
        ∙ slice-split d.buffer_begin k d.buffer_end d.buffer;
    moved = moved;
    value = inl (ap pos (sym length-taken));
  }

  advanced :
      {v v' : View}
      → Sent d.fd (take k (pending d)) v v'
      → WriteBuff d v (pos k) (record d { buffer_begin = d.buffer_begin + k }) v'
  advanced moved = record {
    bytes = take k (pending d);
    valid = record { block = valid.block; ordered = room; within = valid.within };
    same_fd = refl;
    dequeued = slice-split d.buffer_begin k d.buffer_end d.buffer;
    moved = moved;
    value = inl (ap pos (sym length-taken));
  }

after_write-WriteBuff :
    (d : FdData) (result : WriteResult) (v v' : View)
    → IsBuffer d
    → Effects.AfterWrite d.fd (pending d) v result v'
    → WriteBuff d v (after_write d result).0 (after_write d result).1 v'
unfolding after_write
after_write-WriteBuff d (WriteResult.wrote zero) v v' valid law =
    unwritten valid (Sent-some d.fd [] law.1) (inl refl)
after_write-WriteBuff d (WriteResult.wrote (suc k)) v v' valid law =
    let moved : Sent d.fd (take (suc k) (pending d)) v v' = Sent-some d.fd _ law.1 in
    elim (Bool-cases (d.buffer_begin + suc k == d.buffer_end)) [
      | inl all ↦ rw all (drained d (suc k) valid law.0 (ground arith) moved)
      | inr more ↦ rw more (advanced d (suc k) valid law.0 moved)
    ]
after_write-WriteBuff d (WriteResult.failed e) v v' valid law = elim (Bool-cases (would_block e)) [
  | inl again ↦ rw again (unwritten valid (Sent-none d.fd law) (inl refl))
  | inr broken ↦ rw broken (unwritten valid (Sent-none d.fd law) (inr (refl, refl)))
]

module _ (K : Kernel) (E : Effects K) where
  open K use {World}
  open E use {view, read_law, write_law}

  -- On every branch `read_buff` keeps the offsets in order and within the 4096 bytes, appends to
  -- the queue exactly the bytes that were received from the connection in the meantime, touches no
  -- other descriptor, and returns the number of these bytes, or -1 if there were none.
  pub read_buff-ReadBuff :
      (d : FdData) (w : World)
      → IsBuffer d
      → ReadBuff d
          (view w)
          (read_buff K.files d w).0
          (read_buff K.files d w).1
          (view (read_buff K.files d w).2)
  unfolding read_buff
  read_buff-ReadBuff d w valid = elim (Bool-cases (leb buff_size d.buffer_end)) [
    | inl full ↦ rw full (unread valid (Received-none d.fd refl) (inr (refl, refl)))
    | inr room ↦ rw room (after_read-ReadBuff d _ _ _ valid (read_law d.fd _ w))
  ]

  -- On every branch `write_buff` keeps the offsets in order and within the 4096 bytes, sends to the
  -- connection exactly the bytes that it takes off the front of the queue, touches no other
  -- descriptor, and returns the number of these bytes, or -1 if there were none.
  pub write_buff-WriteBuff :
      (d : FdData) (w : World)
      → IsBuffer d
      → WriteBuff d
          (view w)
          (write_buff K.files d w).0
          (write_buff K.files d w).1
          (view (write_buff K.files d w).2)
  unfolding write_buff
  write_buff-WriteBuff d w valid = elim (Bool-cases (leb d.buffer_end d.buffer_begin)) [
    | inl empty ↦ rw empty (unwritten valid (Sent-none d.fd refl) (inl refl))
    | inr some_left ↦ rw some_left (after_write-WriteBuff d _ _ _ valid (write_law d.fd _ w))
  ]
