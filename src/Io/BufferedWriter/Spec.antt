-- ===== src/Io/BufferedWriter/Spec.antt =====
-- What buffered_perf.c writes, on a descriptor that never refuses bytes for good.
use caos_seminars.Prelude.{
  ℕ, ◌+◌, ◌-◌, ◌≤◌, ◌<◌, ◌≡◌, refl, ap, ◌∙◌, inl, inr, true, false, some, List, ◌++◌, append_assoc,
  arith, length, length-take, length-drop, take, drop, take-append-drop, ltb, ltb→lt, Bool-cases,
}
use mathlib.Core.Path.{ap₂}
use caos_seminars.Prelude.Int.{pos}
use caos_seminars.Bytes.{blit, cstring, take-blit, length-blit}
use caos_seminars.Posix.{Files, Streams, Patient, Reliable}
use caos_seminars.Io.WriteRetry.{write_retry}
use caos_seminars.Io.WriteRetry.Full.{Sent, write_retry-Sent}
use caos_seminars.Io.BufferedWriter.{BufferedWriter, buffered_text, buffered_write}

-- The block has `capacity` bytes, and the used part lies within.
pub record IsWriter (writer : BufferedWriter) : Type 0 where
  pub block : length writer.buffer ≡ writer.capacity
  pub within : writer.size ≤ writer.capacity

-- The bytes that are in the buffer and not yet written.
abbrev pub pending : BufferedWriter → List ℕ
pending writer = take writer.size writer.buffer

-- What a string that overflows the buffer leaves: its first part fills the buffer to the last byte,
-- and its second part starts the buffer anew.
module _ (writer : BufferedWriter) (string : List ℕ) where
  abbrev first_part : ℕ
  first_part = writer.capacity - writer.size

  abbrev filled : List ℕ
  filled = blit writer.size (take first_part string) writer.buffer

  abbrev restarted : BufferedWriter
  restarted = record writer {
    buffer = blit 0 (drop first_part string) filled;
    size = length string - first_part;
  }

  -- A string that fits.
  abbrev appended : BufferedWriter
  appended = record writer {
    buffer = blit writer.size string writer.buffer;
    size = writer.size + length string;
  }

module _ (writer : BufferedWriter) (v : IsWriter writer) (string : List ℕ)
    (overflow : writer.capacity < length string + writer.size)
    (short : length string ≤ writer.capacity) where
  length-first : length (take (first_part writer string) string) ≡ first_part writer string
  length-first = omega (arith, length-take {0} (first_part writer string) string, v.within)

  length-filled : length (filled writer string) ≡ writer.capacity
  length-filled =
      length-blit writer.size (take (first_part writer string) string) writer.buffer
        (omega (arith, length-first, v.within, v.block))
      ∙ v.block

  take-filled :
      take writer.capacity (filled writer string)
      ≡ pending writer ++ take (first_part writer string) string
  take-filled =
      let whole : writer.capacity ≡ writer.size + length (take (first_part writer string) string) =
        omega (arith, length-first, v.within) in
      ap (λ n. take n (filled writer string)) whole
      ∙ take-blit writer.size (take (first_part writer string) string) writer.buffer
          (omega (arith, v.within, v.block))

  length-second :
      length (drop (first_part writer string) string) ≡ length string - first_part writer string
  length-second = length-drop (first_part writer string) string

  restarted-IsWriter : IsWriter (restarted writer string)
  restarted-IsWriter = record {
    block =
        length-blit 0 (drop (first_part writer string) string) (filled writer string)
          (omega (arith, length-second, length-filled))
        ∙ length-filled;
    within = omega arith;
  }

  pending-restarted : pending (restarted writer string) ≡ drop (first_part writer string) string
  pending-restarted =
      let all : length string - first_part writer string
          ≡ 0 + length (drop (first_part writer string) string) =
        omega (arith, length-second) in
      ap (λ n. take n (restarted writer string).buffer) all
      ∙ take-blit 0 (drop (first_part writer string) string) (filled writer string) (omega arith)

  -- What went out and what is left are the old content and the string, in order.
  pieces :
      take writer.capacity (filled writer string) ++ pending (restarted writer string)
      ≡ pending writer ++ string
  pieces =
      ap₂ ◌++◌ take-filled pending-restarted
      ∙ append_assoc (pending writer) (take (first_part writer string) string)
          (drop (first_part writer string) string)
      ∙ ap (λ l. pending writer ++ l) (take-append-drop (first_part writer string) string)

module _ (F : Files) (S : Streams F) (P : Patient F) where
  open F use {World}
  open S use {sent}
  open P use {budget}

  -- The world and the writer after `string` was taken in: no byte is lost or reordered.
  pub record Took (writer : BufferedWriter) (string : List ℕ) (w : World)
      (next : BufferedWriter × World) : Type 0 where
    pub valid : IsWriter next.0
    pub same_fd : next.0.fd ≡ writer.fd
    pub same_capacity : next.0.capacity ≡ writer.capacity
    pub total :
        sent next.1 writer.fd ++ pending next.0 ≡ sent w writer.fd ++ (pending writer ++ string)
    pub left : budget next.1 ≤ budget w

  module _ (fuel : ℕ) (writer : BufferedWriter) (R : Reliable F writer.fd) (v : IsWriter writer)
      (string : List ℕ) (short : length string ≤ writer.capacity) (w : World) where
    overflows :
        (w' : World)
        → ltb writer.capacity (length string + writer.size) ≡ true
        → write_retry F fuel writer.fd (filled writer string) writer.capacity w
          ≡ some (pos writer.capacity, w')
        → Sent F S P writer.fd R (take writer.capacity (filled writer string)) w w'
        → (next : BufferedWriter × World) × (buffered_text F fuel writer string w ≡ some next)
          × Took writer string w next
    unfolding buffered_text
    overflows w' overflow runs gone =
        let over : writer.capacity < length string + writer.size = ltb→lt _ _ overflow in
        (
          (restarted writer string, w'),
          rw (overflow, runs),
          record {
            valid = restarted-IsWriter writer v string over short;
            same_fd = refl;
            same_capacity = refl;
            total =
                ap (λ l. l ++ pending (restarted writer string)) gone.passed
                ∙ append_assoc (sent w writer.fd) _ _
                ∙ ap (λ l. sent w writer.fd ++ l) (pieces writer v string over short);
            left = gone.left;
          },
        )

    fits :
        ltb writer.capacity (length string + writer.size) ≡ false
        → (next : BufferedWriter × World) × (buffered_text F fuel writer string w ≡ some next)
          × Took writer string w next
    unfolding buffered_text
    fits room = (
      (appended writer string, w),
      rw room,
      record {
        valid = record {
          block = length-blit writer.size string writer.buffer (ground (arith, v.block)) ∙ v.block;
          within = ground arith;
        };
        same_fd = refl;
        same_capacity = refl;
        total =
            ap (λ l. sent w writer.fd ++ l)
              (take-blit writer.size string writer.buffer (omega (arith, v.within, v.block)));
        left = omega arith;
      },
    )

    buffered_text-Took :
        writer.capacity + budget w < fuel
        → (next : BufferedWriter × World) × (buffered_text F fuel writer string w ≡ some next)
          × Took writer string w next
    buffered_text-Took enough =
        elim (Bool-cases (ltb writer.capacity (length string + writer.size))) [
          | inl overflow ↦
              let over : writer.capacity < length string + writer.size = ltb→lt _ _ overflow in
              let (w', runs, gone) =
                write_retry-Sent F S P writer.fd R fuel (filled writer string) writer.capacity w
                  (omega (arith, length-filled writer v string over short)) enough in
              overflows w' overflow runs gone
          | inr room ↦ fits room
        ]

  -- On a descriptor that never refuses bytes for good, where calls are interrupted finitely often and
  -- with fuel for these and for the bytes of the buffer, `buffered_write` of a string no longer than
  -- the buffer returns, keeps the writer well formed, and what was sent with what is buffered grows by
  -- exactly the string, which ends before the first NUL of the array.
  pub buffered_write-Took :
      (fuel : ℕ) (writer : BufferedWriter)
      → Reliable F writer.fd
      → IsWriter writer
      → (string : List ℕ) → length (cstring string) ≤ writer.capacity
      → (w : World) → writer.capacity + budget w < fuel
      → (next : BufferedWriter × World) × (buffered_write F fuel writer string w ≡ some next)
        × Took writer (cstring string) w next
  unfolding buffered_write
  buffered_write-Took fuel writer R v string short w enough =
      buffered_text-Took fuel writer R v (cstring string) short w enough
