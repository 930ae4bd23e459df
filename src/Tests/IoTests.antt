-- ===== src/Tests/IoTests.antt =====
-- The routines of sem03-lowlevel-io-fs on the slow kernel.
use caos_seminars.Prelude.{
  ℕ, ◌+◌, ◌*◌, ◌≤◌, ◌≡◌, refl, some, List, [], ◌∷◌, ◌++◌, arith, length, replicate,
  length-replicate,
}
use mathlib.Core.List.{flatten}
use caos_seminars.Prelude.Int.{ℤ, pos, minus_one}
use caos_seminars.Bytes.{cstring}
use caos_seminars.Posix.{Files, ReadResult, WriteResult, other}
use caos_seminars.Tests.Slow.{World, slow, slow_streams, slow_patient, slow_reliable, world}
use caos_seminars.Io.ReadRetry.{read_retry}
use caos_seminars.Io.ReadRetry.Spec.{Outcome, read_retry-Outcome}
use caos_seminars.Io.Reprinter
use caos_seminars.Io.Reprinter.Reports.{Reports, ReportsOnce, main-Reports}
use caos_seminars.Io.WriteRetry.{write_retry}
use caos_seminars.Io.WriteRetry.Spec
use caos_seminars.Io.WriteRetry.Spec.{write_retry-Outcome}
use caos_seminars.Io.WriteRetry.Full.{Sent, write_retry-Sent}
use caos_seminars.Io.CopyFile.{Exit, fill, flush, copy_file, error_handling_io, sized_io}
use caos_seminars.Io.CopyFile.Copied.{Copied, error_handling_io-Copied}
use caos_seminars.Io.CopyFile.Unchecked.{sized_io-hangs}
use caos_seminars.Bytes.{cstring}
use caos_seminars.Io.BufferedWriter.{BufferedWriter, buffered_write, write_impl}
use caos_seminars.Io.BufferedWriter.Spec.{IsWriter, Took, buffered_write-Took}
use caos_seminars.Io.BufferedWriter.Program.{write_impl-flatten}

-- Five bytes to read, in an interrupted call and calls of two bytes.
abbrev before_read : World
before_read = world (2 ∷ 0 ∷ 2 ∷ 2 ∷ []) (10 ∷ 20 ∷ 30 ∷ 40 ∷ 50 ∷ [])

abbrev array : List ℕ
array = replicate 6 0

read_retry_stores :
    (result : ℤ × List ℕ × World) × (read_retry slow 20 0 array 4 before_read ≡ some result)
    × Outcome slow slow_streams 0 0 4 array before_read result
read_retry_stores =
    read_retry-Outcome slow slow_streams slow_patient 20 0 array 4 before_read (omega arith)
      (omega arith)

write_retry_stops :
    (result : ℤ × World) × (write_retry slow 20 1 (7 ∷ 8 ∷ 9 ∷ []) 3 before_read ≡ some result)
    × Spec.Outcome slow slow_streams 1 (7 ∷ 8 ∷ 9 ∷ []) 0 3 before_read result
    × (length result.1.script ≤ 4)
write_retry_stops =
    write_retry-Outcome slow slow_streams slow_patient 20 1 (7 ∷ 8 ∷ 9 ∷ []) 3 before_read
      (omega arith)

write_retry_sends :
    (w' : World) × (write_retry slow 20 1 (7 ∷ 8 ∷ 9 ∷ []) 3 before_read ≡ some (pos 3, w'))
    × Sent slow slow_streams slow_patient 1 (slow_reliable 1) (7 ∷ 8 ∷ 9 ∷ []) before_read w'
write_retry_sends =
    write_retry-Sent slow slow_streams slow_patient 1 (slow_reliable 1) 20 (7 ∷ 8 ∷ 9 ∷ []) 3
      before_read (omega arith) (omega arith)

-- A writer with four bytes of room, two of them used.
abbrev half_full : BufferedWriter
half_full = record { fd = 1; capacity = 4; size = 2; buffer = 1 ∷ 2 ∷ 0 ∷ 0 ∷ [] }

half_full-IsWriter : IsWriter half_full
half_full-IsWriter = record { block = refl; within = omega arith }

buffered_write-Took_example :
    (next : BufferedWriter × World) × (buffered_write slow 20 half_full
        (3 ∷ 4 ∷ 5 ∷ 0 ∷ [])
        before_read
      ≡ some next)
    × Took slow slow_streams slow_patient half_full (cstring (3 ∷ 4 ∷ 5 ∷ 0 ∷ [])) before_read next
unfolding cstring
buffered_write-Took_example =
    buffered_write-Took slow slow_streams slow_patient 20 half_full (slow_reliable 1)
      half_full-IsWriter (3 ∷ 4 ∷ 5 ∷ 0 ∷ []) (omega arith) before_read (omega arith)

-- A block for `malloc` to return; shut, so that no proof writes its million bytes out.
zeros : ℕ → List ℕ
zeros n = replicate n 0

length-zeros : (n : ℕ) → length (zeros n) ≡ n
unfolding zeros
length-zeros n = length-replicate n 0

write_impl-flatten_example :
    (w' : World) × (write_impl slow
        (1024 * 1024 + 9)
        (zeros (1024 * 1024))
        ((1 ∷ 2 ∷ []) ∷ (3 ∷ 0 ∷ 4 ∷ []) ∷ [])
        before_read
      ≡ some w')
    × (w'.sent 1 ≡ [] ++ flatten ((1 ∷ 2 ∷ []) ∷ (3 ∷ []) ∷ []))
unfolding cstring
write_impl-flatten_example =
    write_impl-flatten slow slow_streams slow_patient (1024 * 1024 + 9) (zeros (1024 * 1024))
      ((1 ∷ 2 ∷ []) ∷ (3 ∷ 0 ∷ 4 ∷ []) ∷ []) before_read (slow_reliable 1)
      (length-zeros (1024 * 1024)) (omega arith, (omega arith, tt)) (omega arith)

abbrev block : List ℕ
block = replicate 16 0

error_handling_io-Copied_example :
    Copied slow slow_streams 0 1 before_read (error_handling_io slow 21 0 1 block before_read)
error_handling_io-Copied_example =
    error_handling_io-Copied slow slow_streams slow_patient 21 0 1 block before_read refl
      (omega arith)

abbrev copied : Exit World → List ℕ
copied (Exit.returned code w) = w.sent 1
copied Exit.out_of_fuel = []

error_handling_io_copies :
    copied (error_handling_io slow 21 0 1 block before_read) ≡ 10 ∷ 20 ∷ 30 ∷ 40 ∷ 50 ∷ []
unfolding error_handling_io copy_file fill flush
error_handling_io_copies = refl

-- A system on which every call fails.
abbrev broken : Files
broken = record {
  World = ℕ;
  read = λ fd count w. (ReadResult.failed (other 9), w);
  write = λ fd bytes w. (WriteResult.failed (other 9), w);
}

sized_io-hangs_example :
    ((w' : ℕ) × (error_handling_io broken 6 3 4 block 0 ≡ Exit.returned minus_one w'))
    × (sized_io broken 5 3 4 block 0 ≡ Exit.out_of_fuel)
sized_io-hangs_example = sized_io-hangs broken 3 block (λ count w. (other 9, w, refl, refl)) 5 4 0

abbrev blank : List ℕ
blank = replicate Reprinter.buffer_size 0

main-Reports_example :
    Reports slow slow_streams before_read (Reprinter.main_read_retry slow 5000 blank before_read)
    × ReportsOnce slow slow_streams before_read (Reprinter.main_read slow blank before_read)
main-Reports_example =
    main-Reports slow slow_streams slow_patient 5000 blank before_read refl (omega arith)

abbrev text_of : Reprinter.Exit World → List ℕ
text_of (Reprinter.Exit.printed text w) = text
text_of (Reprinter.Exit.failed w) = []
text_of Reprinter.Exit.out_of_fuel = []

-- A single `read` gives two of the five bytes.
reprinter_cuts :
    text_of (Reprinter.main_read slow blank before_read) ≡ Reprinter.quoted (10 ∷ 20 ∷ [])
unfolding Reprinter.main_read Reprinter.report cstring
reprinter_cuts = refl
