-- ===== src/Io/CopyFile/Unchecked.antt =====
-- sem03-lowlevel-io-fs/sized_io.c beside error_handling_io.c: the loop that does not look at `errno`.
use caos_seminars.Prelude.{
  ℕ, zero, suc, ◌+◌, ◌≡◌, refl, inl, inr, false, List, [], ◌∷◌, length, Bool-cases, ◌-◌, take, drop,
}
use caos_seminars.Prelude.Int.{pos, minus_one}
use caos_seminars.Bytes.{blit}
use caos_seminars.Posix.{Files, ReadResult, WriteResult, Errno, retryable}
use caos_seminars.Io.CopyFile.{
  buffer_size, Phase, Exit, exit_with, any_error, fill, flush, copy_file, error_handling_io,
  sized_io,
}

module _ (F : Files) where
  open F use {World, read, write}

  -- A loop that comes to its end with one test of the error does so with none.
  fill_round :
      (fuel fd : ℕ) (buffer : List ℕ) (off n : ℕ) (buffer' : List ℕ) (w w' : World)
      (answer : ReadResult × World)
      → read fd (buffer_size - off) w ≡ answer
      → ((buffer1 : List ℕ) (off1 : ℕ) (w1 : World)
          → fill F retryable fuel fd buffer1 off1 w1 ≡ Phase.finished (n, buffer') w'
          → fill F any_error fuel fd buffer1 off1 w1 ≡ Phase.finished (n, buffer') w')
      → fill F retryable (suc fuel) fd buffer off w ≡ Phase.finished (n, buffer') w'
      → fill F any_error (suc fuel) fd buffer off w ≡ Phase.finished (n, buffer') w'
  unfolding fill
  fill_round fuel fd buffer off n buffer' w w' (ReadResult.got [], w1) e again h =
      rw (e, fill, e) (rw (e, fill, e) at h)
  fill_round fuel fd buffer off n buffer' w w' (ReadResult.got (b ∷ bs), w1) e again h =
      rw (e, fill, e)
        (again (blit off (b ∷ bs) buffer) (off + length (b ∷ bs)) w1 (rw (e, fill, e) at h))
  fill_round fuel fd buffer off n buffer' w w' (ReadResult.failed err, w1) e again h =
      elim (Bool-cases (retryable err)) [
        | inl retry ↦ rw (e, fill, e) (again buffer off w1 (rw (e, fill, e, retry) at h))
        | inr fatal ↦ absurd (cc (rw (e, fill, e, fatal) at h))
      ]

  fill-any_error :
      (fuel fd : ℕ) (buffer : List ℕ) (off n : ℕ) (buffer' : List ℕ) (w w' : World)
      → fill F retryable fuel fd buffer off w ≡ Phase.finished (n, buffer') w'
      → fill F any_error fuel fd buffer off w ≡ Phase.finished (n, buffer') w'
  unfolding fill
  fill-any_error zero fd buffer off n buffer' w w' h = absurd (cc h)
  fill-any_error (suc fuel) fd buffer off n buffer' w w' h =
      fill_round fuel fd buffer off n buffer' w w' (read fd (buffer_size - off) w) refl
        (λ b o w1 h1. fill-any_error fuel fd b o n buffer' w1 w' h1) h

  flush_round :
      (fuel fd : ℕ) (buffer : List ℕ) (total off n : ℕ) (w w' : World)
      (answer : WriteResult × World)
      → write fd (take (total - off) (drop off buffer)) w ≡ answer
      → ((off1 : ℕ) (w1 : World)
          → flush F retryable fuel fd buffer total off1 w1 ≡ Phase.finished n w'
          → flush F any_error fuel fd buffer total off1 w1 ≡ Phase.finished n w')
      → flush F retryable (suc fuel) fd buffer total off w ≡ Phase.finished n w'
      → flush F any_error (suc fuel) fd buffer total off w ≡ Phase.finished n w'
  unfolding flush
  flush_round fuel fd buffer total off n w w' (WriteResult.wrote zero, w1) e again h =
      rw (e, flush, e) (rw (e, flush, e) at h)
  flush_round fuel fd buffer total off n w w' (WriteResult.wrote (suc k), w1) e again h =
      rw (e, flush, e) (again (off + suc k) w1 (rw (e, flush, e) at h))
  flush_round fuel fd buffer total off n w w' (WriteResult.failed err, w1) e again h =
      elim (Bool-cases (retryable err)) [
        | inl retry ↦ rw (e, flush, e) (again off w1 (rw (e, flush, e, retry) at h))
        | inr fatal ↦ absurd (cc (rw (e, flush, e, fatal) at h))
      ]

  flush-any_error :
      (fuel fd : ℕ) (buffer : List ℕ) (total off n : ℕ) (w w' : World)
      → flush F retryable fuel fd buffer total off w ≡ Phase.finished n w'
      → flush F any_error fuel fd buffer total off w ≡ Phase.finished n w'
  unfolding flush
  flush-any_error zero fd buffer total off n w w' h = absurd (cc h)
  flush-any_error (suc fuel) fd buffer total off n w w' h =
      flush_round fuel fd buffer total off n w w'
        (write fd (take (total - off) (drop off buffer)) w) refl
        (λ o w1 h1. flush-any_error fuel fd buffer total o n w1 w' h1) h

  after_flush :
      (fuel output_fd : ℕ) (buffer : List ℕ) (total : ℕ) (w w' : World) (out : Phase ℕ World)
      → flush F retryable fuel output_fd buffer total 0 w ≡ out
      → exit_with (flush F retryable fuel output_fd buffer total 0 w) ≡ Exit.returned (pos 0) w'
      → exit_with (flush F any_error fuel output_fd buffer total 0 w) ≡ Exit.returned (pos 0) w'
  after_flush fuel output_fd buffer total w w' Phase.out_of_fuel e h = absurd (cc (rw e at h))
  after_flush fuel output_fd buffer total w w' (Phase.failed w1) e h = absurd (cc (rw e at h))
  after_flush fuel output_fd buffer total w w' (Phase.finished n w1) e h =
      rw (flush-any_error fuel output_fd buffer total 0 n w w1 e) (rw e at h)

  fill_then_flush :
      (fuel input_fd output_fd : ℕ) (buffer : List ℕ) (w w' : World)
      (filled : Phase (ℕ × List ℕ) World)
      → fill F retryable fuel input_fd buffer 0 w ≡ filled
      → copy_file F retryable fuel input_fd output_fd buffer w ≡ Exit.returned (pos 0) w'
      → copy_file F any_error fuel input_fd output_fd buffer w ≡ Exit.returned (pos 0) w'
  unfolding copy_file
  fill_then_flush fuel input_fd output_fd buffer w w' Phase.out_of_fuel e h =
      absurd (cc (rw (e, copy_file) at h))
  fill_then_flush fuel input_fd output_fd buffer w w' (Phase.failed w1) e h =
      absurd (cc (rw (e, copy_file) at h))
  fill_then_flush fuel input_fd output_fd buffer w w' (Phase.finished (n, buffer') w1) e h =
      rw (fill-any_error fuel input_fd buffer 0 n buffer' w w1 e, copy_file)
        (after_flush fuel output_fd buffer' n w1 w'
          (flush F retryable fuel output_fd buffer' n 0 w1) refl (rw (e, copy_file) at h))

  -- Whenever error_handling_io.c returns 0, sized_io.c returns 0 in the same world, having read and
  -- written the same.
  pub sized_io-agrees :
      (fuel input_fd output_fd : ℕ) (buffer : List ℕ) (w w' : World)
      → error_handling_io F fuel input_fd output_fd buffer w ≡ Exit.returned (pos 0) w'
      → sized_io F fuel input_fd output_fd buffer w ≡ Exit.returned (pos 0) w'
  unfolding error_handling_io sized_io
  sized_io-agrees fuel input_fd output_fd buffer w w' h =
      fill_then_flush fuel input_fd output_fd buffer w w' _ refl h

  module _ (input_fd : ℕ) (buffer : List ℕ)
      (broken : (count : ℕ) (w : World)
        → (e : Errno) × (w' : World) × (retryable e ≡ false)
          × (read input_fd count w ≡ (ReadResult.failed e, w'))) where
    fill-hangs :
        (fuel off : ℕ) (w : World) → fill F any_error fuel input_fd buffer off w ≡ Phase.out_of_fuel
    unfolding fill
    fill-hangs zero off w = refl
    fill-hangs (suc fuel) off w =
        let (e, w', fatal, fails) = broken (buffer_size - off) w in
        rw (fails, fill, fails) (fill-hangs fuel off w')

    fill-fails :
        (fuel : ℕ) (w : World)
        → (w' : World) × (fill F retryable (suc fuel) input_fd buffer 0 w ≡ Phase.failed w')
    unfolding fill
    fill-fails fuel w =
        let (e, w', fatal, fails) = broken (buffer_size - 0) w in
        (w', rw (fails, fill, fails, fatal) refl)

    -- On a descriptor for which every `read` fails with an error other than EAGAIN and EINTR,
    -- error_handling_io.c returns -1 after one call, and
    -- sized_io.c does not return, however many rounds it is given.
    pub sized_io-hangs :
        (fuel output_fd : ℕ) (w : World)
        → ((w' : World) × (error_handling_io F (suc fuel) input_fd output_fd buffer w
              ≡ Exit.returned minus_one w'))
          × (sized_io F fuel input_fd output_fd buffer w ≡ Exit.out_of_fuel)
    unfolding error_handling_io sized_io copy_file
    sized_io-hangs fuel output_fd w =
        let (w', failed) = fill-fails fuel w in
        ((w', rw (failed, copy_file)), rw (fill-hangs fuel 0 w, copy_file))
