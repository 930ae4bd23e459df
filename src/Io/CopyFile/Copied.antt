-- ===== src/Io/CopyFile/Copied.antt =====
-- What sem03-lowlevel-io-fs/error_handling_io.c has copied when it returns, and how sized_io.c compares.
use caos_seminars.Prelude.{
  ℕ, zero, suc, ◌+◌, ◌-◌, ◌≤◌, ◌<◌, ◌≡◌, refl, sym, ap, ◌∙◌, false, List, [], ◌∷◌, ◌++◌, arith,
  length, take, drop,
}
use caos_seminars.Prelude.Int.{pos, minus_one}
use caos_seminars.Bytes.{blit, take-take, take-blit}
use caos_seminars.Posix.{Files, ReadResult, WriteResult, Errno, retryable, Streams, Patient}
use caos_seminars.Io.CopyFile.{
  buffer_size, Phase, Exit, exit_with, fill, copy_file, error_handling_io,
}
use caos_seminars.Io.CopyFile.Filling.{Took, Fills, fill-Fills}
use caos_seminars.Io.CopyFile.Flushing.{Gave, Flushes, flush-Flushes}

-- The window of the buffer that is left to write.
drop-take : (c n : ℕ) (xs : List ℕ) → c ≤ n → take (n - c) (drop c xs) ≡ drop c (take n xs)
drop-take zero n xs h = ap (λ k. take k xs) (omega arith)
drop-take (suc c) zero xs h = absurd (omega arith)
drop-take (suc c) (suc n) [] h = take-nil (suc n - suc c)
  where
    take-nil : (k : ℕ) → take {A = ℕ} k [] ≡ []
    take-nil zero = refl
    take-nil (suc k) = refl
drop-take (suc c) (suc n) (x ∷ xs) h =
    ap (λ k. take k (drop c xs)) (omega arith) ∙ drop-take c n xs (omega arith)

take-blit_start : (bytes buffer : List ℕ) → take (length bytes) (blit 0 bytes buffer) ≡ bytes
take-blit_start bytes buffer =
    ap (λ k. take k (blit 0 bytes buffer)) (omega arith) ∙ take-blit 0 bytes buffer (omega arith)

module _ (F : Files) (S : Streams F) where
  open F use {World, read, write}
  open S use {received, sent}

  -- The outcome of `main`. `bytes` were read, and the first `count` of them written.
  --
  -- * It returns 0 when `read` has returned 0 for the rest of the buffer, and `write` has returned 0
  --   for the bytes that are not written.
  -- * It returns -1 when `read` has failed for good, and has then written nothing, or when `write` has.
  pub data Copied (input_fd output_fd : ℕ) (w : World) : Exit World → Type 0 where
    complete :
        (bytes : List ℕ) (count : ℕ) (w1 w' wr ww : World)
        → length bytes ≤ buffer_size
        → count ≤ length bytes
        → received w' input_fd ≡ received w input_fd ++ bytes
        → sent w' output_fd ≡ sent w output_fd ++ take count bytes
        → read input_fd (buffer_size - length bytes) wr ≡ (ReadResult.got [], w1)
        → write output_fd (drop count bytes) ww ≡ (WriteResult.wrote 0, w')
        → Copied input_fd output_fd w (Exit.returned (pos 0) w')
    read_failed :
        (bytes : List ℕ) (e : Errno) (w' wr : World)
        → length bytes ≤ buffer_size
        → received w' input_fd ≡ received w input_fd ++ bytes
        → sent w' ≡ sent w
        → retryable e ≡ false
        → read input_fd (buffer_size - length bytes) wr ≡ (ReadResult.failed e, w')
        → Copied input_fd output_fd w (Exit.returned minus_one w')
    write_failed :
        (bytes : List ℕ) (count : ℕ) (e : Errno) (w' ww : World)
        → length bytes ≤ buffer_size
        → count ≤ length bytes
        → received w' input_fd ≡ received w input_fd ++ bytes
        → sent w' output_fd ≡ sent w output_fd ++ take count bytes
        → retryable e ≡ false
        → write output_fd (drop count bytes) ww ≡ (WriteResult.failed e, w')
        → Copied input_fd output_fd w (Exit.returned minus_one w')

module _ (F : Files) (S : Streams F) (P : Patient F) where
  open F use {World, read, write}
  open S use {received, sent}
  open P use {budget}

  module _ (input_fd output_fd : ℕ) (w w1 : World) (buffer bytes : List ℕ) where
    abbrev filled : List ℕ
    filled = blit 0 bytes buffer

    take-filled : (count : ℕ) → count ≤ length bytes → take count (drop 0 filled) ≡ take count bytes
    take-filled count h =
        sym (take-take count (length bytes) filled h)
        ∙ ap (take count) (take-blit_start bytes buffer)

    left-filled :
        (count written : ℕ)
        → written ≡ 0 + count
        → count ≤ length bytes
        → take (length bytes - written) (drop written filled) ≡ drop count bytes
    left-filled count written e h =
        ap (λ k. take (length bytes - k) (drop k filled)) (e ∙ omega arith)
        ∙ drop-take count (length bytes) filled h
        ∙ ap (drop count) (take-blit_start bytes buffer)

    sent-filled :
        (count : ℕ) {w' : World}
        → Took F S P input_fd (buffer_size - 0) bytes w w1
        → Gave F S P output_fd filled 0 (length bytes - 0) count w1 w'
        → (count ≤ length bytes)
          × (received w' input_fd ≡ received w input_fd ++ bytes)
          × (sent w' output_fd ≡ sent w output_fd ++ take count bytes)
    sent-filled count t g =
        let few : count ≤ length bytes = omega (arith, g.fits) in
        (
          few,
          ap (λ (f : ℕ → List ℕ). f input_fd) g.quiet ∙ t.taken,
          g.passed
              ∙ ap (λ (f : ℕ → List ℕ). f output_fd ++ take count (drop 0 filled)) t.quiet
              ∙ ap (λ l. sent w output_fd ++ l) (take-filled count few),
        )

    -- What comes of the second loop, after the first has come to its end.
    after_fill :
        (fuel : ℕ) (wr : World)
        → Took F S P input_fd (buffer_size - 0) bytes w w1
        → read input_fd (buffer_size - length bytes) wr ≡ (ReadResult.got [], w1)
        → (out : Phase ℕ World) → Flushes F S P output_fd filled (length bytes) 0 w1 out
        → Copied F S input_fd output_fd w (exit_with out)
    after_fill fuel wr t last (Phase.finished written w') (count, g, e, (ww, stop)) =
        let (few, r, s) = sent-filled count t g in
        Copied.complete bytes count w1 w' wr ww (omega (arith, t.fits)) few r s last
          (ap (λ l. write output_fd l ww) (sym (left-filled count written e few)) ∙ stop)
    after_fill fuel wr t last (Phase.failed w') (count, written, g, e, (ww, err, fatal, stop)) =
        let (few, r, s) = sent-filled count t g in
        Copied.write_failed bytes count err w' ww (omega (arith, t.fits)) few r s fatal
          (ap (λ l. write output_fd l ww) (sym (left-filled count written e few)) ∙ stop)
    after_fill fuel wr t last Phase.out_of_fuel h = absurd h

  fill_then_flush :
      (fuel input_fd output_fd : ℕ) (buffer : List ℕ) (w : World)
      → buffer_size + budget w < fuel
      → (out : Phase (ℕ × List ℕ) World) → fill F retryable fuel input_fd buffer 0 w ≡ out
      → Fills F S P input_fd 0 buffer w out
      → Copied F S input_fd output_fd w (copy_file F retryable fuel input_fd output_fd buffer w)
  unfolding copy_file
  fill_then_flush fuel input_fd output_fd buffer w enough (Phase.finished (n, buffer') w1) e
        (bytes, t, en, eb, (wr, last)) =
      let whole : n ≡ length bytes = omega (arith, en) in
      rw (e, copy_file, whole, eb)
        (after_fill input_fd output_fd w w1 buffer bytes fuel wr t
          (ap (λ k. read input_fd (buffer_size - k) wr) (sym whole) ∙ last) _
          (flush-Flushes F S P fuel output_fd (blit 0 bytes buffer) (length bytes) 0 w1
            (omega (arith, t.fits, t.spent))))
  fill_then_flush fuel input_fd output_fd buffer w enough (Phase.failed w1) e
        (bytes, n, t, en, (wr, err, fatal, last)) =
      let whole : n ≡ length bytes = omega (arith, en) in
      rw (e, copy_file)
        (Copied.read_failed bytes err w1 wr (omega (arith, t.fits)) t.taken t.quiet fatal
          (ap (λ k. read input_fd (buffer_size - k) wr) (sym whole) ∙ last))
  fill_then_flush fuel input_fd output_fd buffer w enough Phase.out_of_fuel e h = absurd h

  -- On a kernel that obeys the laws of `read` and `write` and interrupts them finitely often,
  -- error_handling_io.c returns. It has written a prefix of the bytes that it has read, of which
  -- there are at most 16. It returns 0 when `read` has returned 0 for the rest of the buffer and
  -- `write` has returned 0 for the bytes not yet written; it returns -1 when one of them has failed
  -- with an error other than EAGAIN and EINTR, with nothing written if that was `read`.
  pub error_handling_io-Copied :
      (fuel input_fd output_fd : ℕ) (buffer : List ℕ) (w : World)
      → length buffer ≡ buffer_size
      → buffer_size + budget w < fuel
      → Copied F S input_fd output_fd w (error_handling_io F fuel input_fd output_fd buffer w)
  unfolding error_handling_io
  error_handling_io-Copied fuel input_fd output_fd buffer w size enough =
      fill_then_flush fuel input_fd output_fd buffer w enough _ refl
        (fill-Fills F S P fuel input_fd 0 buffer w size (omega arith) (omega arith))
