-- ===== src/Io/Reprinter/Reports.antt =====
-- What `main` of sem03-lowlevel-io-fs/smart_reprinter.c prints.
use caos_seminars.Prelude.{
  ℕ, ◌+◌, ◌-◌, ◌≤◌, ◌<◌, ◌≡◌, refl, ap, ◌∙◌, inl, inr, ◌⊎◌, false, List, [], ◌++◌, arith, length,
  take,
}
use caos_seminars.Prelude.Int.{ℤ}
use caos_seminars.Bytes.{blit, cstring, take-blit}
use caos_seminars.Posix.{Files, ReadResult, Errno, retryable, Streams, Patient, ReadLaw}
use caos_seminars.Io.ReadRetry.Spec.{Ending, Outcome, read_retry-Outcome}
use caos_seminars.Io.Reprinter.{buffer_size, quoted, Exit, report, main_read, main_read_retry}

module _ (F : Files) (S : Streams F) where
  open F use {World, read}
  open S use {received, sent, read_law}

  -- What was printed are the bytes got, up to a NUL.
  pub record Printed (w w' : World) (text bytes : List ℕ) : Type 0 where
    pub fits : length bytes ≤ buffer_size
    pub taken : received w' 0 ≡ received w 0 ++ bytes
    pub whole : text ≡ quoted (cstring bytes)

  -- With retries: all of the input or as much as the buffer holds, or a `read` has failed for good.
  abbrev pub Reports : World → Exit World → Type 0
  Reports w (Exit.printed text w') =
      (bytes : List ℕ) × Printed w w' text bytes
      × ((length bytes ≡ buffer_size)
          ⊎ ((w1 : World) × (read 0 (buffer_size - length bytes) w1 ≡ (ReadResult.got [], w'))))
  Reports w (Exit.failed w') =
      (w1 : World) × (n : ℕ) × (e : Errno) × (retryable e ≡ false)
      × (read 0 n w1 ≡ (ReadResult.failed e, w'))
  Reports w Exit.out_of_fuel = ⊥

  stored-Printed :
      (buffer bytes : List ℕ) (n : ℕ) (w w' : World)
      → length buffer ≡ buffer_size
      → length bytes ≤ buffer_size
      → n ≡ 0 + length bytes
      → received w' 0 ≡ received w 0 ++ bytes
      → Printed w w' (quoted (cstring (take n (blit 0 bytes buffer)))) bytes
  stored-Printed buffer bytes n w w' size fits e taken = record {
    fits = fits;
    taken = taken;
    whole =
        ap (λ k. quoted (cstring (take k (blit 0 bytes buffer)))) e
        ∙ ap (λ s. quoted (cstring s)) (take-blit 0 bytes buffer (omega (arith, fits, size)));
  }

  reported :
      (buffer buffer' : List ℕ) (w w' : World) (r : ℤ)
      → length buffer ≡ buffer_size
      → (o : Outcome F S 0 0 buffer_size buffer w (r, buffer', w'))
      → Ending F 0 buffer_size (length o.bytes) (0 + length o.bytes) r w'
      → Reports w (report r buffer' w')
  unfolding report
  reported buffer buffer' w w' r size o (Ending.full e v) =
      rw (v, o.stored)
        (o.bytes, stored-Printed buffer o.bytes _ w w' size o.fits refl o.taken, inl e)
  reported buffer buffer' w w' r size o (Ending.end_of_file w1 e v) =
      rw (v, o.stored)
        (o.bytes, stored-Printed buffer o.bytes _ w w' size o.fits refl o.taken, inr (w1, e))
  reported buffer buffer' w w' r size o (Ending.broken w1 err fatal e v) =
      rw v (w1, _, err, fatal, e)

  -- Without retries: what one `read` gave, and any error ends the program.
  abbrev pub ReportsOnce : World → Exit World → Type 0
  ReportsOnce w (Exit.printed text w') =
      (bytes : List ℕ) × Printed w w' text bytes
      × (read 0 buffer_size w ≡ (ReadResult.got bytes, w'))
  ReportsOnce w (Exit.failed w') = (e : Errno) × (read 0 buffer_size w ≡ (ReadResult.failed e, w'))
  ReportsOnce w Exit.out_of_fuel = ⊥

  read_once :
      (buffer : List ℕ) (w : World) (result : ReadResult × World)
      → length buffer ≡ buffer_size
      → read 0 buffer_size w ≡ result
      → ReadLaw received sent 0 buffer_size w result
      → ReportsOnce w (main_read F buffer w)
  unfolding main_read report
  read_once buffer w (ReadResult.failed err, w1) size e law = rw (e, main_read, e) (err, refl)
  read_once buffer w (ReadResult.got bytes, w1) size e (few, taken, _, _) =
      rw (e, main_read, e)
        (bytes, stored-Printed buffer bytes _ w w1 size few (omega arith) taken, refl)

module _ (F : Files) (S : Streams F) (P : Patient F) where
  open F use {World}
  open P use {budget}

  -- `main` of the reprinter returns. With retries it has printed, between quotes and up to a NUL, all
  -- that came from the standard input up to its end, or the first 4096 bytes, or it has returned -1
  -- because a `read` has failed with an error other than EAGAIN and EINTR. Without them it has printed
  -- what one `read` gave, or has returned -1 for any error.
  pub main-Reports :
      (fuel : ℕ) (buffer : List ℕ) (w : World)
      → length buffer ≡ buffer_size
      → buffer_size + budget w < fuel
      → Reports F S w (main_read_retry F fuel buffer w) × ReportsOnce F S w (main_read F buffer w)
  unfolding main_read_retry
  main-Reports fuel buffer w size enough =
      let ((r, buffer', w'), runs, o) =
        read_retry-Outcome F S P fuel 0 buffer buffer_size w (omega (arith, size)) enough in
      (
        rw (runs, main_read_retry) (reported F S buffer buffer' w w' r size o o.ending),
        read_once F S buffer w (F.read 0 buffer_size w) size refl (S.read_law 0 buffer_size w),
      )
