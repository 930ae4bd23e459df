-- ===== src/Io/ReadRetry/Spec.antt =====
-- What `read_retry` of sem03-lowlevel-io-fs/smart_reprinter.c returns, and that it returns.
use caos_seminars.Prelude.{
  ℕ, zero, suc, ◌+◌, ◌-◌, ◌≤◌, ◌<◌, ◌≡◌, refl, sym, ap, ◌∙◌, inl, inr, false, some, List, [], ◌∷◌,
  ◌++◌, append_assoc, arith, length, length-append, ◌==◌, Bool-cases,
}
use mathlib.Core.List.{append-nil}
use native.Mathlib.Nat.{add-zero}
use caos_seminars.Prelude.Int.{ℤ, pos, minus_one}
use caos_seminars.Bytes.{blit, blit-nil, blit-blit, length-blit}
use caos_seminars.Posix.{Files, ReadResult, Errno, retryable, Streams, Patient, ReadLaw, ReadSpends}
use caos_seminars.Io.ReadRetry.{read_retry_loop, read_retry}

module _ (F : Files) where
  open F use {World, read}

  -- Why a call for `size` bytes that got `n` of them ended in the world `w'`, and what it returns:
  -- -1 for an error that is not retried, and the number `total` of bytes stored otherwise.
  pub data Ending (fd size n total : ℕ) (r : ℤ) (w' : World) : Type 0 where
    full : n ≡ size → r ≡ pos total → Ending fd size n total r w'
    end_of_file :
        (w : World)
        → read fd (size - n) w ≡ (ReadResult.got [], w')
        → r ≡ pos total
        → Ending fd size n total r w'
    broken :
        (w : World) (e : Errno)
        → retryable e ≡ false
        → read fd (size - n) w ≡ (ReadResult.failed e, w')
        → r ≡ minus_one
        → Ending fd size n total r w'

  -- `k` bytes got before are `k` bytes fewer to get.
  Ending-later :
      (fd size k n total m t : ℕ) {r : ℤ} {w' : World}
      → m ≡ k + n
      → t ≡ total
      → k ≤ size
      → Ending fd (size - k) n total r w'
      → Ending fd size m t r w'
  Ending-later fd size k n total m t e f h (full g v) = full (omega arith) (rw f v)
  Ending-later fd size k n total m t e f h (end_of_file w g v) =
      let same : size - m ≡ size - k - n = omega arith in end_of_file w (rw same g) (rw f v)
  Ending-later fd size k n total m t e f h (broken w err x g v) =
      let same : size - m ≡ size - k - n = omega arith in broken w err x (rw same g) v

module _ (F : Files) (S : Streams F) where
  open F use {World, read}
  open S use {received, sent, read_law}

  -- The outcome of a call that stores at `off` in the array `data'`.
  pub record Outcome (fd off size : ℕ) (data' : List ℕ) (w : World) (result : ℤ × List ℕ × World)
      : Type 0 where
    pub bytes : List ℕ
    pub fits : length bytes ≤ size
    pub taken : received result.2 fd ≡ received w fd ++ bytes
    pub quiet : sent result.2 ≡ sent w
    pub stored : result.1 ≡ blit off bytes data'
    pub ending : Ending F fd size (length bytes) (off + length bytes) result.0 result.2

  nothing :
      (fd off size : ℕ) (data' : List ℕ) (w w' : World) (r : ℤ)
      → received w' fd ≡ received w fd
      → sent w' ≡ sent w
      → Ending F fd size 0 (off + 0) r w'
      → Outcome fd off size data' w (r, data', w')
  nothing fd off size data' w w' r hr hs e = record {
    bytes = [];
    fits = omega arith;
    taken = hr ∙ sym (append-nil _);
    quiet = hs;
    stored = sym (blit-nil off data');
    ending = e;
  }

  -- A read of `bs`, and a call for the rest.
  later :
      (fd off size : ℕ) (data' bs : List ℕ) (w w' : World) (result : ℤ × List ℕ × World)
      → off + size ≤ length data'
      → ReadLaw received sent fd size w (ReadResult.got bs, w')
      → Outcome fd (off + length bs) (size - length bs) (blit off bs data') w' result
      → Outcome fd off size data' w result
  later fd off size data' bs w w' result room (few, grown, _, still) o = record {
    bytes = bs ++ o.bytes;
    fits = omega (arith, length-append {0} bs o.bytes, o.fits);
    taken = o.taken ∙ ap (λ l. l ++ o.bytes) grown ∙ append_assoc _ bs o.bytes;
    quiet = o.quiet ∙ still;
    stored = o.stored ∙ blit-blit off bs data' (omega arith) o.bytes;
    ending =
        Ending-later F fd size (length bs) (length o.bytes) _ _ _ (length-append bs o.bytes)
          (omega (arith, length-append {0} bs o.bytes)) few o.ending;
  }

module _ (F : Files) (S : Streams F) (P : Patient F) where
  open F use {World, read}
  open S use {received, sent, read_law}
  open P use {budget, read_spends}

  sub-zero : (n : ℕ) → n - 0 ≡ n
  sub-zero n = omega arith

  Finishes : (fuel fd : ℕ) (data' : List ℕ) (off size : ℕ) → World → Type 0
  Finishes fuel fd data' off size w =
      (result : ℤ × List ℕ × World) × (read_retry_loop F fuel fd data' off size w ≡ some result)
      × Outcome F S fd off size data' w result

  step :
      (fuel fd : ℕ) (data' : List ℕ) (off size : ℕ) (w : World) (answer : ReadResult × World)
      → read fd size w ≡ answer
      → ReadLaw received sent fd size w answer
      → ReadSpends budget w answer
      → off + size ≤ length data'
      → size + budget w < suc fuel
      → ((data'' : List ℕ) (off' size' : ℕ) (w' : World)
          → off' + size' ≤ length data''
          → size' + budget w' < fuel
          → Finishes fuel fd data'' off' size' w')
      → Finishes (suc fuel) fd data' off size w
  unfolding read_retry_loop Finishes
  step fuel fd data' off size w (ReadResult.got [], w') e law spent room enough again = (
    (pos off, data', w'),
    rw (e, read_retry_loop, e),
    nothing F S fd off size data' w w' _ (law.1 ∙ append-nil _) law.3
        (end_of_file w (rw (sub-zero size) e) (ap pos (sym (add-zero off)))),
  )
  step fuel fd data' off size w (ReadResult.failed err, w') e law spent room enough again =
      elim (Bool-cases (retryable err)) [
        | inl retry ↦
            let (result, runs, o) = again data' off size w' room (omega (arith, spent.1 retry)) in
            (
              result,
              rw (e, read_retry_loop, e, retry) runs,
              record {
                bytes = o.bytes;
                fits = o.fits;
                taken = o.taken ∙ ap (λ (f : ℕ → List ℕ). f fd ++ o.bytes) law.0;
                quiet = o.quiet ∙ law.1;
                stored = o.stored;
                ending = o.ending;
              },
            )
        | inr fatal ↦ (
          (minus_one, data', w'),
          rw (e, read_retry_loop, e, fatal),
          nothing F S fd off size data' w w' _ (ap (λ (f : ℕ → List ℕ). f fd) law.0) law.1
              (broken w err fatal (rw (sub-zero size) e) refl),
        )
      ]
  step fuel fd data' off size w (ReadResult.got (b ∷ bs), w') e law spent room enough again =
      elim (Bool-cases (size - length (b ∷ bs) == 0)) [
        | inl done ↦ (
          (pos (off + length (b ∷ bs)), blit off (b ∷ bs) data', w'),
          rw (e, read_retry_loop, e, done),
          later F S fd off size data' (b ∷ bs) w w' _ room law (
              nothing F S fd _ _ _ w' w' _ refl refl
                (full (ground arith) (ap pos (sym (add-zero _))))),
        )
        | inr more ↦
            let (result, runs, o) =
              again (blit off (b ∷ bs) data') (off + length (b ∷ bs)) (size - length (b ∷ bs)) w'
                (omega (arith, length-blit off (b ∷ bs) data', law.0))
                (omega (arith, spent, law.0)) in
            (
              result,
              rw (e, read_retry_loop, e, more) runs,
              later F S fd off size data' (b ∷ bs) w w' _ room law o,
            )
      ]

  read_retry_loop-Outcome :
      (fuel fd : ℕ) (data' : List ℕ) (off size : ℕ) (w : World)
      → off + size ≤ length data'
      → size + budget w < fuel
      → Finishes fuel fd data' off size w
  read_retry_loop-Outcome zero fd data' off size w room enough = absurd (omega arith)
  read_retry_loop-Outcome (suc fuel) fd data' off size w room enough =
      step fuel fd data' off size w (read fd size w) refl (read_law fd size w)
        (read_spends fd size w) room enough (read_retry_loop-Outcome fuel fd)

  -- On a kernel that obeys the laws of `read` and interrupts it finitely often, into an array of at
  -- least `size` bytes, `read_retry` returns. It has stored at the start of the array, and nowhere
  -- else, exactly the bytes that the descriptor gave, at most `size` of them. It returns their
  -- number if that is `size` or the last `read` met the end of the file, and -1 if the last `read`
  -- failed with an error other than EAGAIN and EINTR.
  pub read_retry-Outcome :
      (fuel fd : ℕ) (data' : List ℕ) (size : ℕ) (w : World)
      → size ≤ length data'
      → size + budget w < fuel
      → (result : ℤ × List ℕ × World) × (read_retry F fuel fd data' size w ≡ some result)
        × Outcome F S fd 0 size data' w result
  unfolding read_retry Finishes
  read_retry-Outcome fuel fd data' size w room enough =
      read_retry_loop-Outcome fuel fd data' 0 size w (omega arith) enough
