-- ===== src/Io/WriteRetry/Spec.antt =====
-- What `write_retry` of sem03-lowlevel-io-fs/buffered_perf.c returns, and that it returns.
use caos_seminars.Prelude.{
  ℕ, zero, suc, ◌+◌, ◌-◌, ◌≤◌, ◌<◌, ◌≡◌, refl, sym, ap, ◌∙◌, inl, inr, false, some, List, ◌++◌,
  append_assoc, arith, length-take, ◌==◌, Bool-cases, take, drop,
}
use mathlib.Core.List.{append-nil}
use native.Mathlib.Nat.{add-zero}
use caos_seminars.Prelude.Int.{ℤ, pos, minus_one}
use caos_seminars.Bytes.{take-take, take-add, drop-drop}
use caos_seminars.Posix.{
  Files, WriteResult, Errno, retryable, Streams, Patient, WriteLaw, WriteSpends,
}
use caos_seminars.Io.WriteRetry.{write_retry_loop, write_retry}

module _ (F : Files) where
  open F use {World, write}

  -- Why a call that writes the `size` bytes of `data'` from `off` on, and has written `n` of them,
  -- ended in the world `w'`, and what it returns: -1 for an error that is not retried, and
  -- `off + n` otherwise.
  pub data Ending (fd : ℕ) (data' : List ℕ) (off size n : ℕ) (r : ℤ) (w' : World) : Type 0 where
    full : n ≡ size → r ≡ pos (off + n) → Ending fd data' off size n r w'
    closed :
        (w : World)
        → write fd (take (size - n) (drop (off + n) data')) w ≡ (WriteResult.wrote 0, w')
        → r ≡ pos (off + n)
        → Ending fd data' off size n r w'
    broken :
        (w : World) (e : Errno)
        → retryable e ≡ false
        → write fd (take (size - n) (drop (off + n) data')) w ≡ (WriteResult.failed e, w')
        → r ≡ minus_one
        → Ending fd data' off size n r w'

  Ending-later :
      (fd : ℕ) (data' : List ℕ) (off size k n : ℕ) {r : ℤ} {w' : World}
      → k ≤ size
      → Ending fd data' (off + k) (size - k) n r w'
      → Ending fd data' off size (k + n) r w'
  Ending-later fd data' off size k n h e =
      let same : off + k + n ≡ off + (k + n) = omega arith in
      let left : size - k - n ≡ size - (k + n) = omega arith in
      elim e [
        | full g v ↦ full (omega arith) (v ∙ ap pos same)
        | closed w g v ↦ closed w (rw (← left, ← same) g) (v ∙ ap pos same)
        | broken w err x g v ↦ broken w err x (rw (← left, ← same) g) v
      ]

module _ (F : Files) (S : Streams F) where
  open F use {World}
  open S use {received, sent}

  -- The outcome of a call that writes the `size` bytes of `data'` from `off` on.
  pub record Outcome (fd : ℕ) (data' : List ℕ) (off size : ℕ) (w : World) (result : ℤ × World)
      : Type 0 where
    pub count : ℕ
    pub fits : count ≤ size
    pub passed : sent result.1 fd ≡ sent w fd ++ take count (drop off data')
    pub quiet : received result.1 ≡ received w
    pub ending : Ending F fd data' off size count result.0 result.1

module _ (F : Files) (S : Streams F) (P : Patient F) where
  open F use {World, write}
  open S use {received, sent, write_law}
  open P use {budget, write_spends}

  abbrev Finishes : (fuel fd : ℕ) (data' : List ℕ) (off size : ℕ) → World → Type 0
  Finishes fuel fd data' off size w =
      (result : ℤ × World) × (write_retry_loop F fuel fd data' off size w ≡ some result)
      × Outcome F S fd data' off size w result
      × (budget result.1 ≤ budget w)

  -- A write of `k` bytes, and a call for the rest.
  later :
      (fd : ℕ) (data' : List ℕ) (off size k : ℕ) (w w' : World) (result : ℤ × World)
      → WriteLaw received sent fd (take size (drop off data')) w (WriteResult.wrote k, w')
      → Outcome F S fd data' (off + k) (size - k) w' result
      → Outcome F S fd data' off size w result
  later fd data' off size k w w' result (few, grown, _, still) o = record {
    count = k + o.count;
    fits = omega (arith, o.fits, few, length-take {0} size (drop off data'));
    passed =
        o.passed
        ∙ ap (λ l. l ++ take o.count (drop (off + k) data')) grown
        ∙ append_assoc (sent w fd) (take k (take size (drop off data')))
            (take o.count (drop (off + k) data'))
        ∙ ap (λ l. sent w fd ++ l) pieces;
    quiet = o.quiet ∙ still;
    ending = Ending-later F fd data' off size k o.count small o.ending;
  }
    where
      small : k ≤ size
      small = omega (arith, few, length-take {0} size (drop off data'))

      pieces :
          take k (take size (drop off data')) ++ take o.count (drop (off + k) data')
          ≡ take (k + o.count) (drop off data')
      pieces =
          rw (take-take k size (drop off data') small, ← drop-drop off k data')
            (sym (take-add k o.count (drop off data')))

  nothing :
      (fd : ℕ) (data' : List ℕ) (off size : ℕ) (w w' : World) (r : ℤ)
      → sent w' fd ≡ sent w fd
      → received w' ≡ received w
      → Ending F fd data' off size 0 r w'
      → Outcome F S fd data' off size w (r, w')
  nothing fd data' off size w w' r hs hr e = record {
    count = 0;
    fits = omega arith;
    passed = hs ∙ sym (append-nil _);
    quiet = hr;
    ending = e;
  }

  -- The call that ended a loop before anything was written, in the form that `Ending` has.
  at_start :
      (fd : ℕ) (data' : List ℕ) (off size : ℕ) (w : World) (answer : WriteResult × World)
      → write fd (take size (drop off data')) w ≡ answer
      → write fd (take (size - 0) (drop (off + 0) data')) w ≡ answer
  at_start fd data' off size w answer e =
      let whole : size - 0 ≡ size = omega arith in rw (whole, add-zero off) e

  step :
      (fuel fd : ℕ) (data' : List ℕ) (off size : ℕ) (w : World) (answer : WriteResult × World)
      → write fd (take size (drop off data')) w ≡ answer
      → WriteLaw received sent fd (take size (drop off data')) w answer
      → WriteSpends budget w answer
      → size + budget w < suc fuel
      → ((off' size' : ℕ) (w' : World)
          → size' + budget w' < fuel
          → Finishes fuel fd data' off' size' w')
      → Finishes (suc fuel) fd data' off size w
  unfolding write_retry_loop
  step fuel fd data' off size w (WriteResult.wrote zero, w') e law spent enough again = (
    (pos off, w'),
    rw (e, write_retry_loop, e),
    nothing fd data' off size w w' _ (law.1 ∙ append-nil _) law.3
        (closed w (at_start fd data' off size w _ e) (ap pos (sym (add-zero off)))),
    spent,
  )
  step fuel fd data' off size w (WriteResult.failed err, w') e law spent enough again =
      elim (Bool-cases (retryable err)) [
        | inl retry ↦
            let (result, runs, o, left) = again off size w' (omega (arith, spent.1 retry)) in
            (
              result,
              rw (e, write_retry_loop, e, retry) runs,
              record {
                count = o.count;
                fits = o.fits;
                passed =
                    o.passed ∙ ap (λ (f : ℕ → List ℕ). f fd ++ take o.count (drop off data')) law.1;
                quiet = o.quiet ∙ law.0;
                ending = o.ending;
              },
              omega (arith, left, spent.1 retry),
            )
        | inr fatal ↦ (
          (minus_one, w'),
          rw (e, write_retry_loop, e, fatal),
          nothing fd data' off size w w' _ (ap (λ (f : ℕ → List ℕ). f fd) law.1) law.0
              (broken w err fatal (at_start fd data' off size w _ e) refl),
          spent.0,
        )
      ]
  step fuel fd data' off size w (WriteResult.wrote (suc k), w') e law spent enough again =
      elim (Bool-cases (size - suc k == 0)) [
        | inl done ↦ (
          (pos (off + suc k), w'),
          rw (e, write_retry_loop, e, done),
          later fd data' off size (suc k) w w' _ law (
              nothing fd data' _ _ w' w' _ refl refl
                (full (ground arith) (ap pos (sym (add-zero _))))),
          spent,
        )
        | inr more ↦
            let (result, runs, o, left) =
              again (off + suc k) (size - suc k) w'
                (omega (arith, spent, law.0, length-take {0} size (drop off data'))) in
            (
              result,
              rw (e, write_retry_loop, e, more) runs,
              later fd data' off size (suc k) w w' _ law o,
              omega (arith, left, spent),
            )
      ]

  write_retry_loop-Outcome :
      (fuel fd : ℕ) (data' : List ℕ) (off size : ℕ) (w : World)
      → size + budget w < fuel
      → Finishes fuel fd data' off size w
  write_retry_loop-Outcome zero fd data' off size w enough = absurd (omega arith)
  write_retry_loop-Outcome (suc fuel) fd data' off size w enough =
      step fuel fd data' off size w (write fd (take size (drop off data')) w) refl
        (write_law fd _ w) (write_spends fd _ w) enough (write_retry_loop-Outcome fuel fd data')

  -- On a kernel that obeys the laws of `write` and interrupts it finitely often, `write_retry`
  -- returns. Exactly the first `count ≤ size` bytes of the array have reached the descriptor. It
  -- returns `count` if that is `size` or the last `write` returned 0, and -1 if the last `write`
  -- failed with an error other than EAGAIN and EINTR.
  pub write_retry-Outcome :
      (fuel fd : ℕ) (data' : List ℕ) (size : ℕ) (w : World)
      → size + budget w < fuel
      → (result : ℤ × World) × (write_retry F fuel fd data' size w ≡ some result)
        × Outcome F S fd data' 0 size w result
        × (budget result.1 ≤ budget w)
  unfolding write_retry
  write_retry-Outcome fuel fd data' size w enough =
      write_retry_loop-Outcome fuel fd data' 0 size w enough
