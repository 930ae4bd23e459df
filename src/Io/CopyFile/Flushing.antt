-- ===== src/Io/CopyFile/Flushing.antt =====
-- The second loop of sem03-lowlevel-io-fs/error_handling_io.c: it ends, and what it has written.
use caos_seminars.Prelude.{
  ℕ, zero, suc, ◌+◌, ◌-◌, ◌≤◌, ◌<◌, ◌≡◌, refl, sym, ap, ◌∙◌, inl, inr, false, List, ◌++◌,
  append_assoc, append-nil, arith, length-take, take, drop, Bool-cases,
}
use caos_seminars.Bytes.{take-take, take-add, drop-drop}
use caos_seminars.Posix.{
  Files, WriteResult, Errno, retryable, Streams, Patient, WriteLaw, WriteSpends,
}
use caos_seminars.Io.CopyFile.{Phase, flush}

module _ (F : Files) (S : Streams F) (P : Patient F) where
  open F use {World, write}
  open S use {received, sent, write_law}
  open P use {budget, write_spends}

  -- Between two worlds, `count` of the `size` bytes at `off` in the buffer went to the descriptor.
  pub record Gave (fd : ℕ) (buffer : List ℕ) (off size count : ℕ) (w w' : World) : Type 0 where
    pub fits : count ≤ size
    pub passed : sent w' fd ≡ sent w fd ++ take count (drop off buffer)
    pub quiet : received w' ≡ received w

  Gave-nothing :
      (fd : ℕ) (buffer : List ℕ) (off size : ℕ) {w w' : World}
      → sent w' fd ≡ sent w fd
      → received w' ≡ received w
      → Gave fd buffer off size 0 w w'
  Gave-nothing fd buffer off size s r = record {
    fits = omega arith;
    passed = s ∙ sym (append-nil _);
    quiet = r;
  }

  Gave-append :
      (fd : ℕ) (buffer : List ℕ) (off size size' k n : ℕ) {w w1 w' : World}
      → size' ≡ size - k
      → Gave fd buffer off size k w w1
      → Gave fd buffer (off + k) size' n w1 w'
      → Gave fd buffer off size (k + n) w w'
  Gave-append fd buffer off size size' k n {w} e first second = record {
    fits = omega (arith, first.fits, second.fits);
    passed =
        second.passed
        ∙ ap (λ l. l ++ take n (drop (off + k) buffer)) first.passed
        ∙ append_assoc (sent w fd) (take k (drop off buffer)) (take n (drop (off + k) buffer))
        ∙ ap (λ l. sent w fd ++ l)
            (ap (λ l. take k (drop off buffer) ++ take n l) (sym (drop-drop off k buffer))
              ∙ sym (take-add k n (drop off buffer)));
    quiet = second.quiet ∙ first.quiet;
  }

  Gave-retry :
      (fd : ℕ) (buffer : List ℕ) (off size n : ℕ) {w w1 w' : World}
      → received w1 ≡ received w
      → sent w1 ≡ sent w
      → Gave fd buffer off size n w1 w'
      → Gave fd buffer off size n w w'
  Gave-retry fd buffer off size n r s g = record {
    fits = g.fits;
    passed = g.passed ∙ ap (λ (f : ℕ → List ℕ). f fd ++ take n (drop off buffer)) s;
    quiet = g.quiet ∙ r;
  }

  -- The loop from `off` on, in a buffer that holds `total` bytes. It ends when `write` has returned 0
  -- for what is left, or failed for good.
  abbrev pub Flushes : (fd : ℕ) (buffer : List ℕ) (total off : ℕ) → World → Phase ℕ World → Type 0
  Flushes fd buffer total off w (Phase.finished written w') =
      (count : ℕ) × Gave fd buffer off (total - off) count w w'
      × (written ≡ off + count)
      × ((w0 : World) × (write fd (take (total - written) (drop written buffer)) w0
            ≡ (WriteResult.wrote 0, w')))
  Flushes fd buffer total off w (Phase.failed w') =
      (count : ℕ) × (written : ℕ) × Gave fd buffer off (total - off) count w w'
      × (written ≡ off + count)
      × ((w0 : World) × (e : Errno) × (retryable e ≡ false)
          × (write fd (take (total - written) (drop written buffer)) w0
              ≡ (WriteResult.failed e, w')))
  Flushes fd buffer total off w Phase.out_of_fuel = ⊥

  Flushes-retry :
      (fd : ℕ) (buffer : List ℕ) (total off : ℕ) (w w1 : World) (out : Phase ℕ World)
      → (received w1 ≡ received w) × (sent w1 ≡ sent w)
      → Flushes fd buffer total off w1 out
      → Flushes fd buffer total off w out
  Flushes-retry fd buffer total off w w1 (Phase.finished n w') (r, s) (count, g, e, last) =
      (count, Gave-retry fd buffer off _ count r s g, e, last)
  Flushes-retry fd buffer total off w w1 (Phase.failed w') (r, s) (count, n, g, e, last) =
      (count, n, Gave-retry fd buffer off _ count r s g, e, last)
  Flushes-retry fd buffer total off w w1 Phase.out_of_fuel l h = h

  Flushes-later :
      (fd : ℕ) (buffer : List ℕ) (total off k : ℕ) (w w1 : World) (out : Phase ℕ World)
      → Gave fd buffer off (total - off) k w w1
      → Flushes fd buffer total (off + k) w1 out
      → Flushes fd buffer total off w out
  Flushes-later fd buffer total off k w w1 (Phase.finished n w') first (count, g, e, last) = (
    k + count,
    Gave-append fd buffer off _ _ k count (omega arith) first g,
    omega (arith, e),
    last,
  )
  Flushes-later fd buffer total off k w w1 (Phase.failed w') first (count, n, g, e, last) = (
    k + count,
    n,
    Gave-append fd buffer off _ _ k count (omega arith) first g,
    omega (arith, e),
    last,
  )
  Flushes-later fd buffer total off k w w1 Phase.out_of_fuel first h = h

  -- A write of `k` bytes, by its law.
  wrote-Gave :
      (fd : ℕ) (buffer : List ℕ) (off size k : ℕ) (w w' : World)
      → WriteLaw received sent fd (take size (drop off buffer)) w (WriteResult.wrote k, w')
      → Gave fd buffer off size k w w'
  wrote-Gave fd buffer off size k w w' (few, grown, _, still) =
      let small : k ≤ size = omega (arith, few, length-take {0} size (drop off buffer)) in
      record {
        fits = small;
        passed = grown ∙ ap (λ l. sent w fd ++ l) (take-take k size (drop off buffer) small);
        quiet = still;
      }

  -- One round, by what `write` gives.
  flush_round :
      (fuel fd : ℕ) (buffer : List ℕ) (total off : ℕ) (w : World) (answer : WriteResult × World)
      → write fd (take (total - off) (drop off buffer)) w ≡ answer
      → WriteLaw received sent fd (take (total - off) (drop off buffer)) w answer
      → WriteSpends budget w answer
      → total - off + budget w < suc fuel
      → ((off' : ℕ) (w' : World)
          → total - off' + budget w' < fuel
          → Flushes fd buffer total off' w' (flush F retryable fuel fd buffer total off' w'))
      → Flushes fd buffer total off w (flush F retryable (suc fuel) fd buffer total off w)
  unfolding flush
  flush_round fuel fd buffer total off w (WriteResult.wrote zero, w') e law spent enough again =
      rw (e, flush, e) (0, wrote-Gave fd buffer off _ 0 w w' law, omega arith, (w, e))
  flush_round fuel fd buffer total off w (WriteResult.failed err, w') e law spent enough again =
      elim (Bool-cases (retryable err)) [
        | inl retry ↦
            rw (e, flush, e, retry)
              (Flushes-retry fd buffer total off w w' _ law
                (again off w' (omega (arith, spent.1 retry))))
        | inr fatal ↦
            rw (e, flush, e, fatal)
              (
                0,
                off,
                Gave-nothing fd buffer off _ (ap (λ (f : ℕ → List ℕ). f fd) law.1) law.0,
                omega arith,
                (w, err, fatal, e),
              )
      ]
  flush_round fuel fd buffer total off w (WriteResult.wrote (suc k), w') e law spent enough again =
      let first = wrote-Gave fd buffer off (total - off) (suc k) w w' law in
      rw (e, flush, e)
        (Flushes-later fd buffer total off (suc k) w w' _ first
          (again (off + suc k) w' (omega (arith, first.fits, spent))))

  -- The second loop comes to its end.
  pub flush-Flushes :
      (fuel fd : ℕ) (buffer : List ℕ) (total off : ℕ) (w : World)
      → total - off + budget w < fuel
      → Flushes fd buffer total off w (flush F retryable fuel fd buffer total off w)
  flush-Flushes zero fd buffer total off w enough = absurd (omega arith)
  flush-Flushes (suc fuel) fd buffer total off w enough =
      flush_round fuel fd buffer total off w (write fd (take (total - off) (drop off buffer)) w)
        refl (write_law fd _ w) (write_spends fd _ w) enough (flush-Flushes fuel fd buffer total)
