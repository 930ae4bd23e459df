-- ===== src/Io/CopyFile/Filling.antt =====
-- The first loop of sem03-lowlevel-io-fs/error_handling_io.c: it ends, and what it has read.
use caos_seminars.Prelude.{
  ℕ, zero, suc, ◌+◌, ◌-◌, ◌≤◌, ◌<◌, ◌≡◌, refl, sym, ap, ◌∙◌, inl, inr, false, List, [], ◌∷◌, ◌++◌,
  append_assoc, append-nil, arith, length, length-append, Bool-cases,
}
use caos_seminars.Bytes.{blit, blit-nil, blit-blit, length-blit}
use caos_seminars.Posix.{Files, ReadResult, Errno, retryable, Streams, Patient, ReadLaw, ReadSpends}
use caos_seminars.Io.CopyFile.{buffer_size, Phase, fill}

module _ (F : Files) (S : Streams F) (P : Patient F) where
  open F use {World, read}
  open S use {received, sent, read_law}
  open P use {budget, read_spends}

  -- Between two worlds, `bytes` came from the descriptor into the room for `room` bytes.
  pub record Took (fd room : ℕ) (bytes : List ℕ) (w w' : World) : Type 0 where
    pub fits : length bytes ≤ room
    pub taken : received w' fd ≡ received w fd ++ bytes
    pub quiet : sent w' ≡ sent w
    pub spent : budget w' ≤ budget w

  Took-nothing :
      (fd room : ℕ) {w w' : World}
      → received w' fd ≡ received w fd
      → sent w' ≡ sent w
      → budget w' ≤ budget w
      → Took fd room [] w w'
  Took-nothing fd room r s b = record {
    fits = omega arith;
    taken = r ∙ sym (append-nil _);
    quiet = s;
    spent = b;
  }

  Took-append :
      (fd room : ℕ) (room' : ℕ) (bs cs : List ℕ) {w w1 w' : World}
      → room' ≡ room - length bs
      → Took fd room bs w w1
      → Took fd room' cs w1 w'
      → Took fd room (bs ++ cs) w w'
  Took-append fd room room' bs cs e first second = record {
    fits = omega (arith, length-append {0} bs cs, first.fits, second.fits);
    taken = second.taken ∙ ap (λ l. l ++ cs) first.taken ∙ append_assoc _ bs cs;
    quiet = second.quiet ∙ first.quiet;
    spent = omega (arith, first.spent, second.spent);
  }

  Took-retry :
      (fd room : ℕ) (bytes : List ℕ) {w w1 w' : World}
      → received w1 ≡ received w
      → sent w1 ≡ sent w
      → budget w1 ≤ budget w
      → Took fd room bytes w1 w'
      → Took fd room bytes w w'
  Took-retry fd room bytes r s b t = record {
    fits = t.fits;
    taken = t.taken ∙ ap (λ (f : ℕ → List ℕ). f fd ++ bytes) r;
    quiet = t.quiet ∙ s;
    spent = omega (arith, t.spent, b);
  }

  -- The loop from `off` bytes on. It ends when `read` has returned 0, or failed for good.
  abbrev pub Fills : (fd off : ℕ) (buffer : List ℕ) → World → Phase (ℕ × List ℕ) World → Type 0
  Fills fd off buffer w (Phase.finished (n, buffer') w') =
      (bytes : List ℕ) × Took fd (buffer_size - off) bytes w w'
      × (n ≡ off + length bytes)
      × (buffer' ≡ blit off bytes buffer)
      × ((w0 : World) × (read fd (buffer_size - n) w0 ≡ (ReadResult.got [], w')))
  Fills fd off buffer w (Phase.failed w') =
      (bytes : List ℕ) × (n : ℕ) × Took fd (buffer_size - off) bytes w w'
      × (n ≡ off + length bytes)
      × ((w0 : World) × (e : Errno) × (retryable e ≡ false)
          × (read fd (buffer_size - n) w0 ≡ (ReadResult.failed e, w')))
  Fills fd off buffer w Phase.out_of_fuel = ⊥

  Fills-retry :
      (fd off : ℕ) (buffer : List ℕ) (w w1 : World) (out : Phase (ℕ × List ℕ) World)
      → (received w1 ≡ received w) × (sent w1 ≡ sent w)
      → budget w1 ≤ budget w
      → Fills fd off buffer w1 out
      → Fills fd off buffer w out
  Fills-retry fd off buffer w w1 (Phase.finished (n, buffer') w') (r, s) b
        (bytes, t, en, eb, last) =
      (bytes, Took-retry fd _ bytes r s b t, en, eb, last)
  Fills-retry fd off buffer w w1 (Phase.failed w') (r, s) b (bytes, n, t, en, last) =
      (bytes, n, Took-retry fd _ bytes r s b t, en, last)
  Fills-retry fd off buffer w w1 Phase.out_of_fuel l b h = h

  Fills-later :
      (fd off : ℕ) (buffer bs : List ℕ) (w w1 : World) (out : Phase (ℕ × List ℕ) World)
      → off ≤ length buffer
      → Took fd (buffer_size - off) bs w w1
      → Fills fd (off + length bs) (blit off bs buffer) w1 out
      → Fills fd off buffer w out
  Fills-later fd off buffer bs w w1 (Phase.finished (n, buffer') w') room first
        (more, t, en, eb, last) =
      (
        bs ++ more,
        Took-append fd _ _ bs more (omega arith) first t,
        omega (arith, en, length-append {0} bs more),
        eb ∙ blit-blit off bs buffer room more,
        last,
      )
  Fills-later fd off buffer bs w w1 (Phase.failed w') room first (more, n, t, en, last) = (
    bs ++ more,
    n,
    Took-append fd _ _ bs more (omega arith) first t,
    omega (arith, en, length-append {0} bs more),
    last,
  )
  Fills-later fd off buffer bs w w1 Phase.out_of_fuel room first h = h

  -- One round, by what `read` gives.
  fill_round :
      (fuel fd off : ℕ) (buffer : List ℕ) (w : World) (answer : ReadResult × World)
      → read fd (buffer_size - off) w ≡ answer
      → ReadLaw received sent fd (buffer_size - off) w answer
      → ReadSpends budget w answer
      → length buffer ≡ buffer_size
      → off ≤ buffer_size
      → buffer_size - off + budget w < suc fuel
      → ((off' : ℕ) (buffer' : List ℕ) (w' : World)
          → length buffer' ≡ buffer_size
          → off' ≤ buffer_size
          → buffer_size - off' + budget w' < fuel
          → Fills fd off' buffer' w' (fill F retryable fuel fd buffer' off' w'))
      → Fills fd off buffer w (fill F retryable (suc fuel) fd buffer off w)
  unfolding fill
  fill_round fuel fd off buffer w (ReadResult.got [], w') e law spent size room enough again =
      rw (e, fill, e)
        (
          [],
          Took-nothing fd _ (law.1 ∙ append-nil _) law.3 spent,
          omega arith,
          sym (blit-nil off buffer),
          (w, e),
        )
  fill_round fuel fd off buffer w (ReadResult.failed err, w') e law spent size room enough again =
      elim (Bool-cases (retryable err)) [
        | inl retry ↦
            rw (e, fill, e, retry)
              (Fills-retry fd off buffer w w' _ law spent.0
                (again off buffer w' size room (omega (arith, spent.1 retry))))
        | inr fatal ↦
            rw (e, fill, e, fatal)
              (
                [],
                off,
                Took-nothing fd _ (ap (λ (f : ℕ → List ℕ). f fd) law.0) law.1 spent.0,
                omega arith,
                (w, err, fatal, e),
              )
      ]
  fill_round fuel fd off buffer w (ReadResult.got (b ∷ bs), w') e law spent size room enough again =
      rw (e, fill, e)
        (Fills-later fd off buffer (b ∷ bs) w w' _ (omega (arith, size))
          (record { fits = law.0; taken = law.1; quiet = law.3; spent = spent })
          (again (off + length (b ∷ bs)) (blit off (b ∷ bs) buffer) w'
            (length-blit off (b ∷ bs) buffer (omega (arith, size, law.0)) ∙ size)
            (omega (arith, law.0)) (omega (arith, law.0, spent))))

  -- The first loop comes to its end: each round but the last reads a byte or more or uses up an
  -- interruption.
  pub fill-Fills :
      (fuel fd off : ℕ) (buffer : List ℕ) (w : World)
      → length buffer ≡ buffer_size
      → off ≤ buffer_size
      → buffer_size - off + budget w < fuel
      → Fills fd off buffer w (fill F retryable fuel fd buffer off w)
  fill-Fills zero fd off buffer w size room enough = absurd (omega arith)
  fill-Fills (suc fuel) fd off buffer w size room enough =
      fill_round fuel fd off buffer w (read fd (buffer_size - off) w) refl
        (read_law fd (buffer_size - off) w) (read_spends fd (buffer_size - off) w) size room enough
        (fill-Fills fuel fd)
