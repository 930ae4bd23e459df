-- ===== src/Io/BufferedWriter/Program.antt =====
-- What `write_impl` of buffered_perf.c sends to the standard output.
use caos_seminars.Prelude.{
  ℕ, ◌+◌, ◌*◌, ◌≤◌, ◌<◌, ◌≡◌, refl, sym, ap, ◌∙◌, subst, inl, inr, some, List, [], ◌∷◌, ◌++◌,
  append_assoc, arith, length, take, ltb, Bool-cases,
}
use mathlib.Core.List.{append-nil, flatten}
use caos_seminars.Bytes.{cstring}
use caos_seminars.Posix.{Files, Streams, Patient, Reliable}
use caos_seminars.Io.WriteRetry.Full.{write_retry-Sent}
use caos_seminars.Io.BufferedWriter.{
  BufferedWriter, init_buffer, close_buffer, write_lines, write_impl,
}
use caos_seminars.Io.BufferedWriter.Spec.{IsWriter, pending, Took, buffered_write-Took}

-- The string of each line has at most `n` bytes.
abbrev pub AllWithin : ℕ → List (List ℕ) → Type 0
AllWithin n [] = Unit
AllWithin n (line ∷ lines) = (length (cstring line) ≤ n) × AllWithin n lines

-- The strings of the lines: each line up to its first NUL, if it has one.
abbrev pub texts : List (List ℕ) → List (List ℕ)
texts [] = []
texts (line ∷ lines) = cstring line ∷ texts lines

module _ (F : Files) (S : Streams F) (P : Patient F) where
  open F use {World}
  open S use {sent}
  open P use {budget}

  Took-append :
      {writer : BufferedWriter} {w : World} (a b : List ℕ) (next last : BufferedWriter × World)
      → Took F S P writer a w next
      → Took F S P next.0 b next.1 last
      → Took F S P writer (a ++ b) w last
  Took-append {writer} {w} a b next last t u = record {
    valid = u.valid;
    same_fd = u.same_fd ∙ t.same_fd;
    same_capacity = u.same_capacity ∙ t.same_capacity;
    total =
        subst (λ d. sent last.1 d ++ pending last.0 ≡ sent next.1 d ++ (pending next.0 ++ b))
          t.same_fd u.total
        ∙ sym (append_assoc (sent next.1 writer.fd) (pending next.0) b)
        ∙ ap (λ l. l ++ b) t.total
        ∙ append_assoc (sent w writer.fd) (pending writer ++ a) b
        ∙ ap (λ l. sent w writer.fd ++ l) (append_assoc (pending writer) a b);
    left = omega (arith, t.left, u.left);
  }

  write_lines-Took :
      (fuel : ℕ) (writer : BufferedWriter) (lines : List (List ℕ)) (w : World)
      → Reliable F writer.fd
      → IsWriter writer
      → AllWithin writer.capacity lines
      → writer.capacity + budget w < fuel
      → (next : BufferedWriter × World) × (write_lines F fuel writer lines w ≡ some next)
        × Took F S P writer (flatten (texts lines)) w next
  unfolding write_lines flatten
  write_lines-Took fuel writer [] w R v short enough = (
    (writer, w),
    refl,
    record {
      valid = v;
      same_fd = refl;
      same_capacity = refl;
      total = ap (λ l. sent w writer.fd ++ l) (sym (append-nil (pending writer)));
      left = omega arith;
    },
  )
  write_lines-Took fuel writer (line ∷ lines) w R v short enough =
      let (next, runs, t) = buffered_write-Took F S P fuel writer R v line short.0 w enough in
      let (last, ends, u) =
        write_lines-Took fuel next.0 lines next.1 (subst (Reliable F) (sym t.same_fd) R) t.valid
          (subst (λ n. AllWithin n lines) (sym t.same_capacity) short.1)
          (omega (arith, t.same_capacity, t.left)) in
      (
        last,
        rw (runs, write_lines) ends,
        Took-append (cstring line) (flatten (texts lines)) next last t u,
      )

  -- `close_buffer` writes out what is buffered.
  close_buffer_lem :
      (fuel : ℕ) (writer : BufferedWriter) (w : World)
      → Reliable F writer.fd
      → IsWriter writer
      → writer.capacity + budget w < fuel
      → (w' : World) × (close_buffer F fuel writer w ≡ some w')
        × (sent w' writer.fd ≡ sent w writer.fd ++ pending writer)
  unfolding close_buffer
  close_buffer_lem fuel writer w R v enough = elim (Bool-cases (ltb 0 writer.size)) [
    | inl some_left ↦
        let (w', runs, gone) =
          write_retry-Sent F S P writer.fd R fuel writer.buffer writer.size w
            (omega (arith, v.block, v.within)) (omega (arith, v.within)) in
        (w', rw (some_left, runs), gone.passed)
    | inr none_left ↦
        let empty : writer.size ≡ 0 = ground arith in
        (
          w,
          rw none_left,
          sym (append-nil (sent w writer.fd))
              ∙ ap (λ n. sent w writer.fd ++ take n writer.buffer) (sym empty),
        )
  ]

  -- With a block of 1 MB and lines whose strings have at most 1 MB each, on a standard output that
  -- never refuses bytes for good, where calls are interrupted finitely often and with fuel for these
  -- and for 1 MB, `write_impl` returns, and what it has sent to descriptor 1 is exactly the strings of
  -- the lines one after the other, each line up to its first NUL, whatever the sizes of the partial
  -- writes.
  pub write_impl-flatten :
      (fuel : ℕ) (block : List ℕ) (lines : List (List ℕ)) (w : World)
      → Reliable F 1
      → length block ≡ 1024 * 1024
      → AllWithin (1024 * 1024) lines
      → 1024 * 1024 + budget w < fuel
      → (w' : World) × (write_impl F fuel block lines w ≡ some w')
        × (sent w' 1 ≡ sent w 1 ++ flatten (texts lines))
  unfolding write_impl init_buffer
  write_impl-flatten fuel block lines w R full short enough =
      let writer = init_buffer block (1024 * 1024) 1 in
      let (next, runs, t) =
        write_lines-Took fuel writer lines w R (record { block = full; within = omega arith }) short
          enough in
      let (w', closes, gone) =
        close_buffer_lem fuel next.0 next.1 (subst (Reliable F) (sym t.same_fd) R) t.valid
          (omega (arith, t.same_capacity, t.left)) in
      (
        w',
        rw (runs, write_impl) closes,
        subst (λ d. sent w' d ≡ sent next.1 d ++ pending next.0) t.same_fd gone ∙ t.total,
      )
