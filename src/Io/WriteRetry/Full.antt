-- ===== src/Io/WriteRetry/Full.antt =====
-- `write_retry` on a descriptor that never refuses bytes for good.
use caos_seminars.Prelude.{
  dec_lt, ℕ, ◌+◌, ◌-◌, ◌≤◌, ◌<◌, ◌≡◌, sym, ap, ◌∙◌, subst, some, List, ◌++◌, arith, length,
  length-take, length-drop, take, drop,
}
use mathlib.Core.Bool.{false≢true}
use caos_seminars.Prelude.Int.{ℤ, pos}
use caos_seminars.Posix.{Files, WriteResult, Streams, Patient, Reliable, Accepts}
use caos_seminars.Io.WriteRetry.{write_retry}
use caos_seminars.Io.WriteRetry.Spec.{Ending, full, closed, broken, write_retry-Outcome}

module _ (F : Files) (fd : ℕ) (R : Reliable F fd) where
  open F use {World, write}
  open R use {accepts}

  answer-Accepts :
      (bs : List ℕ) (w w' : World) (answer : WriteResult)
      → write fd bs w ≡ (answer, w')
      → Accepts bs answer
  answer-Accepts bs w w' answer e =
      subst (λ (a : WriteResult × World). Accepts bs a.0) e (accepts bs w)

  length-left :
      (data' : List ℕ) (size n : ℕ)
      → size ≤ length data'
      → length (take (size - n) (drop (0 + n) data')) ≡ size - n
  length-left data' size n room =
      omega (arith, length-take {0} (size - n) (drop (0 + n) data'), length-drop {0} (0 + n) data')

  Ending-full :
      (data' : List ℕ) (size n : ℕ) {r : ℤ} {w' : World}
      → n ≤ size
      → size ≤ length data'
      → Ending F fd data' 0 size n r w'
      → (n ≡ size) × (r ≡ pos size)
  Ending-full data' size n h room (full e v) = (e, v ∙ ap pos (omega arith))
  Ending-full data' size n h room (closed w e v) =
      let whole : n ≡ size = elim (dec_lt n size) [
        | yes less ↦
            absurd (
              omega
                (arith, answer-Accepts _ w _ _ e (omega (arith, length-left data' size n room))))
        | no not_less ↦ omega arith
      ] in
      (whole, v ∙ ap pos (omega arith))
  Ending-full data' size n h room (broken w err fatal e v) =
      absurd (false≢true (sym fatal ∙ answer-Accepts _ w _ _ e))

module _ (F : Files) (S : Streams F) (P : Patient F) (fd : ℕ) (R : Reliable F fd) where
  open F use {World}
  open S use {received, sent}
  open P use {budget}

  -- The world after all `size` bytes went out in one or more writes.
  pub record Sent (bytes : List ℕ) (w w' : World) : Type 0 where
    pub passed : sent w' fd ≡ sent w fd ++ bytes
    pub quiet : received w' ≡ received w
    pub left : budget w' ≤ budget w

  -- On a descriptor that never refuses bytes for good, `write_retry` returns `size`, and the whole
  -- of the `size` bytes has reached the descriptor, whatever the sizes of the partial writes.
  pub write_retry-Sent :
      (fuel : ℕ) (data' : List ℕ) (size : ℕ) (w : World)
      → size ≤ length data'
      → size + budget w < fuel
      → (w' : World) × (write_retry F fuel fd data' size w ≡ some (pos size, w'))
        × Sent (take size data') w w'
  write_retry-Sent fuel data' size w room enough =
      let (result, runs, o, left) = write_retry-Outcome F S P fuel fd data' size w enough in
      let (all, value) = Ending-full F fd R data' size o.count o.fits room o.ending in
      (
        result.1,
        runs ∙ ap (λ (r : ℤ). some (r, result.1)) value,
        record {
          passed = o.passed ∙ ap (λ (n : ℕ). sent w fd ++ take n data') all;
          quiet = o.quiet;
          left = left;
        },
      )
