-- ===== src/Signal/Queued/Prompt.antt =====
-- What the child of sem09-signals/snippets/realtime/sigqueue_demo.c prints if it is given time.
use caos_seminars.Prelude.{
  ℕ, zero, suc, ◌+◌, ◌*◌, ◌≤◌, ◌≡◌, refl, ap, ◌∙◌, List, [], ◌∷◌, ◌++◌, length, replicate, arith,
  le→leb,
}
use caos_seminars.Signal.Queued.{
  Child, Frame, Line, State, Turn, sigqueue, step_parent, step_main, step_child, step, run, start,
}

-- The lines of `n` signals from `signal` on, each with its square, behind the `printed` ones. The
-- last line stands first.
abbrev pub announced : (n signal : ℕ) (printed : List Line) → List Line
announced zero signal printed = printed
announced (suc n) signal printed =
    announced n (suc signal) (record { signal = signal; value = signal * signal } ∷ printed)

abbrev pub at_least_five : (more : ℕ) → List Turn
at_least_five more =
    Turn.turn_child
    ∷ Turn.turn_child
    ∷ Turn.turn_child
    ∷ Turn.turn_child
    ∷ Turn.turn_child
    ∷ replicate more Turn.turn_child

-- Each round of the parent, and the steps that the child takes before the next one: five or more.
abbrev pub schedule : (gaps : List ℕ) → List Turn
schedule [] = []
schedule (gap ∷ gaps) = Turn.turn_parent ∷ (at_least_five gap ++ schedule gaps)

-- In `sigsuspend`, with no handler running.
abbrev quiet : (i last_signal last_value : ℕ) (printed : List Line) → State
quiet i last_signal last_value printed = record {
  i = i;
  child = Child.waiting;
  last_signal = last_signal;
  last_value = last_value;
  frames = [];
  printed = printed;
}

module _ (sigrtmin : ℕ) where
  -- In `sigsuspend` the child stays where it is.
  run-quiet :
      (n i signal value : ℕ) (printed : List Line) (turns : List Turn)
      → run sigrtmin (replicate n Turn.turn_child ++ turns) (quiet i signal value printed)
        ≡ run sigrtmin turns (quiet i signal value printed)
  unfolding run step step_child step_main
  run-quiet zero i signal value printed turns = refl
  run-quiet (suc n) i signal value printed turns = run-quiet n i signal value printed turns

  signals :
      (i signal value : ℕ) (printed : List Line)
      → i ≤ sigrtmin + 5
      → step_parent sigrtmin (quiet i signal value printed) ≡ record {
        i = suc i;
        child = Child.woken;
        last_signal = signal;
        last_value = value;
        frames = Frame.entered i (i * i) ∷ [];
        printed = printed;
      }
  unfolding step_parent sigqueue
  signals i signal value printed few = rw (le→leb i (sigrtmin + 5) few) refl

  -- A signal, and the steps of the child behind it.
  run-signal :
      (gap i signal value : ℕ) (printed : List Line) (turns : List Turn)
      → i ≤ sigrtmin + 5
      → run sigrtmin
          (Turn.turn_parent ∷ (at_least_five gap ++ turns))
          (quiet i signal value printed)
        ≡ run sigrtmin turns
            (quiet (suc i) i (i * i) (record { signal = i; value = i * i } ∷ printed))
  unfolding run step step_child step_main
  run-signal gap i signal value printed turns few =
      ap (λ s. run sigrtmin (at_least_five gap ++ turns) s) (signals i signal value printed few)
      ∙ run-quiet gap (suc i) i (i * i) _ turns

  run-signals :
      (gaps : List ℕ) (i signal value : ℕ) (printed : List Line)
      → i + length gaps ≤ sigrtmin + 6
      → (run sigrtmin (schedule gaps) (quiet i signal value printed)).printed
        ≡ announced (length gaps) i printed
  unfolding run
  run-signals [] i signal value printed few = refl
  run-signals (gap ∷ gaps) i signal value printed few =
      ap (λ (s : State). s.printed)
        (run-signal gap i signal value printed (schedule gaps) (omega (arith, few)))
      ∙ run-signals gaps (suc i) i (i * i) _ (omega (arith, few))

  -- If the child takes a step or more before the first signal, and five or more behind each, it has
  -- printed a line for each signal sent, at most six, in order, with the square of its number as its
  -- value.
  pub run-announced :
      (first : ℕ) (gaps : List ℕ)
      → length gaps ≤ 6
      → (run sigrtmin
          (Turn.turn_child ∷ (replicate first Turn.turn_child ++ schedule gaps))
          (start sigrtmin)).printed
        ≡ announced (length gaps) sigrtmin []
  unfolding run step step_child step_main
  run-announced first gaps few =
      ap (λ (s : State). s.printed) (run-quiet first sigrtmin 0 0 [] (schedule gaps))
      ∙ run-signals gaps sigrtmin 0 0 [] (omega (arith, few))
