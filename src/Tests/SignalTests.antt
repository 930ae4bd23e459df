-- ===== src/Tests/SignalTests.antt =====
-- The programs of sem09-signals on concrete schedules.
use caos_seminars.Prelude.{
  suc, ◌≤◌, ◌<◌, ◌≡◌, refl, ◌+◌, ◌*◌, ◌++◌, length, List, [], ◌∷◌, arith, replicate,
}
use caos_seminars.Signal.Masked
use caos_seminars.Signal.Masked.Announced.{run-announces}
use caos_seminars.Signal.Queued
use caos_seminars.Signal.Queued.Reported.{AllReported, run-AllReported}
use caos_seminars.Signal.Queued.Prompt.{announced, schedule, run-announced}
use caos_seminars.Signal.Suspended
use caos_seminars.Signal.Suspended.Missed.{run-misses}

-- `main` blocks the signal and sleeps.
abbrev asleep : List Masked.Turn
asleep = Masked.Turn.turn_main ∷ []

-- Another signal comes while `main` goes on.
abbrev later : List Masked.Turn
later =
    Masked.Turn.turn_main ∷ Masked.Turn.turn_signal ∷ Masked.Turn.turn_main ∷ Masked.Turn.turn_main
    ∷ Masked.Turn.turn_main ∷ []

run-announces_example :
    let s = Masked.run asleep Masked.start in
    let s' = Masked.run (Masked.Turn.turn_signal ∷ later) s in
    ((Masked.step Masked.Turn.turn_signal s).handled ≡ s.handled)
    × (s.printed < s'.printed)
    × (s'.printed ≤ s'.handled)
    × (s'.handled ≤ s'.sent)
unfolding Masked.run
run-announces_example = run-announces asleep later tt (omega arith)

-- The program waits, is woken, prints, and is about to clear the flag.
abbrev printed_once : List Suspended.Turn
printed_once =
    Suspended.Turn.turn_main ∷ Suspended.Turn.turn_signal ∷ Suspended.Turn.turn_main
    ∷ Suspended.Turn.turn_main ∷ []

run-misses_example :
    let s = Suspended.run printed_once Suspended.start in
    let s' = Suspended.run (Suspended.Turn.turn_signal ∷ replicate 9 Suspended.Turn.turn_main) s in
    (s'.handled ≡ suc s.handled) × (s'.printed ≡ s.printed)
unfolding Suspended.run
run-misses_example = run-misses printed_once 9 tt

-- The child prints while the second signal comes: with the number of the first, the value of the second.
abbrev overtaken : List Queued.Turn
overtaken =
    Queued.Turn.turn_child ∷ Queued.Turn.turn_parent ∷ Queued.Turn.turn_child
    ∷ Queued.Turn.turn_child ∷ Queued.Turn.turn_child ∷ Queued.Turn.turn_parent
    ∷ Queued.Turn.turn_child ∷ Queued.Turn.turn_child ∷ Queued.Turn.turn_child ∷ []

overtaken_prints :
    (Queued.run 34 overtaken (Queued.start 34)).printed
    ≡ record { signal = 34; value = 35 * 35 } ∷ []
unfolding Queued.run Queued.step Queued.step_parent Queued.sigqueue Queued.step_child
    Queued.step_main
overtaken_prints = refl

run-AllReported_example :
    let s = Queued.run 34 overtaken (Queued.start 34) in
    (34 + length s.printed ≤ s.i) × (s.i ≤ 34 + 6) × AllReported 34 s.i s.printed
run-AllReported_example = run-AllReported 34 overtaken

run-announced_example :
    (Queued.run 34
      (Queued.Turn.turn_child ∷ (replicate 2 Queued.Turn.turn_child ++ schedule (0 ∷ 3 ∷ 1 ∷ [])))
      (Queued.start 34)).printed
    ≡ announced 3 34 []
run-announced_example = run-announced 34 2 (0 ∷ 3 ∷ 1 ∷ []) (omega arith)
