-- ===== src/Tests/CondvarTests.antt =====
-- condvar.c with one thread: `main` falls asleep first and is woken by the signal.
use caos_seminars.Prelude.{ℕ, zero, suc, ◌≡◌, refl, none, List, [], ◌∷◌, ◌++◌, replicate}
use caos_seminars.Sync.Condvar.{Main, Turn, thread_entry, step_main, step_worker, step, run, start}
use caos_seminars.Sync.Condvar.Counts.{IsPast}
use caos_seminars.Sync.Condvar.Progress.{Stuck, run-Progress, run-IsPast}

abbrev turns : List Turn
turns =
    Turn.turn_main
    ∷ (Turn.turn_main
        ∷ (replicate 10 (Turn.turn_worker 0)
            ++ (Turn.turn_main ∷ (Turn.turn_main ∷ (Turn.turn_main ∷ [])))))

workers_wait : (t : ℕ) → step 1 (Turn.turn_worker t) (run 1 turns (start 1)) ≡ none
unfolding run step step_main step_worker thread_entry
workers_wait zero = refl
workers_wait (suc t) = refl

turns-Stuck : Stuck 1 (run 1 turns (start 1))
unfolding run step step_main step_worker thread_entry
turns-Stuck = (refl, workers_wait)

run-Progress_example :
    ((run 1 turns (start 1)).shared.main ≡ Main.at_end) × ((run 1 turns (start 1)).shared.done ≡ 1)
run-Progress_example = run-Progress 1 turns turns-Stuck

turns-IsPast : IsPast (run 1 turns (start 1)).shared.main
unfolding run step step_main step_worker thread_entry
turns-IsPast = tt

run-IsPast_example : (run 1 turns (start 1)).shared.done ≡ 1
run-IsPast_example = run-IsPast 1 turns turns-IsPast
