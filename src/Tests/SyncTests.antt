-- ===== src/Tests/SyncTests.antt =====
-- The threads of sem08-pthread-sync on concrete schedules.
use caos_seminars.Prelude.{true, false, ℕ, ◌*◌, ◌≤◌, ◌⊎◌, ◌≡◌, ◌≢◌, refl, List, [], ◌∷◌, arith}
use caos_seminars.Sync.Deadlock
use caos_seminars.Sync.Deadlock.Safety.{Stuck, ended, deadlock, run-ended_or_deadlock}
use caos_seminars.Sync.Counter
use caos_seminars.Sync.Counter.Total.{AllJoined, counter_total}
use caos_seminars.Sync.Racing
use caos_seminars.Sync.Racing.Bounds.{run-IsBounded}
use caos_seminars.Sync.Racing.Lost.{losing, in_turn, Ends, run-Ends}
use caos_seminars.Sync.StoreBuffer
use caos_seminars.Sync.StoreBuffer.Safety.{never_aborted_locked}
use caos_seminars.Sync.Litmus.{Main, Turn, step, step_main, advance, run, start}
use caos_seminars.Sync.Litmus.Safety.{never_aborted}

-- Both threads write before either reads; then `main` checks.
abbrev turns : List Turn
turns =
    Turn.turn_main ∷ Turn.turn_main ∷ Turn.turn_main ∷ Turn.turn_first ∷ Turn.turn_second
    ∷ Turn.turn_first ∷ Turn.turn_second ∷ Turn.turn_first ∷ Turn.turn_second ∷ Turn.turn_main
    ∷ Turn.turn_main ∷ Turn.turn_main ∷ []

run-turns : run turns start ≡ record start { x = 1; y = 1; r1 = 1; r2 = 1 }
unfolding run step step_main advance
run-turns = refl

never_aborted_example : (run turns start).main ≢ Main.aborted
never_aborted_example = never_aborted turns

-- Each thread of problem.c takes its first mutex; then neither can go on.
abbrev crossed : List Deadlock.Turn
crossed = Deadlock.Turn.turn_first ∷ Deadlock.Turn.turn_second ∷ []

crossed_deadlocks : Deadlock.run crossed Deadlock.start ≡ deadlock
unfolding Deadlock.run Deadlock.step_first Deadlock.step_second Deadlock.call
crossed_deadlocks = refl

crossed-Stuck : Stuck (Deadlock.run crossed Deadlock.start)
unfolding Deadlock.run Deadlock.step_first Deadlock.step_second Deadlock.call
crossed-Stuck = (refl, refl)

run-ended_or_deadlock_example :
    (Deadlock.run crossed Deadlock.start ≡ ended) ⊎ (Deadlock.run crossed Deadlock.start ≡ deadlock)
run-ended_or_deadlock_example = run-ended_or_deadlock crossed crossed-Stuck

-- Two threads of two rounds each.
abbrev rounds : List ℕ
rounds = 0 ∷ 1 ∷ 1 ∷ 0 ∷ []

rounds-AllJoined : AllJoined 2 (Counter.run 2 rounds (Counter.start 2)).indexes
unfolding Counter.run Counter.thread_func
rounds-AllJoined = (refl, (refl, tt))

counted_total : (Counter.run 2 rounds (Counter.start 2)).shared_counter ≡ 2 * 2
counted_total = counter_total 2 2 rounds rounds-AllJoined

-- Without the mutex the two writes wait in the store buffers, and both threads read 0.
abbrev delayed : List StoreBuffer.Turn
delayed =
    StoreBuffer.Turn.turn_main ∷ StoreBuffer.Turn.turn_main ∷ StoreBuffer.Turn.turn_main
    ∷ StoreBuffer.Turn.turn_first ∷ StoreBuffer.Turn.turn_second ∷ StoreBuffer.Turn.turn_first
    ∷ StoreBuffer.Turn.turn_second ∷ StoreBuffer.Turn.flush_first ∷ StoreBuffer.Turn.flush_second
    ∷ StoreBuffer.Turn.turn_main ∷ StoreBuffer.Turn.turn_main ∷ StoreBuffer.Turn.turn_main ∷ []

delayed_aborts : (StoreBuffer.run false delayed StoreBuffer.start).main ≡ StoreBuffer.Main.aborted
unfolding StoreBuffer.run StoreBuffer.step StoreBuffer.step_main StoreBuffer.advance
delayed_aborts = refl

never_aborted_locked_example :
    (StoreBuffer.run true delayed StoreBuffer.start).main ≢ StoreBuffer.Main.aborted
never_aborted_locked_example = never_aborted_locked delayed

-- Two threads of no-sync.c of two rounds each, of whose four increments two are lost.
losing-AllJoined : Racing.AllJoined 2 (Racing.run 2 (losing 0 0) (Racing.start 2)).threads
unfolding Racing.run Racing.step Racing.thread_func
losing-AllJoined = (refl, (refl, tt))

run-IsBounded_example :
    (2 ≤ (Racing.run 2 (losing 0 0) (Racing.start 2)).shared_counter)
    × ((Racing.run 2 (losing 0 0) (Racing.start 2)).shared_counter ≤ 2 * 2)
run-IsBounded_example = run-IsBounded 2 2 (losing 0 0) (omega arith) (omega arith) losing-AllJoined

run-Ends_example :
    Ends 3 (Racing.run 3 (losing 2 1) (Racing.start 4)) 2
    × Ends 3 (Racing.run 3 (in_turn 4 3) (Racing.start 4)) (4 * 3)
run-Ends_example = run-Ends 2 1
