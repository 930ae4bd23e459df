-- ===== src/Tests/LockFreeTests.antt =====
-- lock-free/stack.c with two values: the second node gets the address of the first, which was freed.
use caos_seminars.Prelude.{
  ℕ, ◌≡◌, refl, true, false, List, [], ◌∷◌, ◌++◌, replicate, ltb, ◌==◌, if◌then◌else◌, arith, some,
}
use caos_seminars.Sync.LockFree.{
  Heap, Outcome, Pusher, Popper, State, Turn, producer, consumer, step, run, start, stack_destroy,
}
use caos_seminars.Sync.LockFree.Chain.{Cell, count}
use caos_seminars.Sync.LockFree.Once.{Safe, run-Safe, run-all_printed}
use caos_seminars.Sync.LockFree.Destroy.{Destroyed, stack_destroy-Destroyed}

-- The compare-and-swap of the producer fails once.
abbrev turns : List Turn
turns =
    replicate 3 (Turn.turn_producer 1 false)
    ++ (Turn.turn_producer 1 true
        ∷ (replicate 3 (Turn.turn_producer 1 false)
            ++ (replicate 5 (Turn.turn_consumer false)
                ++ (replicate 4 (Turn.turn_producer 1 false)
                    ++ replicate 5 (Turn.turn_consumer false)))))

run-Safe_example : Safe 2 turns (run 2 turns start)
run-Safe_example = run-Safe 2 turns

abbrev result : Outcome State → State
result (Outcome.done s) = s
result Outcome.fault = start
result Outcome.undefined = start

abbrev last : State
last = result (run 2 turns start)

turns_done : run 2 turns start ≡ Outcome.done last
unfolding run step producer consumer
turns_done = refl

pusher_done : last.pusher ≡ Pusher.at_malloc 2
unfolding run step producer consumer
pusher_done = refl

popper_done : last.popper ≡ Popper.at_load 2
unfolding run step producer consumer
popper_done = refl

run-all_printed_example :
    (last.shared.top ≡ 0) × ((v : ℕ) → count v last.shared.printed ≡ (if ltb v 2 then 1 else 0))
run-all_printed_example = run-all_printed 2 turns last turns_done pusher_done popper_done

-- The consumer that goes first pops the empty stack.
empty_pop : run 2 (Turn.turn_consumer false ∷ turns) start ≡ Outcome.undefined
unfolding run step consumer
empty_pop = refl

abbrev two_nodes : Heap
two_nodes a =
    if a == 4
    then some (record { payload = 7; prev = 9 })
    else if a == 9
    then some (record { payload = 8; prev = 0 })
    else some (record { payload = a; prev = 0 })

abbrev two_cells : List Cell
two_cells = (4, 7) ∷ ((9, 8) ∷ [])

stack_destroy-Destroyed_example : Destroyed two_nodes two_cells (stack_destroy 2 two_nodes 4)
stack_destroy-Destroyed_example =
    stack_destroy-Destroyed 2 two_nodes 4 two_cells
      (refl, (λ e. omega (arith, e)), (9, refl, (refl, (λ e. omega (arith, e)), (0, refl, refl))))
      (((λ e. omega (arith, e)), tt), (tt, tt)) (omega arith)
