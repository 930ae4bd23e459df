-- ===== src/Sync/Condvar.antt =====
-- condvar/condvar.c: threads that work, count themselves under a mutex and signal a condition
-- variable, and `main`, which waits until all have. `pthread_create` has run for each thread.
-- The source has 20 for `n`.
use caos_seminars.Prelude.{
  ℕ, zero, suc, ◌-◌, Bool, true, false, List, [], ◌∷◌, Option, none, some, ltb, replicate,
  if◌then◌else◌,
}
pub mod Counts
pub mod Progress

-- Where a thread stands: with `left` rounds of work to do, then before each of its calls.
pub data Worker : Type 0 where
  working : (left : ℕ) → Worker
  at_lock : Worker
  at_increment : Worker
  at_signal : Worker
  at_unlock : Worker
  at_end : Worker

-- Where `main` stands: `waiting` is asleep in `pthread_cond_wait`, which has released the mutex, and
-- `woken` is still in the call and has to take it again.
pub data Main : Type 0 where
  at_lock : Main
  at_test : Main
  waiting : Main
  woken : Main
  at_unlock : Main
  at_end : Main

pub record Shared : Type 0 where
  pub locked : Bool
  pub done : ℕ
  pub main : Main

abbrev pub workloops : ℕ
workloops = 5

-- `pthread_cond_signal`
abbrev pub signalled : Main → Main
signalled Main.waiting = Main.woken
signalled Main.at_lock = Main.at_lock
signalled Main.at_test = Main.at_test
signalled Main.woken = Main.woken
signalled Main.at_unlock = Main.at_unlock
signalled Main.at_end = Main.at_end

-- The next step of `thread_entry`; `none` if it waits for the mutex or is at its end.
unfoldable pub thread_entry : Worker → Shared → Option (Worker × Shared)
thread_entry (Worker.working zero) s = some (Worker.at_lock, s)
thread_entry (Worker.working (suc left)) s = some (Worker.working left, s)
thread_entry Worker.at_lock s =
    if s.locked then none else some (Worker.at_increment, record s { locked = true })
thread_entry Worker.at_increment s = some (Worker.at_signal, record s { done = suc s.done })
thread_entry Worker.at_signal s = some (Worker.at_unlock, record s { main = signalled s.main })
thread_entry Worker.at_unlock s = some (Worker.at_end, record s { locked = false })
thread_entry Worker.at_end s = none

-- The next step of `main`.
unfoldable pub step_main : (n : ℕ) → Main → Shared → Option Shared
step_main n Main.at_lock s =
    if s.locked then none else some (record s { locked = true; main = Main.at_test })
step_main n Main.at_test s = some (
    if ltb s.done n
    then record s { locked = false; main = Main.waiting }
    else record s { main = Main.at_unlock })
step_main n Main.waiting s = none
step_main n Main.woken s =
    if s.locked then none else some (record s { locked = true; main = Main.at_test })
step_main n Main.at_unlock s = some (record s { locked = false; main = Main.at_end })
step_main n Main.at_end s = none

pub record State : Type 0 where
  pub workers : List Worker
  pub shared : Shared

-- The step of the thread number `t`.
unfoldable pub step_worker : (t : ℕ) → List Worker → Shared → Option (List Worker × Shared)
step_worker t [] s = none
step_worker zero (w ∷ ws) s = elim (thread_entry w s) [
  | some (w', s') ↦ some (w' ∷ ws, s')
  | none ↦ none
]
step_worker (suc t) (w ∷ ws) s = elim (step_worker t ws s) [
  | some (ws', s') ↦ some (w ∷ ws', s')
  | none ↦ none
]

-- `turn_wake` wakes `main` with no signal, which POSIX allows.
pub data Turn : Type 0 where
  turn_main : Turn
  turn_worker : (t : ℕ) → Turn
  turn_wake : Turn

unfoldable pub step : (n : ℕ) → Turn → State → Option State
step n Turn.turn_main s = elim (step_main n s.shared.main s.shared) [
  | some shared ↦ some (record s { shared = shared })
  | none ↦ none
]
step n (Turn.turn_worker t) s = elim (step_worker t s.workers s.shared) [
  | some (workers, shared) ↦ some (record { workers = workers; shared = shared })
  | none ↦ none
]
step n Turn.turn_wake s =
    some (record s { shared = record s.shared { main = signalled s.shared.main } })

-- A schedule; the turn of a thread that cannot go on changes nothing.
unfoldable pub run : (n : ℕ) → List Turn → State → State
run n [] s = s
run n (turn ∷ turns) s = elim (step n turn s) [ some s' ↦ run n turns s' | none ↦ run n turns s ]

abbrev pub start : (n : ℕ) → State
start n = record {
  workers = replicate n (Worker.working workloops);
  shared = record { locked = false; done = 0; main = Main.at_lock };
}
