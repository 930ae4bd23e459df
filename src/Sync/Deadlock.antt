-- ===== src/Sync/Deadlock.antt =====
-- mutex-problem/problem.c: two threads that take two mutexes in opposite orders.
use caos_seminars.Prelude.{Bool, true, false, Option, none, some, List, [], ◌∷◌}
pub mod Safety

-- Where a thread stands: before each of its four calls, and at its end.
pub data Thread : Type 0 where
  lock_outer : Thread
  lock_inner : Thread
  unlock_inner : Thread
  unlock_outer : Thread
  at_end : Thread

pub data Mutex : Type 0 where
  free : Mutex
  by_first : Mutex
  by_second : Mutex

pub record State : Type 0 where
  pub mutex1 : Mutex
  pub mutex2 : Mutex
  pub first : Thread
  pub second : Thread

-- `pthread_mutex_lock`, `none` as long as it waits.
abbrev pub lock : (mutex me : Mutex) → Option Mutex
lock Mutex.free me = some me
lock Mutex.by_first me = none
lock Mutex.by_second me = none

-- A thread, the mutex that it takes first and the other one.
abbrev pub Locks : Type 0
Locks = Thread × Mutex × Mutex

-- The next call of the thread `me`, `none` if it waits or is at its end.
unfoldable pub call : Thread → (me outer inner : Mutex) → Option Locks
call Thread.lock_outer me outer inner = elim (lock outer me) [
  | some outer' ↦ some (Thread.lock_inner, outer', inner)
  | none ↦ none
]
call Thread.lock_inner me outer inner = elim (lock inner me) [
  | some inner' ↦ some (Thread.unlock_inner, outer, inner')
  | none ↦ none
]
call Thread.unlock_inner me outer inner = some (Thread.unlock_outer, outer, Mutex.free)
call Thread.unlock_outer me outer inner = some (Thread.at_end, Mutex.free, inner)
call Thread.at_end me outer inner = none

abbrev pub first_moved : State → Option Locks → Option State
first_moved s (some (t, outer, inner)) =
    some (record s { first = t; mutex1 = outer; mutex2 = inner })
first_moved s none = none

abbrev pub second_moved : State → Option Locks → Option State
second_moved s (some (t, outer, inner)) =
    some (record s { second = t; mutex2 = outer; mutex1 = inner })
second_moved s none = none

-- `first` takes `mutex1` and then `mutex2`.
unfoldable pub step_first : State → Option State
step_first s = first_moved s (call s.first Mutex.by_first s.mutex1 s.mutex2)

-- `second` takes `mutex2` and then `mutex1`.
unfoldable pub step_second : State → Option State
step_second s = second_moved s (call s.second Mutex.by_second s.mutex2 s.mutex1)

pub data Turn : Type 0 where
  turn_first : Turn
  turn_second : Turn

abbrev pub step : Turn → State → Option State
step Turn.turn_first s = step_first s
step Turn.turn_second s = step_second s

-- A schedule; the turn of a thread that waits or is at its end changes nothing.
unfoldable pub run : List Turn → State → State
run [] s = s
run (turn ∷ turns) s = elim (step turn s) [ some s' ↦ run turns s' | none ↦ run turns s ]

-- One iteration of `main`, after both threads are created.
abbrev pub start : State
start = record {
  mutex1 = Mutex.free;
  mutex2 = Mutex.free;
  first = Thread.lock_outer;
  second = Thread.lock_outer;
}
