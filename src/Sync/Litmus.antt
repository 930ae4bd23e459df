-- ===== src/Sync/Litmus.antt =====
-- faulty/atomic.c: two threads that each write one variable and read the other's. The accesses
-- are of `_Atomic` variables, so each is one step, and the steps of all threads have one order.
use caos_seminars.Prelude.{ℕ, Bool, true, false, List, [], ◌∷◌, ◌==◌, if◌then◌else◌}
pub mod Safety

-- Where a thread stands: before its write, before the read, before it keeps the value that it has
-- read in `r1` or `r2`, and at its end.
pub data Thread : Type 0 where
  at_store : Thread
  at_load : Thread
  at_keep : (value : ℕ) → Thread
  at_end : Thread

-- Where `main` stands.
pub data Main : Type 0 where
  clearing : Main
  creating_first : Main
  creating_second : Main
  joining_first : Main
  joining_second : Main
  checking : Main
  aborted : Main

pub record State : Type 0 where
  pub x : ℕ
  pub y : ℕ
  pub r1 : ℕ
  pub r2 : ℕ
  pub first : Thread
  pub second : Thread
  pub main : Main

-- A step of `write_x_read_y`, or of `write_y_read_x`: from the variable that the thread writes, the
-- one that it reads and the one that keeps the value, to the new ones.
unfoldable pub advance : Thread → (own other kept : ℕ) → Thread × ℕ × ℕ
advance Thread.at_store own other kept = (Thread.at_load, 1, kept)
advance Thread.at_load own other kept = (Thread.at_keep other, own, kept)
advance (Thread.at_keep value) own other kept = (Thread.at_end, own, value)
advance Thread.at_end own other kept = (Thread.at_end, own, kept)

-- `pthread_join` waits for the end of a thread.
abbrev pub joined : Thread → (before after : Main) → Main
joined Thread.at_store before after = before
joined Thread.at_load before after = before
joined (Thread.at_keep _) before after = before
joined Thread.at_end before after = after

-- A step of `main`. No thread runs while it clears the variables, which is one step here.
unfoldable pub step_main : Main → State → State
step_main Main.clearing s = record s { x = 0; y = 0; r1 = 0; r2 = 0; main = Main.creating_first }
step_main Main.creating_first s = record s { first = Thread.at_store; main = Main.creating_second }
step_main Main.creating_second s = record s { second = Thread.at_store; main = Main.joining_first }
step_main Main.joining_first s = record s {
  main = joined s.first Main.joining_first Main.joining_second;
}
step_main Main.joining_second s = record s {
  main = joined s.second Main.joining_second Main.checking;
}
step_main Main.checking s =
    let both = if s.r1 == 0 then s.r2 == 0 else false in
    record s { main = if both then Main.aborted else Main.clearing }
step_main Main.aborted s = s

-- Who takes the next step.
pub data Turn : Type 0 where
  turn_main : Turn
  turn_first : Turn
  turn_second : Turn

unfoldable pub step : Turn → State → State
step Turn.turn_main s = step_main s.main s
step Turn.turn_first s =
    let (t, x, r1) = advance s.first s.x s.y s.r1 in record s { first = t; x = x; r1 = r1 }
step Turn.turn_second s =
    let (t, y, r2) = advance s.second s.y s.x s.r2 in record s { second = t; y = y; r2 = r2 }

unfoldable pub run : List Turn → State → State
run [] s = s
run (turn ∷ turns) s = run turns (step turn s)

abbrev pub start : State
start = record {
  x = 0;
  y = 0;
  r1 = 0;
  r2 = 0;
  first = Thread.at_end;
  second = Thread.at_end;
  main = Main.clearing;
}
