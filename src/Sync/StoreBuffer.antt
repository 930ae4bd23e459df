-- ===== src/Sync/StoreBuffer.antt =====
-- faulty/faulty.c and faulty/mutex.c: two threads that each write one variable and read the other's,
-- on a machine that delays writes. A thread's write waits in the store buffer of its processor
-- until it is flushed; a call on a mutex and the end of a thread wait for the flush.
-- `locking` tells the programs apart: false for faulty.c, true for mutex.c.
use caos_seminars.Prelude.{ℕ, Bool, true, false, List, [], ◌∷◌, ◌==◌, if◌then◌else◌}
pub mod Excluded
pub mod Phases
pub mod Safety

-- The next call or access of a thread.
pub data Thread : Type 0 where
  at_lock : Thread
  at_store : Thread
  at_load : Thread
  at_unlock : Thread
  at_end : Thread

pub data Main : Type 0 where
  clearing : Main
  creating_first : Main
  creating_second : Main
  joining_first : Main
  joining_second : Main
  checking : Main
  aborted : Main

-- What a thread changes by itself: where it stands, whether its write is in the buffer, whether
-- the mutex is held, and the variable `r1` or `r2`.
pub record View : Type 0 where
  pub at : Thread
  pub buffered : Bool
  pub locked : Bool
  pub kept : ℕ

pub record State : Type 0 where
  pub x : ℕ
  pub y : ℕ
  pub r1 : ℕ
  pub r2 : ℕ
  pub mutex : Bool
  pub first : Thread
  pub first_buffered : Bool
  pub second : Thread
  pub second_buffered : Bool
  pub main : Main

abbrev pub first_instr : (locking : Bool) → Thread
first_instr true = Thread.at_lock
first_instr false = Thread.at_store

abbrev pub after_load : (locking : Bool) → Thread
after_load true = Thread.at_unlock
after_load false = Thread.at_end

-- `write_x_read_y`, or `write_y_read_x`, with the variable `other` that it reads.
unfoldable pub advance :
    (locking : Bool) → Thread → (buffered locked : Bool) (other kept : ℕ) → View
advance locking Thread.at_lock false false other kept = record {
  at = Thread.at_store;
  buffered = false;
  locked = true;
  kept = kept;
}
advance locking Thread.at_lock false true other kept = record {
  at = Thread.at_lock;
  buffered = false;
  locked = true;
  kept = kept;
}
advance locking Thread.at_lock true locked other kept = record {
  at = Thread.at_lock;
  buffered = true;
  locked = locked;
  kept = kept;
}
advance locking Thread.at_store buffered locked other kept = record {
  at = Thread.at_load;
  buffered = true;
  locked = locked;
  kept = kept;
}
advance locking Thread.at_load buffered locked other kept = record {
  at = after_load locking;
  buffered = buffered;
  locked = locked;
  kept = other;
}
advance locking Thread.at_unlock true locked other kept = record {
  at = Thread.at_unlock;
  buffered = true;
  locked = locked;
  kept = kept;
}
advance locking Thread.at_unlock false locked other kept = record {
  at = Thread.at_end;
  buffered = false;
  locked = false;
  kept = kept;
}
advance locking Thread.at_end buffered locked other kept = record {
  at = Thread.at_end;
  buffered = buffered;
  locked = locked;
  kept = kept;
}

-- The processor writes the 1 that is in the buffer.
abbrev pub flushed : (buffered : Bool) (own : ℕ) → ℕ
flushed true own = 1
flushed false own = own

-- `pthread_join` waits for the end of a thread and of its write.
abbrev pub joined : Thread → (buffered : Bool) (before after : Main) → Main
joined Thread.at_end false before after = after
joined Thread.at_end true before after = before
joined Thread.at_lock buffered before after = before
joined Thread.at_store buffered before after = before
joined Thread.at_load buffered before after = before
joined Thread.at_unlock buffered before after = before

-- A step of `main`. No thread runs while it clears the variables, which is one step here.
unfoldable pub step_main : (locking : Bool) → Main → State → State
step_main locking Main.clearing s = record s {
  x = 0;
  y = 0;
  r1 = 0;
  r2 = 0;
  main = Main.creating_first;
}
step_main locking Main.creating_first s = record s {
  first = first_instr locking;
  main = Main.creating_second;
}
step_main locking Main.creating_second s = record s {
  second = first_instr locking;
  main = Main.joining_first;
}
step_main locking Main.joining_first s = record s {
  main = joined s.first s.first_buffered Main.joining_first Main.joining_second;
}
step_main locking Main.joining_second s = record s {
  main = joined s.second s.second_buffered Main.joining_second Main.checking;
}
step_main locking Main.checking s =
    let both = if s.r1 == 0 then s.r2 == 0 else false in
    record s { main = if both then Main.aborted else Main.clearing }
step_main locking Main.aborted s = s

pub data Turn : Type 0 where
  turn_main : Turn
  turn_first : Turn
  turn_second : Turn
  flush_first : Turn
  flush_second : Turn

unfoldable pub step : (locking : Bool) → Turn → State → State
step locking Turn.turn_main s = step_main locking s.main s
step locking Turn.turn_first s =
    let v = advance locking s.first s.first_buffered s.mutex s.y s.r1 in
    record s { first = v.at; first_buffered = v.buffered; mutex = v.locked; r1 = v.kept }
step locking Turn.turn_second s =
    let v = advance locking s.second s.second_buffered s.mutex s.x s.r2 in
    record s { second = v.at; second_buffered = v.buffered; mutex = v.locked; r2 = v.kept }
step locking Turn.flush_first s = record s {
  x = flushed s.first_buffered s.x;
  first_buffered = false;
}
step locking Turn.flush_second s = record s {
  y = flushed s.second_buffered s.y;
  second_buffered = false;
}

unfoldable pub run : (locking : Bool) → List Turn → State → State
run locking [] s = s
run locking (turn ∷ turns) s = run locking turns (step locking turn s)

abbrev pub start : State
start = record {
  x = 0;
  y = 0;
  r1 = 0;
  r2 = 0;
  mutex = false;
  first = Thread.at_end;
  first_buffered = false;
  second = Thread.at_end;
  second_buffered = false;
  main = Main.clearing;
}
