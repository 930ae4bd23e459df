-- ===== src/Signal/Queued.antt =====
-- sem09-signals/snippets/realtime/sigqueue_demo.c: the parent, which sends signals with values, and the
-- child, which waits for them in `sigsuspend` and prints the last one. The child blocks no signal, so
-- a signal puts its handler before all that the child has still to do, other handlers among it.
use caos_seminars.Prelude.{ℕ, suc, ◌+◌, ◌*◌, leb, List, [], ◌∷◌, if◌then◌else◌}
pub mod Reported
pub mod Prompt

-- Where `main` of the child stands: before `sigsuspend`, in it, before it reads `last_signal` for the
-- `printf`, and, with what it has read, before it reads `last_value` and prints. `killed`: SIGTERM has
-- ended the child.
pub data Child : Type 0 where
  calling : Child
  waiting : Child
  woken : Child
  reading : (signal : ℕ) → Child
  killed : Child

pub record Line : Type 0 where
  pub signal : ℕ
  pub value : ℕ

-- A handler that has done nothing yet, or has set `last_signal` and not `last_value`.
pub data Frame : Type 0 where
  entered : (signal value : ℕ) → Frame
  signalled : (value : ℕ) → Frame

-- `i` is the parent's. `frames`: the handlers that have not returned, the inner ones first.
-- `printed`: the lines, the last one first.
pub record State : Type 0 where
  pub i : ℕ
  pub child : Child
  pub last_signal : ℕ
  pub last_value : ℕ
  pub frames : List Frame
  pub printed : List Line

abbrev pub wake : Child → Child
wake Child.waiting = Child.woken
wake c = c

-- `sigqueue(pid, i, …)` starts the handler, behind which `sigsuspend` returns.
unfoldable pub sigqueue : (signal value : ℕ) → State → State
sigqueue signal value s = record s {
  child = wake s.child;
  frames = Frame.entered signal value ∷ s.frames;
}

-- A round of the parent's loop, or `kill`. `sleep` says nothing of the order of the steps.
unfoldable pub step_parent : (sigrtmin : ℕ) → State → State
unfolding sigqueue
step_parent sigrtmin s =
    if leb s.i (sigrtmin + 5)
    then record (sigqueue s.i (s.i * s.i) s) { i = suc s.i }
    else record s { child = Child.killed; frames = [] }

unfoldable pub step_main : Child → State → State
step_main Child.calling s = record s { child = Child.waiting }
step_main Child.waiting s = s
step_main Child.woken s = record s { child = Child.reading s.last_signal }
step_main (Child.reading signal) s = record s {
  child = Child.calling;
  printed = record { signal = signal; value = s.last_value } ∷ s.printed;
}
step_main Child.killed s = s

-- A step of the child: of the innermost handler, and of `main` if there is none.
unfoldable pub step_child : List Frame → State → State
unfolding step_main
step_child [] s = step_main s.child s
step_child (Frame.entered signal value ∷ outer) s = record s {
  last_signal = signal;
  frames = Frame.signalled value ∷ outer;
}
step_child (Frame.signalled value ∷ outer) s = record s { last_value = value; frames = outer }

pub data Turn : Type 0 where
  turn_parent : Turn
  turn_child : Turn

unfoldable pub step : (sigrtmin : ℕ) → Turn → State → State
unfolding step_parent step_child
step sigrtmin Turn.turn_parent s = step_parent sigrtmin s
step sigrtmin Turn.turn_child s = step_child s.frames s

unfoldable pub run : (sigrtmin : ℕ) → List Turn → State → State
unfolding step
run sigrtmin [] s = s
run sigrtmin (turn ∷ turns) s = run sigrtmin turns (step sigrtmin turn s)

-- Parent and child after `fork`.
abbrev pub start : (sigrtmin : ℕ) → State
start sigrtmin = record {
  i = sigrtmin;
  child = Child.calling;
  last_signal = 0;
  last_value = 0;
  frames = [];
  printed = [];
}
