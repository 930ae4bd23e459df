-- ===== src/Signal/Suspended.antt =====
-- sem09-signals/snippets/masks/sigsuspend_demo.c and sigaction/sigaction_demo.c: the handler of SIGINT
-- and the loop of `main`, which waits in `sigsuspend` or in `pause`. Both return when the handler
-- has run, and neither program blocks SIGINT while it does not wait.
use caos_seminars.Prelude.{ℕ, suc, Bool, true, false, List, [], ◌∷◌, if◌then◌else◌}
pub mod Missed

-- Where `main` stands: before the call that waits, in it, before the test of the flag, before the
-- `printf`, before the assignment.
pub data Main : Type 0 where
  calling : Main
  waiting : Main
  testing : Main
  printing : Main
  clearing : Main

-- `handled` and `printed` count the runs of the handler and the lines printed.
pub record State : Type 0 where
  pub main : Main
  pub received_sigint : Bool
  pub handled : ℕ
  pub printed : ℕ

unfoldable pub sigint_handler : State → State
sigint_handler s = record s { received_sigint = true; handled = suc s.handled }

-- The call that waits returns after the handler; anything else goes on where it was.
abbrev pub woken : Main → Main
woken Main.waiting = Main.testing
woken m = m

-- A SIGINT runs the handler at once.
unfoldable pub send : State → State
unfolding sigint_handler
send s = record (sigint_handler s) { main = woken s.main }

unfoldable pub step_main : Main → State → State
step_main Main.calling s = record s { main = Main.waiting }
step_main Main.waiting s = s
step_main Main.testing s = record s {
  main = if s.received_sigint then Main.printing else Main.calling;
}
step_main Main.printing s = record s { printed = suc s.printed; main = Main.clearing }
step_main Main.clearing s = record s { received_sigint = false; main = Main.calling }

pub data Turn : Type 0 where
  turn_main : Turn
  turn_signal : Turn

unfoldable pub step : Turn → State → State
unfolding step_main send
step Turn.turn_main s = step_main s.main s
step Turn.turn_signal s = send s

unfoldable pub run : List Turn → State → State
unfolding step
run [] s = s
run (turn ∷ turns) s = run turns (step turn s)

-- `main` at the start of its loop.
abbrev pub start : State
start = record { main = Main.calling; received_sigint = false; handled = 0; printed = 0 }
