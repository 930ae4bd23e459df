-- ===== src/Signal/Masked.antt =====
-- sem09-signals/snippets/masks/sigprocmask_demo.c: the handler of SIGINT and the loop of `main`, which
-- blocks the signal while it sleeps. A schedule is the order of the steps of `main` and of the
-- signals that others send.
use caos_seminars.Prelude.{ℕ, suc, Bool, true, false, List, [], ◌∷◌, if◌then◌else◌}
pub mod Announced

-- Where `main` stands: before a call of `sigprocmask` or `sleep`, before the test of the flag,
-- before the `printf`, before the assignment.
pub data Main : Type 0 where
  blocking : Main
  sleeping : Main
  unblocking : Main
  testing : Main
  printing : Main
  clearing : Main

-- `pending`: a SIGINT was sent while it was blocked; the system keeps one. `sent`, `handled` and
-- `printed` count the signals, the runs of the handler and the lines printed.
pub record State : Type 0 where
  pub main : Main
  pub blocked : Bool
  pub pending : Bool
  pub received_sigint : Bool
  pub sent : ℕ
  pub handled : ℕ
  pub printed : ℕ

unfoldable pub sigint_handler : State → State
sigint_handler s = record s { received_sigint = true; handled = suc s.handled }

-- A SIGINT that is sent to the process runs the handler at once, or waits.
unfoldable pub send : State → State
unfolding sigint_handler
send s =
    let t = record s { sent = suc s.sent } in
    if s.blocked then record t { pending = true } else sigint_handler t

-- `sigprocmask(SIG_UNBLOCK, …)` lets a signal that waits run the handler before it returns.
unfoldable pub unblock : State → State
unfolding sigint_handler
unblock s =
    let t = record s { blocked = false; pending = false } in
    if s.pending then sigint_handler t else t

unfoldable pub step_main : Main → State → State
unfolding unblock
step_main Main.blocking s = record s { blocked = true; main = Main.sleeping }
step_main Main.sleeping s = record s { main = Main.unblocking }
step_main Main.unblocking s = record (unblock s) { main = Main.testing }
step_main Main.testing s = record s {
  main = if s.received_sigint then Main.printing else Main.blocking;
}
step_main Main.printing s = record s { printed = suc s.printed; main = Main.clearing }
step_main Main.clearing s = record s { received_sigint = false; main = Main.blocking }

pub data Turn : Type 0 where
  turn_main : Turn
  turn_signal : Turn

unfoldable pub step : Turn → State → State
unfolding step_main send
step Turn.turn_main s = step_main s.main s
step Turn.turn_signal s = send s

unfoldable pub run : List Turn → State → State
unfolding step
run [] s = s
run (turn ∷ turns) s = run turns (step turn s)

-- `main` at the start of its loop.
abbrev pub start : State
start = record {
  main = Main.blocking;
  blocked = false;
  pending = false;
  received_sigint = false;
  sent = 0;
  handled = 0;
  printed = 0;
}
