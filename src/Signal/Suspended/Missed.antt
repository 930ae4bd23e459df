-- ===== src/Signal/Suspended/Missed.antt =====
-- Which signals sem09-signals/snippets/masks/sigsuspend_demo.c and sigaction/sigaction_demo.c miss.
use caos_seminars.Prelude.{ℕ, zero, suc, ◌≡◌, refl, ◌∙◌, List, ◌∷◌, replicate, arith}
use caos_seminars.Signal.Suspended.{Main, State, Turn, send, step_main, step, run, start}

-- `main` is between the `printf` and the call that waits.
abbrev pub InGap : Main → Type 0
InGap Main.clearing = Unit
InGap Main.calling = Unit
InGap _ = ⊥

-- ... or in that call.
abbrev Idle : Main → Type 0
Idle Main.clearing = Unit
Idle Main.calling = Unit
Idle Main.waiting = Unit
Idle _ = ⊥

step_main-Idle :
    (m : Main) (s : State)
    → s.main ≡ m
    → Idle m
    → Idle (step_main m s).main
      × ((step_main m s).printed ≡ s.printed)
      × ((step_main m s).handled ≡ s.handled)
unfolding step_main
step_main-Idle m s e h = ground arith

run-Idle :
    (n : ℕ) (s : State)
    → Idle s.main
    → let s' = run (replicate n Turn.turn_main) s in
      (s'.printed ≡ s.printed) × (s'.handled ≡ s.handled)
unfolding run step
run-Idle zero s h = (refl, refl)
run-Idle (suc n) s h =
    let (idle, printed, handled) = step_main-Idle s.main s refl h in
    let (printed', handled') = run-Idle n (step_main s.main s) idle in
    (printed' ∙ printed, handled' ∙ handled)

send-InGap :
    (s : State)
    → InGap s.main
    → Idle (send s).main × ((send s).printed ≡ s.printed) × ((send s).handled ≡ suc s.handled)
unfolding send
send-InGap s h = ground arith

-- A signal that comes between the `printf` and the next call that waits runs the handler, and
-- `main` prints nothing more, however long it runs on with no other signal.
pub run-misses :
    (before : List Turn) (n : ℕ)
    → InGap (run before start).main
    → let s = run before start in
      let s' = run (Turn.turn_signal ∷ replicate n Turn.turn_main) s in
      (s'.handled ≡ suc s.handled) × (s'.printed ≡ s.printed)
unfolding run step
run-misses before n h =
    let (idle, printed, handled) = send-InGap (run before start) h in
    let (printed', handled') = run-Idle n (send (run before start)) idle in
    (handled' ∙ handled, printed' ∙ printed)
