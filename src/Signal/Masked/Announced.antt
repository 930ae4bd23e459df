-- ===== src/Signal/Masked/Announced.antt =====
-- Which signals sem09-signals/snippets/masks/sigprocmask_demo.c announces.
use caos_seminars.Prelude.{
  ℕ, suc, ◌+◌, ◌≤◌, ◌<◌, ◌≡◌, refl, ◌∙◌, ◌⊎◌, inl, inr, Bool, true, false, List, [], ◌∷◌, arith,
}
use caos_seminars.Signal.Masked.{Main, State, Turn, send, step_main, step, run, start}

-- `main` sleeps, or is about to unblock the signal.
abbrev pub Sleeps : Main → Type 0
Sleeps Main.sleeping = Unit
Sleeps Main.unblocking = Unit
Sleeps _ = ⊥

-- Whether `main` is between the test of the flag and the `printf`: the flag is then set.
abbrev Past : Main → Bool → Type 0
Past Main.printing flag = flag ≡ true
Past Main.clearing flag = flag ≡ true
Past _ flag = Unit

abbrev one_if : Bool → ℕ
one_if true = 1
one_if false = 0

-- A flag that no line has been printed for.
abbrev owed : Main → Bool → ℕ
owed Main.clearing flag = 0
owed _ flag = one_if flag

abbrev asleep : Main → Bool
asleep Main.sleeping = true
asleep Main.unblocking = true
asleep _ = false

record Inv (s : State) : Type 0 where
  masked : s.blocked ≡ asleep s.main
  unmasked : s.blocked ≡ false → s.pending ≡ false
  past : Past s.main s.received_sigint
  lines : s.printed + owed s.main s.received_sigint ≤ s.handled
  runs : s.handled + one_if s.pending ≤ s.sent

step_main-Inv : (m : Main) (s : State) → s.main ≡ m → Inv s → Inv (step_main m s)
unfolding step_main
step_main-Inv Main.blocking s e h = ground (arith, h)
step_main-Inv Main.sleeping s e h = ground (arith, h)
step_main-Inv Main.unblocking s e h = ground (arith, h)
step_main-Inv Main.testing s e h = ground (arith, h)
step_main-Inv Main.printing s e h = ground (arith, h)
step_main-Inv Main.clearing s e h = ground (arith, h)

send-Inv : (s : State) → Inv s → Inv (send s)
unfolding send
send-Inv s h = ground (arith, h)

step-Inv : (t : Turn) (s : State) → Inv s → Inv (step t s)
unfolding step
step-Inv Turn.turn_main s h = step_main-Inv s.main s refl h
step-Inv Turn.turn_signal s h = send-Inv s h

run-Inv : (ts : List Turn) (s : State) → Inv s → Inv (run ts s)
unfolding run
run-Inv [] s h = h
run-Inv (t ∷ ts) s h = run-Inv ts (step t s) (step-Inv t s h)

start-Inv : Inv start
start-Inv = ground arith

-- A line is due after `rank` steps of `main`.
abbrev IsDue : State → Main → Type 0
IsDue s Main.sleeping = (s.blocked ≡ true) × (s.pending ≡ true)
IsDue s Main.unblocking = (s.blocked ≡ true) × (s.pending ≡ true)
IsDue s Main.testing = s.received_sigint ≡ true
IsDue s Main.printing = Unit
IsDue s _ = ⊥

abbrev rank : Main → ℕ
rank Main.sleeping = 4
rank Main.unblocking = 3
rank Main.testing = 2
rank _ = 1

send-IsDue : (m : Main) (s : State) → IsDue s m → IsDue (send s) m
unfolding send
send-IsDue Main.sleeping s h = ground arith
send-IsDue Main.unblocking s h = ground arith
send-IsDue Main.testing s h = ground arith
send-IsDue Main.printing s h = tt
send-IsDue Main.blocking s h = h
send-IsDue Main.clearing s h = h

send-same : (s : State) → ((send s).main ≡ s.main) × ((send s).printed ≡ s.printed)
unfolding send
send-same s = ground arith

-- A step of `main` prints the line, or leaves it due one step sooner.
step_main-IsDue :
    (m : Main) (s : State)
    → IsDue s m
    → (s.printed < (step_main m s).printed)
      ⊎ (IsDue (step_main m s) (step_main m s).main
          × (rank (step_main m s).main < rank m)
          × ((step_main m s).printed ≡ s.printed))
unfolding step_main
step_main-IsDue Main.sleeping s h = inr (ground arith, omega arith, refl)
step_main-IsDue Main.unblocking s h = inr (ground arith, omega arith, ground arith)
step_main-IsDue Main.testing s h = inr (ground arith, ground arith, refl)
step_main-IsDue Main.printing s h = inl (omega arith)
step_main-IsDue Main.blocking s h = absurd h
step_main-IsDue Main.clearing s h = absurd h

step_main-printed : (m : Main) (s : State) → s.printed ≤ (step_main m s).printed
unfolding step_main
step_main-printed m s = ground arith

run-printed : (ts : List Turn) (s : State) → s.printed ≤ (run ts s).printed
unfolding run step
run-printed [] s = omega arith
run-printed (Turn.turn_main ∷ ts) s =
    omega (arith, step_main-printed s.main s, run-printed ts (step_main s.main s))
run-printed (Turn.turn_signal ∷ ts) s = omega (arith, send-same s, run-printed ts (send s))

-- The steps of `main` in a schedule.
abbrev pub mains : List Turn → ℕ
mains [] = 0
mains (Turn.turn_main ∷ ts) = suc (mains ts)
mains (Turn.turn_signal ∷ ts) = mains ts

run-IsDue :
    (ts : List Turn) (s : State)
    → IsDue s s.main
    → rank s.main ≤ mains ts
    → s.printed < (run ts s).printed
unfolding run step
run-IsDue [] s due enough = absurd (rank-pos s.main enough)
  where
    rank-pos : (m : Main) → rank m ≤ 0 → ⊥
    rank-pos m h = ground arith
run-IsDue (Turn.turn_main ∷ ts) s due enough = elim (step_main-IsDue s.main s due) [
  | inl done ↦ omega (arith, done, run-printed ts (step_main s.main s))
  | inr (due', sooner, same) ↦
      omega (arith, same, run-IsDue ts (step_main s.main s) due' (omega (arith, sooner, enough)))
]
run-IsDue (Turn.turn_signal ∷ ts) s due enough =
    let (here, same) = send-same s in
    omega (arith, same, run-IsDue ts (send s) (rw here (send-IsDue s.main s due)) (rw here enough))

Sleeps-asleep : (m : Main) → Sleeps m → asleep m ≡ true
Sleeps-asleep m h = ground arith

rank-le : (m : Main) → rank m ≤ 4
rank-le m = ground arith

sent-IsDue : (m : Main) (s : State) → Sleeps m → s.blocked ≡ true → IsDue (send s) m
unfolding send
sent-IsDue m s h e = ground arith

-- A signal that is sent while `main` sleeps waits, and a line is due for it.
send-Sleeps :
    (s : State)
    → Inv s
    → Sleeps s.main
    → ((step Turn.turn_signal s).handled ≡ s.handled)
      × IsDue (send s) (send s).main
      × (rank (send s).main ≤ 4)
unfolding step
send-Sleeps s inv h =
    let masked : s.blocked ≡ true = inv.masked ∙ Sleeps-asleep s.main h in
    (
      unfold send in rw masked refl,
      rw (send-same s).0 (sent-IsDue s.main s h masked),
      rank-le (send s).main,
    )

run_later :
    (after : List Turn) (s : State)
    → IsDue (send s) (send s).main
    → rank (send s).main ≤ mains after
    → s.printed < (run (Turn.turn_signal ∷ after) s).printed
unfolding run step
run_later after s due enough = omega (arith, (send-same s).1, run-IsDue after (send s) due enough)

-- A signal that is sent while `main` sleeps, or before it unblocks the signal, does not run the
-- handler at once. A line is printed for it in four more steps of `main`, whatever other signals
-- come between them. At all times as many lines were printed as the handler has run, or fewer, and
-- as many runs were made as signals were sent, or fewer.
pub run-announces :
    (before after : List Turn)
    → Sleeps (run before start).main
    → 4 ≤ mains after
    → let s = run before start in
      let s' = run (Turn.turn_signal ∷ after) s in
      ((step Turn.turn_signal s).handled ≡ s.handled)
      × (s.printed < s'.printed)
      × (s'.printed ≤ s'.handled)
      × (s'.handled ≤ s'.sent)
run-announces before after asleep enough =
    let inv = run-Inv before start start-Inv in
    let (held, due, soon) = send-Sleeps (run before start) inv asleep in
    let after-inv = run-Inv (Turn.turn_signal ∷ after) (run before start) inv in
    (
      held,
      run_later after (run before start) due (omega (arith, soon, enough)),
      omega (arith, after-inv.lines),
      omega (arith, after-inv.runs),
    )
