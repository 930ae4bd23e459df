-- ===== src/Sync/Condvar/Progress.antt =====
-- `main` of condvar.c waits for all threads, and does not wait for ever.
use caos_seminars.Prelude.{
  ℕ, zero, suc, ◌≡◌, refl, sym, ap, inl, inr, Bool, true, false, List, [], ◌∷◌, Option, none, some,
  length, arith, Option-cases, subst,
}
use caos_seminars.Sync.Condvar.{
  Worker, Main, Shared, State, Turn, thread_entry, step_main, step_worker, step, run, start,
}
use caos_seminars.Sync.Condvar.Counts.{
  bit, counted, holds, signals, main_holds, total, IsPast, IsWaiting, Inv, Inv-Effect, start-Inv,
  step_main-Inv, step_worker-Effect,
}

module _ (n : ℕ) where
  abbrev Good : State → Type 0
  Good s = Inv n s.workers s.shared

  abbrev GoodStep : Option State → Type 0
  GoodStep none = Unit
  GoodStep (some s) = Good s

  woken-Good : (s : State) → Good s → GoodStep (step n Turn.turn_wake s)
  unfolding step
  woken-Good s i = Inv-Effect n s.workers s.workers s.shared _ i (record {
    size = refl;
    counting = refl;
    growing = omega arith;
    holding = refl;
    sleeping = inl refl;
  })

  step-Good : (turn : Turn) (s : State) → Good s → GoodStep (step n turn s)
  unfolding step
  step-Good Turn.turn_wake s i = woken-Good s i
  step-Good Turn.turn_main s i =
      let next = step_main-Inv n s.shared.main s.workers s.shared refl i in
      elim (Option-cases (step_main n s.shared.main s.shared)) [
        | inl waits ↦ rw (step, waits) tt
        | inr (shared, goes) ↦ rw (step, goes) (rw goes at next)
      ]
  step-Good (Turn.turn_worker t) s i =
      let next = step_worker-Effect t s.workers s.shared (omega (arith, i.one_holder)) in
      elim (Option-cases (step_worker t s.workers s.shared)) [
        | inl waits ↦ rw (step, waits) tt
        | inr ((ws, shared), goes) ↦
            rw (step, goes) (Inv-Effect n s.workers ws s.shared shared i (rw goes at next))
      ]

  run-Good : (turns : List Turn) (s : State) → Good s → Good (run n turns s)
  unfolding run
  run-Good [] s i = i
  run-Good (turn ∷ turns) s i = elim (Option-cases (step n turn s)) [
    | inl waits ↦ rw (run, waits) (run-Good turns s i)
    | inr (s', goes) ↦ rw (run, goes) (run-Good turns s' (subst GoodStep goes (step-Good turn s i)))
  ]

-- A thread that cannot go on waits for the mutex or is at its end.
abbrev Blocked : (locked : Bool) → Worker → Type 0
Blocked locked (Worker.working left) = ⊥
Blocked locked Worker.at_lock = locked ≡ true
Blocked locked Worker.at_increment = ⊥
Blocked locked Worker.at_signal = ⊥
Blocked locked Worker.at_unlock = ⊥
Blocked locked Worker.at_end = Unit

abbrev AllBlocked : (locked : Bool) → List Worker → Type 0
AllBlocked locked [] = Unit
AllBlocked locked (w ∷ ws) = Blocked locked w × AllBlocked locked ws

entry-Blocked : (w : Worker) (s : Shared) → thread_entry w s ≡ none → Blocked s.locked w
unfolding thread_entry
entry-Blocked (Worker.working zero) s e = absurd (ground arith)
entry-Blocked (Worker.working (suc left)) s e = absurd (ground arith)
entry-Blocked Worker.at_lock s e = ground arith
entry-Blocked Worker.at_increment s e = absurd (ground arith)
entry-Blocked Worker.at_signal s e = absurd (ground arith)
entry-Blocked Worker.at_unlock s e = absurd (ground arith)
entry-Blocked Worker.at_end s e = tt

first_waits :
    (w : Worker) (ws : List Worker) (s : Shared)
    → step_worker 0 (w ∷ ws) s ≡ none
    → thread_entry w s ≡ none
unfolding step_worker
first_waits w ws s e = elim (Option-cases (thread_entry w s)) [
  | inl waits ↦ waits
  | inr ((w', s'), goes) ↦ absurd (ground (arith, goes, e))
]

rest_waits :
    (t : ℕ) (w : Worker) (ws : List Worker) (s : Shared)
    → step_worker (suc t) (w ∷ ws) s ≡ none
    → step_worker t ws s ≡ none
unfolding step_worker
rest_waits t w ws s e = elim (Option-cases (step_worker t ws s)) [
  | inl waits ↦ waits
  | inr ((ws', s'), goes) ↦ absurd (ground (arith, goes, e))
]

all-AllBlocked :
    (ws : List Worker) (s : Shared) → ((t : ℕ) → step_worker t ws s ≡ none) → AllBlocked s.locked ws
all-AllBlocked [] s waits = tt
all-AllBlocked (w ∷ ws) s waits = (
  entry-Blocked w s (first_waits w ws s (waits 0)),
  all-AllBlocked ws s (λ t. rest_waits t w ws s (waits (suc t))),
)

-- Blocked threads hold nothing and signal nothing, and if the mutex is free they have all counted.
AllBlocked-holds : (l : Bool) (ws : List Worker) → AllBlocked l ws → total holds ws ≡ 0
AllBlocked-holds l [] h = refl
AllBlocked-holds l (Worker.working left ∷ ws) (h, hs) = absurd h
AllBlocked-holds l (Worker.at_lock ∷ ws) (h, hs) = omega (arith, AllBlocked-holds l ws hs)
AllBlocked-holds l (Worker.at_increment ∷ ws) (h, hs) = absurd h
AllBlocked-holds l (Worker.at_signal ∷ ws) (h, hs) = absurd h
AllBlocked-holds l (Worker.at_unlock ∷ ws) (h, hs) = absurd h
AllBlocked-holds l (Worker.at_end ∷ ws) (h, hs) = omega (arith, AllBlocked-holds l ws hs)

AllBlocked-counted :
    (ws : List Worker)
    → AllBlocked false ws
    → (total counted ws ≡ length ws) × (total signals ws ≡ 0)
AllBlocked-counted [] h = (refl, refl)
AllBlocked-counted (Worker.working left ∷ ws) (h, hs) = absurd h
AllBlocked-counted (Worker.at_lock ∷ ws) (h, hs) = absurd (ground arith)
AllBlocked-counted (Worker.at_increment ∷ ws) (h, hs) = absurd h
AllBlocked-counted (Worker.at_signal ∷ ws) (h, hs) = absurd h
AllBlocked-counted (Worker.at_unlock ∷ ws) (h, hs) = absurd h
AllBlocked-counted (Worker.at_end ∷ ws) (h, hs) = omega (arith, AllBlocked-counted ws hs)

-- Neither `main` nor a thread can go on; a wake-up without a signal is not relied on.
abbrev pub Stuck : (n : ℕ) → State → Type 0
Stuck n s = (step n Turn.turn_main s ≡ none) × ((t : ℕ) → step n (Turn.turn_worker t) s ≡ none)

main_waits :
    (n : ℕ) (s : State) → step n Turn.turn_main s ≡ none → step_main n s.shared.main s.shared ≡ none
unfolding step
main_waits n s e = elim (Option-cases (step_main n s.shared.main s.shared)) [
  | inl waits ↦ waits
  | inr (shared, goes) ↦ absurd (ground (arith, goes, e))
]

worker_waits :
    (n t : ℕ) (s : State)
    → step n (Turn.turn_worker t) s ≡ none
    → step_worker t s.workers s.shared ≡ none
unfolding step
worker_waits n t s e = elim (Option-cases (step_worker t s.workers s.shared)) [
  | inl waits ↦ waits
  | inr ((ws, shared), goes) ↦ absurd (ground (arith, goes, e))
]

-- `main` is at its end, or asleep, or waits for a mutex that is held.
abbrev MainBlocked : (locked : Bool) → Main → Type 0
MainBlocked locked Main.at_lock = locked ≡ true
MainBlocked locked Main.at_test = ⊥
MainBlocked locked Main.waiting = Unit
MainBlocked locked Main.woken = locked ≡ true
MainBlocked locked Main.at_unlock = ⊥
MainBlocked locked Main.at_end = Unit

main-MainBlocked : (n : ℕ) (m : Main) (s : Shared) → step_main n m s ≡ none → MainBlocked s.locked m
unfolding step_main
main-MainBlocked n Main.at_lock s e = ground arith
main-MainBlocked n Main.at_test s e = absurd (ground arith)
main-MainBlocked n Main.waiting s e = tt
main-MainBlocked n Main.woken s e = ground arith
main-MainBlocked n Main.at_unlock s e = absurd (ground arith)
main-MainBlocked n Main.at_end s e = tt

ended_of_blocked :
    (n : ℕ) (m : Main) (l : Bool) (ws : List Worker) (s : Shared)
    → s.main ≡ m
    → s.locked ≡ l
    → Inv n ws s
    → MainBlocked l m
    → AllBlocked l ws
    → (m ≡ Main.at_end) × (s.done ≡ n)
ended_of_blocked n Main.at_lock true ws s e f i b bs =
    absurd (omega (arith, i.one_holder, ap main_holds e, ap bit f, AllBlocked-holds true ws bs))
ended_of_blocked n Main.at_lock false ws s e f i b bs = absurd (ground arith)
ended_of_blocked n Main.at_test l ws s e f i b bs = absurd b
ended_of_blocked n Main.waiting true ws s e f i b bs =
    absurd (omega (arith, i.one_holder, ap main_holds e, ap bit f, AllBlocked-holds true ws bs))
ended_of_blocked n Main.waiting false ws s e f i b bs =
    let all = AllBlocked-counted ws bs in
    elim (i.awaited (subst IsWaiting (sym e) tt)) [
      | inl some_left ↦ absurd (omega (arith, some_left, all.0, i.counts, i.workers))
      | inr some_signal ↦ absurd (omega (arith, some_signal, all.1))
    ]
ended_of_blocked n Main.woken true ws s e f i b bs =
    absurd (omega (arith, i.one_holder, ap main_holds e, ap bit f, AllBlocked-holds true ws bs))
ended_of_blocked n Main.woken false ws s e f i b bs = absurd (ground arith)
ended_of_blocked n Main.at_unlock l ws s e f i b bs = absurd b
ended_of_blocked n Main.at_end l ws s e f i b bs = (refl, i.complete (subst IsPast (sym e) tt))

-- No wake-up is lost: in whatever order the threads and `main` go on, if none of them can take a
-- step, `main` has come to its end and every thread has counted itself.
pub run-Progress :
    (n : ℕ) (turns : List Turn)
    → Stuck n (run n turns (start n))
    → ((run n turns (start n)).shared.main ≡ Main.at_end)
      × ((run n turns (start n)).shared.done ≡ n)
run-Progress n turns (main_stuck, workers_stuck) =
    let s = run n turns (start n) in
    ended_of_blocked n s.shared.main s.shared.locked s.workers s.shared refl refl
      (run-Good n turns (start n) (start-Inv n))
      (main-MainBlocked n s.shared.main s.shared (main_waits n s main_stuck))
      (all-AllBlocked s.workers s.shared (λ t. worker_waits n t s (workers_stuck t)))

-- `main` is past its wait only when all threads have counted themselves, also if it was woken
-- with no signal.
pub run-IsPast :
    (n : ℕ) (turns : List Turn)
    → IsPast (run n turns (start n)).shared.main
    → (run n turns (start n)).shared.done ≡ n
run-IsPast n turns past = (run-Good n turns (start n) (start-Inv n)).complete past
