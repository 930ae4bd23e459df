-- ===== src/Sync/Condvar/Counts.antt =====
-- What the threads of condvar.c have done and hold together.
use caos_seminars.Prelude.{
  ℕ, zero, suc, ◌+◌, ◌<◌, ◌≡◌, refl, sym, ap, ◌∙◌, inl, inr, ◌⊎◌, Bool, true, false, List, [], ◌∷◌,
  Option, none, some, length, replicate, length-replicate, ltb, if◌then◌else◌, arith, Bool-cases,
  Option-cases, subst,
}
use caos_seminars.Sync.Condvar.{
  Worker, Main, Shared, signalled, thread_entry, step_main, step_worker, start,
}

abbrev pub bit : Bool → ℕ
bit true = 1
bit false = 0

-- The thread has counted itself.
abbrev pub counted : Worker → ℕ
counted (Worker.working _) = 0
counted Worker.at_lock = 0
counted Worker.at_increment = 0
counted Worker.at_signal = 1
counted Worker.at_unlock = 1
counted Worker.at_end = 1

-- The thread holds the mutex.
abbrev pub holds : Worker → ℕ
holds (Worker.working _) = 0
holds Worker.at_lock = 0
holds Worker.at_increment = 1
holds Worker.at_signal = 1
holds Worker.at_unlock = 1
holds Worker.at_end = 0

-- The thread is about to signal.
abbrev pub signals : Worker → ℕ
signals (Worker.working _) = 0
signals Worker.at_lock = 0
signals Worker.at_increment = 0
signals Worker.at_signal = 1
signals Worker.at_unlock = 0
signals Worker.at_end = 0

abbrev pub main_holds : Main → ℕ
main_holds Main.at_lock = 0
main_holds Main.at_test = 1
main_holds Main.waiting = 0
main_holds Main.woken = 0
main_holds Main.at_unlock = 1
main_holds Main.at_end = 0

abbrev pub total : (Worker → ℕ) → List Worker → ℕ
total f [] = 0
total f (w ∷ ws) = f w + total f ws

-- `main` is past the test that all are done.
abbrev pub IsPast : Main → Type 0
IsPast Main.at_unlock = Unit
IsPast Main.at_end = Unit
IsPast Main.at_lock = ⊥
IsPast Main.at_test = ⊥
IsPast Main.waiting = ⊥
IsPast Main.woken = ⊥

abbrev pub IsWaiting : Main → Type 0
IsWaiting Main.waiting = Unit
IsWaiting Main.at_lock = ⊥
IsWaiting Main.at_test = ⊥
IsWaiting Main.woken = ⊥
IsWaiting Main.at_unlock = ⊥
IsWaiting Main.at_end = ⊥

-- `counts`: `done` is the number of threads that have counted themselves; `one_holder`: the
-- mutex is held by one if it is locked, and by none if not; `awaited`: if `main` sleeps, a thread
-- is still to be counted or is about to signal.
pub record Inv (n : ℕ) (ws : List Worker) (s : Shared) : Type 0 where
  pub workers : length ws ≡ n
  pub counts : total counted ws ≡ s.done
  pub one_holder : total holds ws + main_holds s.main ≡ bit s.locked
  pub awaited : IsWaiting s.main → (s.done < n) ⊎ (0 < total signals ws)
  pub complete : IsPast s.main → s.done ≡ n

total-counted_le : (ws : List Worker) → total counted ws < suc (length ws)
total-counted_le [] = omega arith
total-counted_le (Worker.working left ∷ ws) = omega (arith, total-counted_le ws)
total-counted_le (Worker.at_lock ∷ ws) = omega (arith, total-counted_le ws)
total-counted_le (Worker.at_increment ∷ ws) = omega (arith, total-counted_le ws)
total-counted_le (Worker.at_signal ∷ ws) = omega (arith, total-counted_le ws)
total-counted_le (Worker.at_unlock ∷ ws) = omega (arith, total-counted_le ws)
total-counted_le (Worker.at_end ∷ ws) = omega (arith, total-counted_le ws)

-- The effect of one step of a thread on the totals.
pub record Effect (ws ws' : List Worker) (s s' : Shared) : Type 0 where
  pub size : length ws' ≡ length ws
  pub counting : total counted ws' + s.done ≡ total counted ws + s'.done
  pub growing : total counted ws < suc (total counted ws')
  pub holding : total holds ws' + bit s.locked ≡ total holds ws + bit s'.locked
  pub sleeping :
      (s'.main ≡ signalled s.main)
      ⊎ ((s'.main ≡ s.main)
          × ((0 < total signals ws')
              ⊎ ((s'.done ≡ s.done) × (total signals ws' ≡ total signals ws))))

abbrev EntryEffect :
    (w : Worker) (ws : List Worker) (s : Shared) → Option (Worker × Shared) → Type 0
EntryEffect w ws s none = Unit
EntryEffect w ws s (some (w', s')) = Effect (w ∷ ws) (w' ∷ ws) s s'

-- A step that leaves what is shared alone.
quiet_step :
    (w w' : Worker) (ws : List Worker) (s : Shared)
    → counted w' ≡ counted w
    → holds w' ≡ holds w
    → signals w' ≡ signals w
    → Effect (w ∷ ws) (w' ∷ ws) s s
quiet_step w w' ws s c h g = record {
  size = refl;
  counting = omega (arith, c);
  growing = omega (arith, c);
  holding = omega (arith, h);
  sleeping = inr (refl, inr (refl, omega (arith, g)));
}

entry-Effect :
    (w : Worker) (ws : List Worker) (s : Shared)
    → holds w < suc (bit s.locked)
    → EntryEffect w ws s (thread_entry w s)
unfolding thread_entry
entry-Effect (Worker.working zero) ws s h =
    quiet_step (Worker.working zero) Worker.at_lock ws s refl refl refl
entry-Effect (Worker.working (suc left)) ws s h =
    quiet_step (Worker.working (suc left)) (Worker.working left) ws s refl refl refl
entry-Effect Worker.at_lock ws s h = elim (Bool-cases s.locked) [
  | inl taken ↦ rw taken tt
  | inr free ↦ rw free (record {
    size = refl;
    counting = refl;
    growing = omega arith;
    holding = omega arith;
    sleeping = inr (refl, inr (refl, refl));
  })
]
entry-Effect Worker.at_increment ws s h = record {
  size = refl;
  counting = omega arith;
  growing = omega arith;
  holding = refl;
  sleeping = inr (refl, inl (omega arith));
}
entry-Effect Worker.at_signal ws s h = record {
  size = refl;
  counting = refl;
  growing = omega arith;
  holding = refl;
  sleeping = inl refl;
}
entry-Effect Worker.at_unlock ws s h = record {
  size = refl;
  counting = refl;
  growing = omega arith;
  holding = elim (Bool-cases s.locked) [
    | inl taken ↦ rw taken (omega arith)
    | inr free ↦ absurd (ground arith)
  ];
  sleeping = inr (refl, inr (refl, refl));
}
entry-Effect Worker.at_end ws s h = tt

abbrev pub StepEffect : (ws : List Worker) (s : Shared) → Option (List Worker × Shared) → Type 0
StepEffect ws s none = Unit
StepEffect ws s (some (ws', s')) = Effect ws ws' s s'

Effect-cons :
    (w : Worker) {ws ws' : List Worker} {s s' : Shared}
    → Effect ws ws' s s'
    → Effect (w ∷ ws) (w ∷ ws') s s'
Effect-cons w e = record {
  size = ap suc e.size;
  counting = omega (arith, e.counting);
  growing = omega (arith, e.growing);
  holding = omega (arith, e.holding);
  sleeping = elim e.sleeping [
    | inl woken ↦ inl woken
    | inr (same, inl more) ↦ inr (same, inl (omega arith))
    | inr (same, inr (done, signal)) ↦ inr (same, inr (done, omega arith))
  ];
}

pub step_worker-Effect :
    (t : ℕ) (ws : List Worker) (s : Shared)
    → total holds ws < suc (bit s.locked)
    → StepEffect ws s (step_worker t ws s)
unfolding step_worker
step_worker-Effect t [] s h = tt
step_worker-Effect zero (w ∷ ws) s h =
    let e = entry-Effect w ws s (omega arith) in
    elim (Option-cases (thread_entry w s)) [
      | inl waits ↦ rw (step_worker, waits) tt
      | inr ((w', s'), goes) ↦ rw (step_worker, goes) (rw goes at e)
    ]
step_worker-Effect (suc t) (w ∷ ws) s h =
    let e = step_worker-Effect t ws s (omega arith) in
    elim (Option-cases (step_worker t ws s)) [
      | inl waits ↦ rw (step_worker, waits) tt
      | inr ((ws', s'), goes) ↦ rw (step_worker, goes) (Effect-cons w (rw goes at e))
    ]

main_holds-signalled : (m : Main) → main_holds (signalled m) ≡ main_holds m
main_holds-signalled Main.at_lock = refl
main_holds-signalled Main.at_test = refl
main_holds-signalled Main.waiting = refl
main_holds-signalled Main.woken = refl
main_holds-signalled Main.at_unlock = refl
main_holds-signalled Main.at_end = refl

IsWaiting-signalled : (m : Main) → IsWaiting (signalled m) → ⊥
IsWaiting-signalled Main.at_lock h = h
IsWaiting-signalled Main.at_test h = h
IsWaiting-signalled Main.waiting h = h
IsWaiting-signalled Main.woken h = h
IsWaiting-signalled Main.at_unlock h = h
IsWaiting-signalled Main.at_end h = h

IsPast-signalled : (m : Main) → IsPast (signalled m) → IsPast m
IsPast-signalled Main.at_lock h = h
IsPast-signalled Main.at_test h = h
IsPast-signalled Main.waiting h = h
IsPast-signalled Main.woken h = h
IsPast-signalled Main.at_unlock h = h
IsPast-signalled Main.at_end h = h

module _ (n : ℕ) where
  pub Inv-Effect :
      (ws ws' : List Worker) (s s' : Shared) → Inv n ws s → Effect ws ws' s s' → Inv n ws' s'
  Inv-Effect ws ws' s s' i e = record {
    workers = e.size ∙ i.workers;
    counts = omega (arith, i.counts, e.counting);
    one_holder =
        let same : main_holds s'.main ≡ main_holds s.main = elim e.sleeping [
          | inl woken ↦ ap main_holds woken ∙ main_holds-signalled s.main
          | inr (kept, why) ↦ ap main_holds kept
        ] in
        omega (arith, same, i.one_holder, e.holding);
    awaited = λ asleep. elim e.sleeping [
      | inl woken ↦ absurd (IsWaiting-signalled s.main (subst IsWaiting woken asleep))
      | inr (kept, inl more) ↦ inr more
      | inr (kept, inr (done, signal)) ↦ elim (i.awaited (subst IsWaiting kept asleep)) [
        | inl some_left ↦ inl (omega arith)
        | inr some_signal ↦ inr (omega arith)
      ]
    ];
    complete = λ past.
        let before : IsPast s.main = elim e.sleeping [
          | inl woken ↦ IsPast-signalled s.main (subst IsPast woken past)
          | inr (kept, why) ↦ subst IsPast kept past
        ] in
        omega (
          arith,
          i.complete before,
          i.counts,
          e.counting,
          e.growing,
          i.workers,
          e.size,
          total-counted_le ws',
        );
  }

  total-replicate :
      (f : Worker → ℕ) (left count : ℕ)
      → f (Worker.working left) ≡ 0
      → total f (replicate count (Worker.working left)) ≡ 0
  total-replicate f left zero e = refl
  total-replicate f left (suc count) e = omega (arith, e, total-replicate f left count e)

  pub start-Inv : Inv n (start n).workers (start n).shared
  start-Inv = record {
    workers = length-replicate n (Worker.working 5);
    counts = total-replicate counted 5 n refl;
    one_holder = omega (arith, total-replicate holds 5 n refl);
    awaited = λ asleep. absurd asleep;
    complete = λ past. absurd past;
  }

  abbrev pub MainInv : List Worker → Option Shared → Type 0
  MainInv ws none = Unit
  MainInv ws (some s') = Inv n ws s'

  -- `main` takes the mutex and goes to its test.
  locked-Inv :
      (ws : List Worker) (s : Shared)
      → Inv n ws s
      → main_holds s.main ≡ 0
      → MainInv ws
          (if s.locked then none else some (record s { locked = true; main = Main.at_test }))
  locked-Inv ws s i outside = elim (Bool-cases s.locked) [
    | inl taken ↦ rw taken tt
    | inr free ↦
        let nobody : bit s.locked ≡ 0 = ap bit free in
        let next : Inv n ws (record s { locked = true; main = Main.at_test }) = record {
          workers = i.workers;
          counts = i.counts;
          one_holder = omega (arith, i.one_holder, outside, nobody);
          awaited = λ asleep. absurd asleep;
          complete = λ past. absurd past;
        } in
        subst
          (λ b.
            MainInv ws (if b then none else some (record s { locked = true; main = Main.at_test })))
          (sym free) next
  ]

  tested-Inv :
      (ws : List Worker) (s : Shared)
      → Inv n ws s
      → main_holds s.main ≡ 1
      → Inv n ws (
          if ltb s.done n
          then record s { locked = false; main = Main.waiting }
          else record s { main = Main.at_unlock })
  tested-Inv ws s i mine =
      let one : bit s.locked < 2 = bit_small s.locked in
      let sleeps : s.done < n → Inv n ws (record s { locked = false; main = Main.waiting }) =
        λ some_left. record {
          workers = i.workers;
          counts = i.counts;
          one_holder = omega (arith, i.one_holder, mine, one);
          awaited = λ asleep. inl some_left;
          complete = λ past. absurd past;
        } in
      let goes : n < suc s.done → Inv n ws (record s { main = Main.at_unlock }) = λ all_done.
        record {
          workers = i.workers;
          counts = i.counts;
          one_holder = omega (arith, i.one_holder, mine);
          awaited = λ asleep. absurd asleep;
          complete = λ past. omega (arith, i.counts, i.workers, total-counted_le ws, all_done);
        } in
      branch (ltb s.done n) refl sleeps goes
    where
      bit_small : (b : Bool) → bit b < 2
      bit_small true = omega arith
      bit_small false = omega arith

      branch :
          (b : Bool)
          → ltb s.done n ≡ b
          → (s.done < n → Inv n ws (record s { locked = false; main = Main.waiting }))
          → (n < suc s.done → Inv n ws (record s { main = Main.at_unlock }))
          → Inv n ws (
              if b
              then record s { locked = false; main = Main.waiting }
              else record s { main = Main.at_unlock })
      branch true e sleeps goes = sleeps (ground arith)
      branch false e sleeps goes = goes (ground arith)

  pub step_main-Inv :
      (m : Main) (ws : List Worker) (s : Shared)
      → s.main ≡ m
      → Inv n ws s
      → MainInv ws (step_main n m s)
  unfolding step_main
  step_main-Inv Main.at_lock ws s e i = locked-Inv ws s i (ap main_holds e)
  step_main-Inv Main.at_test ws s e i = tested-Inv ws s i (ap main_holds e)
  step_main-Inv Main.waiting ws s e i = tt
  step_main-Inv Main.woken ws s e i = locked-Inv ws s i (ap main_holds e)
  step_main-Inv Main.at_unlock ws s e i =
      let mine : main_holds s.main ≡ 1 = ap main_holds e in
      record {
        workers = i.workers;
        counts = i.counts;
        one_holder = elim (Bool-cases s.locked) [
          | inl taken ↦ omega (arith, i.one_holder, mine, ap bit taken)
          | inr free ↦ omega (arith, i.one_holder, mine, ap bit free)
        ];
        awaited = λ asleep. absurd asleep;
        complete = λ past. i.complete (subst IsPast (sym e) tt);
      }
  step_main-Inv Main.at_end ws s e i = tt
