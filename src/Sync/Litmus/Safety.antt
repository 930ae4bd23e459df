-- ===== src/Sync/Litmus/Safety.antt =====
-- Why `main` of faulty/atomic.c does not abort.
use caos_seminars.Prelude.{
  ℕ, ◌≡◌, ◌≢◌, ◌==◌, refl, sym, ap, ◌∙◌, inl, inr, ◌⊎◌, List, [], ◌∷◌, subst, Bool-cases,
}
use caos_seminars.Sync.Litmus.{
  Thread, Main, State, Turn, advance, joined, step_main, step, run, start,
}

-- The thread has written its variable.
abbrev Wrote : Thread → Type 0
Wrote Thread.at_store = ⊥
Wrote _ = Unit

-- The thread has read `value`, and holds it or has kept it.
abbrev Got : Thread → (kept value : ℕ) → Type 0
Got Thread.at_store kept value = ⊥
Got Thread.at_load kept value = ⊥
Got (Thread.at_keep v) kept value = v ≡ value
Got Thread.at_end kept value = kept ≡ value

-- A thread's variable is 1 once it has written it, and one of the two has read 1 if both have read.
record Running (first second : Thread) (x y r1 r2 : ℕ) : Type 0 where
  first_wrote : Wrote first → x ≡ 1
  second_wrote : Wrote second → y ≡ 1
  seen : (a b : ℕ) → Got first r1 a → Got second r2 b → (a ≡ 1) ⊎ (b ≡ 1)

Running-swap : {t u : Thread} {x y r1 r2 : ℕ} → Running t u x y r1 r2 → Running u t y x r2 r1
Running-swap h = record {
  first_wrote = h.second_wrote;
  second_wrote = h.first_wrote;
  seen = λ a b ga gb. elim (h.seen b a gb ga) [ inl one ↦ inr one | inr one ↦ inl one ];
}

Got-Wrote : (t : Thread) (kept value : ℕ) → Got t kept value → Wrote t
Got-Wrote Thread.at_store kept value got = got
Got-Wrote Thread.at_load kept value got = tt
Got-Wrote (Thread.at_keep v) kept value got = tt
Got-Wrote Thread.at_end kept value got = tt

abbrev After : (t u : Thread) (x y r1 r2 : ℕ) → Type 0
After t u x y r1 r2 = let (t', x', r1') = advance t x y r1 in Running t' u x' y r1' r2

Running-advance : (t u : Thread) (x y r1 r2 : ℕ) → Running t u x y r1 r2 → After t u x y r1 r2
unfolding advance
Running-advance Thread.at_store u x y r1 r2 h = record {
  first_wrote = λ _. refl;
  second_wrote = h.second_wrote;
  seen = λ a b ga gb. absurd ga;
}
Running-advance Thread.at_load u x y r1 r2 h = record {
  first_wrote = λ _. h.first_wrote tt;
  second_wrote = h.second_wrote;
  seen = λ a b ga gb. inl (sym ga ∙ h.second_wrote (Got-Wrote u r2 b gb));
}
Running-advance (Thread.at_keep value) u x y r1 r2 h = record {
  first_wrote = λ _. h.first_wrote tt;
  second_wrote = h.second_wrote;
  seen = h.seen;
}
Running-advance Thread.at_end u x y r1 r2 h = h

-- The first thread alone, before the second is created.
abbrev Alone : (first second : Thread) (x y : ℕ) → Type 0
Alone first second x y = (Wrote first → x ≡ 1) × (second ≡ Thread.at_end)

Alone-advance :
    (t : Thread) (x y r1 : ℕ)
    → (Wrote t → x ≡ 1)
    → let (t', x', r1') = advance t x y r1 in Wrote t' → x' ≡ 1
unfolding advance
Alone-advance Thread.at_store x y r1 h = λ _. refl
Alone-advance Thread.at_load x y r1 h = λ _. h tt
Alone-advance (Thread.at_keep v) x y r1 h = λ _. h tt
Alone-advance Thread.at_end x y r1 h = h

-- What holds of a state, by where `main` stands.
abbrev Inv : Main → State → Type 0
Inv Main.clearing s = (s.first ≡ Thread.at_end) × (s.second ≡ Thread.at_end)
Inv Main.creating_first s = (s.first ≡ Thread.at_end) × (s.second ≡ Thread.at_end)
Inv Main.creating_second s = Alone s.first s.second s.x s.y
Inv Main.joining_first s = Running s.first s.second s.x s.y s.r1 s.r2
Inv Main.joining_second s = (s.first ≡ Thread.at_end) × Running s.first s.second s.x s.y s.r1 s.r2
Inv Main.checking s =
    (s.first ≡ Thread.at_end) × (s.second ≡ Thread.at_end) × ((s.r1 ≡ 1) ⊎ (s.r2 ≡ 1))
Inv Main.aborted s = ⊥

stays : (t : Thread) (x y r : ℕ) → t ≡ Thread.at_end → advance t x y r ≡ (Thread.at_end, x, r)
unfolding advance
stays t x y r e = rw e refl

step_main-Inv : (m : Main) (s : State) → Inv m s → Inv (step_main m s).main (step_main m s)
unfolding step_main
step_main-Inv Main.clearing s h = h
step_main-Inv Main.creating_first s (e, f) = ((λ w. absurd w), f)
step_main-Inv Main.creating_second s (wrote, e) = record {
  first_wrote = wrote;
  second_wrote = λ w. absurd w;
  seen = λ a b ga gb. absurd gb;
}
step_main-Inv Main.joining_first s h = join s.first refl
  where
    join :
        (t : Thread)
        → s.first ≡ t
        → Inv
            (joined s.first Main.joining_first Main.joining_second)
            (record s { main = joined s.first Main.joining_first Main.joining_second })
    join Thread.at_store e = rw e (rw e at h)
    join Thread.at_load e = rw e (rw e at h)
    join (Thread.at_keep v) e = rw e (rw e at h)
    join Thread.at_end e = rw e (refl, rw e at h)
step_main-Inv Main.joining_second s (f, h) = join s.second refl
  where
    join :
        (t : Thread)
        → s.second ≡ t
        → Inv
            (joined s.second Main.joining_second Main.checking)
            (record s { main = joined s.second Main.joining_second Main.checking })
    join Thread.at_store e = rw e (f, rw e at h)
    join Thread.at_load e = rw e (f, rw e at h)
    join (Thread.at_keep v) e = rw e (f, rw e at h)
    join Thread.at_end e = rw e (f, refl, h.seen s.r1 s.r2 (rw f refl) (rw e refl))
step_main-Inv Main.checking s (e, f, inl one) = rw one (e, f)
step_main-Inv Main.checking s (e, f, inr one) = elim (Bool-cases (s.r1 == 0)) [
  | inl none ↦ rw (none, one) (e, f)
  | inr kept ↦ rw kept (e, f)
]
step_main-Inv Main.aborted s h = absurd h

-- A step of the first thread.
first-Inv : (m : Main) (s : State) → Inv m s → Inv m (step Turn.turn_first s)
unfolding step
first-Inv Main.clearing s (e, f) = (ap (λ p. p.0) (stays s.first s.x s.y s.r1 e), f)
first-Inv Main.creating_first s (e, f) = (ap (λ p. p.0) (stays s.first s.x s.y s.r1 e), f)
first-Inv Main.creating_second s (wrote, f) = (Alone-advance s.first s.x s.y s.r1 wrote, f)
first-Inv Main.joining_first s h = Running-advance s.first s.second s.x s.y s.r1 s.r2 h
first-Inv Main.joining_second s (e, h) = (
  ap (λ p. p.0) (stays s.first s.x s.y s.r1 e),
  Running-advance s.first s.second s.x s.y s.r1 s.r2 h,
)
first-Inv Main.checking s (e, f, one) =
    let same = stays s.first s.x s.y s.r1 e in
    (ap (λ p. p.0) same, f, subst (λ k. (k ≡ 1) ⊎ (s.r2 ≡ 1)) (sym (ap (λ p. p.2) same)) one)
first-Inv Main.aborted s h = h

-- A step of the second.
second-Inv : (m : Main) (s : State) → Inv m s → Inv m (step Turn.turn_second s)
unfolding step
second-Inv Main.clearing s (e, f) = (e, ap (λ p. p.0) (stays s.second s.y s.x s.r2 f))
second-Inv Main.creating_first s (e, f) = (e, ap (λ p. p.0) (stays s.second s.y s.x s.r2 f))
second-Inv Main.creating_second s (wrote, f) =
    (wrote, ap (λ p. p.0) (stays s.second s.y s.x s.r2 f))
second-Inv Main.joining_first s h =
    Running-swap (Running-advance s.second s.first s.y s.x s.r2 s.r1 (Running-swap h))
second-Inv Main.joining_second s (e, h) =
    (e, Running-swap (Running-advance s.second s.first s.y s.x s.r2 s.r1 (Running-swap h)))
second-Inv Main.checking s (e, f, one) =
    let same = stays s.second s.y s.x s.r2 f in
    (e, ap (λ p. p.0) same, subst (λ k. (s.r1 ≡ 1) ⊎ (k ≡ 1)) (sym (ap (λ p. p.2) same)) one)
second-Inv Main.aborted s h = h

step-Inv : (turn : Turn) (s : State) → Inv s.main s → Inv (step turn s).main (step turn s)
unfolding step
step-Inv Turn.turn_main s h = step_main-Inv s.main s h
step-Inv Turn.turn_first s h = first-Inv s.main s h
step-Inv Turn.turn_second s h = second-Inv s.main s h

run-Inv : (turns : List Turn) (s : State) → Inv s.main s → Inv (run turns s).main (run turns s)
unfolding run
run-Inv [] s h = h
run-Inv (turn ∷ turns) s h = run-Inv turns (step turn s) (step-Inv turn s h)

-- In whatever order `main` and the two threads of faulty/atomic.c take their steps, over any number
-- of iterations, `main` does not reach `abort`: it never finds both `r1` and `r2` to be 0.
pub never_aborted : (turns : List Turn) → (run turns start).main ≢ Main.aborted
never_aborted turns e = subst (λ m. Inv m (run turns start)) e (run-Inv turns start (refl, refl))
