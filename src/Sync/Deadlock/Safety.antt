-- ===== src/Sync/Deadlock/Safety.antt =====
-- The states of mutex-problem/problem.c in which no thread can go on.
use caos_seminars.Prelude.{
  ◌≡◌, ◌≢◌, refl, inl, inr, ◌⊎◌, Bool, true, false, Option, none, some, Option-cases, List, [], ◌∷◌,
  arith, subst,
}
use caos_seminars.Sync.Deadlock.{
  Thread, Mutex, State, Locks, Turn, call, first_moved, second_moved, step_first, step_second, step,
  run, start,
}

abbrev has_outer : Thread → Bool
has_outer Thread.lock_outer = false
has_outer Thread.lock_inner = true
has_outer Thread.unlock_inner = true
has_outer Thread.unlock_outer = true
has_outer Thread.at_end = false

abbrev has_inner : Thread → Bool
has_inner Thread.lock_outer = false
has_inner Thread.lock_inner = false
has_inner Thread.unlock_inner = true
has_inner Thread.unlock_outer = false
has_inner Thread.at_end = false

-- The mutex is held by the thread that has taken it, and not by both.
abbrev Held : Mutex → (by_one by_other : Bool) → Type 0
Held Mutex.free one other = (one ≡ false) × (other ≡ false)
Held Mutex.by_first one other = (one ≡ true) × (other ≡ false)
Held Mutex.by_second one other = (one ≡ false) × (other ≡ true)

Held-free : (m : Mutex) → Held m false false → m ≡ Mutex.free
Held-free Mutex.free h = refl
Held-free Mutex.by_first h = absurd (ground arith)
Held-free Mutex.by_second h = absurd (ground arith)

Held-first : (m : Mutex) (other : Bool) → Held m true other → (m ≡ Mutex.by_first) × (other ≡ false)
Held-first Mutex.free other h = absurd (ground arith)
Held-first Mutex.by_first other h = (refl, h.1)
Held-first Mutex.by_second other h = absurd (ground arith)

Held-second : (m : Mutex) (one : Bool) → Held m one true → (m ≡ Mutex.by_second) × (one ≡ false)
Held-second Mutex.free one h = absurd (ground arith)
Held-second Mutex.by_first one h = absurd (ground arith)
Held-second Mutex.by_second one h = (refl, h.0)

-- Both mutexes, by where the threads stand.
abbrev Owned : (t u : Thread) (m1 m2 : Mutex) → Type 0
Owned t u m1 m2 = Held m1 (has_outer t) (has_inner u) × Held m2 (has_inner t) (has_outer u)

abbrev FirstOwned : Thread → Option Locks → Type 0
FirstOwned u none = Unit
FirstOwned u (some (t, m1, m2)) = Owned t u m1 m2

abbrev SecondOwned : Thread → Option Locks → Type 0
SecondOwned t none = Unit
SecondOwned t (some (u, m2, m1)) = Owned t u m1 m2

call-FirstOwned :
    (t u : Thread) (m1 m2 : Mutex) → Owned t u m1 m2 → FirstOwned u (call t Mutex.by_first m1 m2)
unfolding call
call-FirstOwned Thread.lock_outer u Mutex.free m2 (h, k) = ((refl, h.1), k)
call-FirstOwned Thread.lock_outer u Mutex.by_first m2 h = tt
call-FirstOwned Thread.lock_outer u Mutex.by_second m2 h = tt
call-FirstOwned Thread.lock_inner u m1 Mutex.free (h, k) = (h, (refl, k.1))
call-FirstOwned Thread.lock_inner u m1 Mutex.by_first h = tt
call-FirstOwned Thread.lock_inner u m1 Mutex.by_second h = tt
call-FirstOwned Thread.unlock_inner u m1 m2 (h, k) = (h, (refl, (Held-first m2 _ k).1))
call-FirstOwned Thread.unlock_outer u m1 m2 (h, k) = ((refl, (Held-first m1 _ h).1), k)
call-FirstOwned Thread.at_end u m1 m2 h = tt

call-SecondOwned :
    (t u : Thread) (m1 m2 : Mutex) → Owned t u m1 m2 → SecondOwned t (call u Mutex.by_second m2 m1)
unfolding call
call-SecondOwned t Thread.lock_outer m1 Mutex.free (h, k) = (h, (k.0, refl))
call-SecondOwned t Thread.lock_outer m1 Mutex.by_first h = tt
call-SecondOwned t Thread.lock_outer m1 Mutex.by_second h = tt
call-SecondOwned t Thread.lock_inner Mutex.free m2 (h, k) = ((h.0, refl), k)
call-SecondOwned t Thread.lock_inner Mutex.by_first m2 h = tt
call-SecondOwned t Thread.lock_inner Mutex.by_second m2 h = tt
call-SecondOwned t Thread.unlock_inner m1 m2 (h, k) = (((Held-second m1 _ h).1, refl), k)
call-SecondOwned t Thread.unlock_outer m1 m2 (h, k) = (h, ((Held-second m2 _ k).1, refl))
call-SecondOwned t Thread.at_end m1 m2 h = tt

abbrev Inv : State → Type 0
Inv s = Owned s.first s.second s.mutex1 s.mutex2

abbrev After : Option State → Type 0
After none = Unit
After (some s) = Inv s

first_moved-Inv : (s : State) (o : Option Locks) → FirstOwned s.second o → After (first_moved s o)
first_moved-Inv s none h = tt
first_moved-Inv s (some (t, m1, m2)) h = h

second_moved-Inv : (s : State) (o : Option Locks) → SecondOwned s.first o → After (second_moved s o)
second_moved-Inv s none h = tt
second_moved-Inv s (some (u, m2, m1)) h = h

step-Inv : (turn : Turn) (s : State) → Inv s → After (step turn s)
unfolding step_first step_second
step-Inv Turn.turn_first s h =
    first_moved-Inv s _ (call-FirstOwned s.first s.second s.mutex1 s.mutex2 h)
step-Inv Turn.turn_second s h =
    second_moved-Inv s _ (call-SecondOwned s.first s.second s.mutex1 s.mutex2 h)

run-Inv : (turns : List Turn) (s : State) → Inv s → Inv (run turns s)
unfolding run
run-Inv [] s h = h
run-Inv (turn ∷ turns) s h = elim (Option-cases (step turn s)) [
  | inl waits ↦ rw (run, waits) (run-Inv turns s h)
  | inr (s', moves) ↦ rw (run, moves) (run-Inv turns s' (subst After moves (step-Inv turn s h)))
]

-- Why a thread has no next call.
abbrev Waits : Thread → (outer inner : Mutex) → Type 0
Waits Thread.lock_outer outer inner = outer ≢ Mutex.free
Waits Thread.lock_inner outer inner = inner ≢ Mutex.free
Waits Thread.unlock_inner outer inner = ⊥
Waits Thread.unlock_outer outer inner = ⊥
Waits Thread.at_end outer inner = Unit

call-Waits :
    (t : Thread) (me outer inner : Mutex) → call t me outer inner ≡ none → Waits t outer inner
unfolding call
call-Waits Thread.lock_outer me Mutex.free inner e = absurd (ground arith)
call-Waits Thread.lock_outer me Mutex.by_first inner e = λ f. absurd (ground arith)
call-Waits Thread.lock_outer me Mutex.by_second inner e = λ f. absurd (ground arith)
call-Waits Thread.lock_inner me outer Mutex.free e = absurd (ground arith)
call-Waits Thread.lock_inner me outer Mutex.by_first e = λ f. absurd (ground arith)
call-Waits Thread.lock_inner me outer Mutex.by_second e = λ f. absurd (ground arith)
call-Waits Thread.unlock_inner me outer inner e = absurd (ground arith)
call-Waits Thread.unlock_outer me outer inner e = absurd (ground arith)
call-Waits Thread.at_end me outer inner e = tt

first_moved-none : (s : State) (o : Option Locks) → first_moved s o ≡ none → o ≡ none
first_moved-none s none e = refl
first_moved-none s (some l) e = absurd (ground arith)

second_moved-none : (s : State) (o : Option Locks) → second_moved s o ≡ none → o ≡ none
second_moved-none s none e = refl
second_moved-none s (some l) e = absurd (ground arith)

abbrev pub Stuck : State → Type 0
Stuck s = (step_first s ≡ none) × (step_second s ≡ none)

abbrev pub ended : State
ended = record {
  mutex1 = Mutex.free;
  mutex2 = Mutex.free;
  first = Thread.at_end;
  second = Thread.at_end;
}

-- Each thread holds a mutex and waits for the other's.
abbrev pub deadlock : State
deadlock = record {
  mutex1 = Mutex.by_first;
  mutex2 = Mutex.by_second;
  first = Thread.lock_inner;
  second = Thread.lock_inner;
}

abbrev state : (t u : Thread) (m1 m2 : Mutex) → State
state t u m1 m2 = record { mutex1 = m1; mutex2 = m2; first = t; second = u }

stuck-cases :
    (t u : Thread) (m1 m2 : Mutex)
    → Owned t u m1 m2
    → Waits t m1 m2
    → Waits u m2 m1
    → (state t u m1 m2 ≡ ended) ⊎ (state t u m1 m2 ≡ deadlock)
stuck-cases Thread.unlock_inner u m1 m2 h a b = absurd a
stuck-cases Thread.unlock_outer u m1 m2 h a b = absurd a
stuck-cases Thread.lock_outer Thread.unlock_inner m1 m2 h a b = absurd b
stuck-cases Thread.lock_outer Thread.unlock_outer m1 m2 h a b = absurd b
stuck-cases Thread.lock_inner Thread.unlock_inner m1 m2 h a b = absurd b
stuck-cases Thread.lock_inner Thread.unlock_outer m1 m2 h a b = absurd b
stuck-cases Thread.at_end Thread.unlock_inner m1 m2 h a b = absurd b
stuck-cases Thread.at_end Thread.unlock_outer m1 m2 h a b = absurd b
stuck-cases Thread.lock_outer Thread.lock_outer m1 m2 (h, k) a b = absurd (a (Held-free m1 h))
stuck-cases Thread.lock_outer Thread.lock_inner m1 m2 (h, k) a b = absurd (a (Held-free m1 h))
stuck-cases Thread.lock_outer Thread.at_end m1 m2 (h, k) a b = absurd (a (Held-free m1 h))
stuck-cases Thread.lock_inner Thread.lock_outer m1 m2 (h, k) a b = absurd (b (Held-free m2 k))
stuck-cases Thread.lock_inner Thread.at_end m1 m2 (h, k) a b = absurd (a (Held-free m2 k))
stuck-cases Thread.at_end Thread.lock_outer m1 m2 (h, k) a b = absurd (b (Held-free m2 k))
stuck-cases Thread.at_end Thread.lock_inner m1 m2 (h, k) a b = absurd (b (Held-free m1 h))
stuck-cases Thread.at_end Thread.at_end m1 m2 (h, k) a b =
    inl (rw (Held-free m1 h, Held-free m2 k) refl)
stuck-cases Thread.lock_inner Thread.lock_inner m1 m2 (h, k) a b =
    inr (rw ((Held-first m1 _ h).0, (Held-second m2 _ k).0) refl)

-- After any schedule, if neither thread of problem.c can take a step, then either both are at
-- their end and both mutexes are free, or `first` holds `mutex1` and waits for `mutex2` while `second`
-- holds `mutex2` and waits for `mutex1`.
pub run-ended_or_deadlock :
    (turns : List Turn)
    → Stuck (run turns start)
    → (run turns start ≡ ended) ⊎ (run turns start ≡ deadlock)
unfolding step_first step_second
run-ended_or_deadlock turns (a, b) =
    let s = run turns start in
    stuck-cases s.first s.second s.mutex1 s.mutex2
      (run-Inv turns start (((refl, refl)), (refl, refl)))
      (call-Waits s.first Mutex.by_first s.mutex1 s.mutex2 (first_moved-none s _ a))
      (call-Waits s.second Mutex.by_second s.mutex2 s.mutex1 (second_moved-none s _ b))
