-- ===== src/Sync/StoreBuffer/Safety.antt =====
-- `main` of faulty/mutex.c over any schedule of its threads and of the store buffers.
use caos_seminars.Prelude.{
  ℕ, ◌≡◌, ◌≢◌, ◌==◌, refl, inl, inr, ◌⊎◌, Bool, true, false, List, [], ◌∷◌, arith, if◌then◌else◌,
  subst,
}
use caos_seminars.Sync.StoreBuffer.{Thread, Main, State, Turn, joined, step_main, step, run, start}
use caos_seminars.Sync.StoreBuffer.Excluded.{Excludes}
use caos_seminars.Sync.StoreBuffer.Phases.{
  Idle, Both, FirstJoined, Inv, first-Inv, second-Inv, flush_first-Inv, flush_second-Inv,
}

-- The join of the first thread.
join_first :
    (t : Thread) (b : Bool) (s : State)
    → s.first ≡ t
    → s.first_buffered ≡ b
    → Both s
    → let m = joined t b Main.joining_first Main.joining_second in Inv m (record s { main = m })
join_first Thread.at_end false s e f h = record { first_ended = e; first_flushed = f; running = h }
join_first Thread.at_end true s e f h = h
join_first Thread.at_lock b s e f h = h
join_first Thread.at_store b s e f h = h
join_first Thread.at_load b s e f h = h
join_first Thread.at_unlock b s e f h = h

-- At their ends the two threads have read, and the mutex is free.
ends :
    (s : State)
    → s.first ≡ Thread.at_end
    → s.first_buffered ≡ false
    → s.second ≡ Thread.at_end
    → s.second_buffered ≡ false
    → Both s
    → Idle s × ((s.r1 ≡ 1) ⊎ (s.r2 ≡ 1))
ends s e f e' f' h = (
  record {
    first_ended = e;
    first_flushed = f;
    second_ended = e';
    second_flushed = f';
    unlocked = let free : Excludes s.mutex false false = rw (e, e') at (h.excludes) in free;
  },
  h.seen s.r1 s.r2 (rw e refl) (rw e' refl),
)

join_second :
    (t : Thread) (b : Bool) (s : State)
    → s.second ≡ t
    → s.second_buffered ≡ b
    → FirstJoined s
    → let m = joined t b Main.joining_second Main.checking in Inv m (record s { main = m })
join_second Thread.at_end false s e f h =
    let (idle, one) = ends s h.first_ended h.first_flushed e f h.running in
    (
      record {
        first_ended = idle.first_ended;
        first_flushed = idle.first_flushed;
        second_ended = idle.second_ended;
        second_flushed = idle.second_flushed;
        unlocked = idle.unlocked;
      },
      one,
    )
join_second Thread.at_end true s e f h = record {
  first_ended = h.first_ended;
  first_flushed = h.first_flushed;
  running = h.running;
}
join_second Thread.at_lock b s e f h = record {
  first_ended = h.first_ended;
  first_flushed = h.first_flushed;
  running = h.running;
}
join_second Thread.at_store b s e f h = record {
  first_ended = h.first_ended;
  first_flushed = h.first_flushed;
  running = h.running;
}
join_second Thread.at_load b s e f h = record {
  first_ended = h.first_ended;
  first_flushed = h.first_flushed;
  running = h.running;
}
join_second Thread.at_unlock b s e f h = record {
  first_ended = h.first_ended;
  first_flushed = h.first_flushed;
  running = h.running;
}

-- The test of `main` is not met.
one_is_kept : (r1 r2 : ℕ) → (r1 ≡ 1) ⊎ (r2 ≡ 1) → (if r1 == 0 then r2 == 0 else false) ≡ false
one_is_kept r1 r2 (inl one) = ground arith
one_is_kept r1 r2 (inr one) = ground arith

step_main-Inv :
    (m : Main) (s : State) → Inv m s → Inv (step_main true m s).main (step_main true m s)
unfolding step_main
step_main-Inv Main.clearing s h = record {
  first_ended = h.first_ended;
  first_flushed = h.first_flushed;
  second_ended = h.second_ended;
  second_flushed = h.second_flushed;
  unlocked = h.unlocked;
}
step_main-Inv Main.creating_first s h = record {
  second_ended = h.second_ended;
  second_flushed = h.second_flushed;
  running = record {
    mine = h.first_flushed;
    theirs = refl;
    excludes = h.unlocked;
    seen = λ a b ga gb. absurd ga;
  };
}
step_main-Inv Main.creating_second s h = record {
  mine = h.running.mine;
  theirs = h.second_flushed;
  excludes = h.running.excludes;
  seen = λ a b ga gb. absurd gb;
}
step_main-Inv Main.joining_first s h = join_first s.first s.first_buffered s refl refl h
step_main-Inv Main.joining_second s h = join_second s.second s.second_buffered s refl refl h
step_main-Inv Main.checking s (h, one) = rw (one_is_kept s.r1 s.r2 one) (record {
  first_ended = h.first_ended;
  first_flushed = h.first_flushed;
  second_ended = h.second_ended;
  second_flushed = h.second_flushed;
  unlocked = h.unlocked;
})
step_main-Inv Main.aborted s h = absurd h

step-Inv : (turn : Turn) (s : State) → Inv s.main s → Inv (step true turn s).main (step true turn s)
unfolding step
step-Inv Turn.turn_main s h = step_main-Inv s.main s h
step-Inv Turn.turn_first s h = first-Inv s.main s h
step-Inv Turn.turn_second s h = second-Inv s.main s h
step-Inv Turn.flush_first s h = flush_first-Inv s.main s h
step-Inv Turn.flush_second s h = flush_second-Inv s.main s h

run-Inv :
    (turns : List Turn) (s : State) → Inv s.main s → Inv (run true turns s).main (run true turns s)
unfolding run
run-Inv [] s h = h
run-Inv (turn ∷ turns) s h = run-Inv turns (step true turn s) (step-Inv turn s h)

start-Idle : Idle start
start-Idle = record {
  first_ended = refl;
  first_flushed = refl;
  second_ended = refl;
  second_flushed = refl;
  unlocked = refl;
}

-- With the mutex, `main` does not reach `abort` in any order of the steps of the threads and of the
-- flushes of their store buffers, over any number of iterations.
pub never_aborted_locked : (turns : List Turn) → (run true turns start).main ≢ Main.aborted
never_aborted_locked turns e =
    subst (λ m. Inv m (run true turns start)) e (run-Inv turns start start-Idle)
