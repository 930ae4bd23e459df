-- ===== src/Sync/Counter.antt =====
-- no-sync/no-sync-fix.c: threads that count in one `_Atomic` variable. `++` on it is one step. The
-- source has 10 for `threads_count` and 30000 for `loops`, whose product an `int` holds.
use caos_seminars.Prelude.{ℕ, zero, suc, List, [], ◌∷◌, replicate, ltb, if◌then◌else◌}
pub mod Total

-- Each thread's `i`, and `shared_counter`.
pub record State : Type 0 where
  pub indexes : List ℕ
  pub shared_counter : ℕ

module _ (loops : ℕ) where
  -- A round of `thread_func` in the thread number `t`; a thread at its end does nothing.
  unfoldable pub thread_func : (t : ℕ) (indexes : List ℕ) (counter : ℕ) → List ℕ × ℕ
  thread_func t [] counter = ([], counter)
  thread_func zero (i ∷ is) counter =
      if ltb i loops then (suc i ∷ is, suc counter) else (i ∷ is, counter)
  thread_func (suc t) (i ∷ is) counter =
      let (is', counter') = thread_func t is counter in (i ∷ is', counter')

  -- A schedule: the numbers of the threads in the order of their rounds.
  unfoldable pub run : List ℕ → State → State
  run [] s = s
  run (t ∷ ts) s =
      let (is, counter) = thread_func t s.indexes s.shared_counter in
      run ts (record { indexes = is; shared_counter = counter })

-- `main` after it has created the threads.
abbrev pub start : (threads_count : ℕ) → State
start threads_count = record { indexes = replicate threads_count 0; shared_counter = 0 }
